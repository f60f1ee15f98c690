-- ===== src/Connection.antt =====
-- src/connection.h and src/connection.cpp: the connection's own methods, but for those for messages.
pub mod Library
pub mod Context
pub mod Handles
pub mod Recover
pub mod Output
pub mod Charset
pub mod Login
pub mod Keeps
pub mod OutputKeeps
pub mod LoginKeeps
pub mod Lost
pub mod Dropped
pub mod ExecuteKeeps
pub mod Execute
pub mod Options
