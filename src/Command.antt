-- ===== src/Command.antt =====
-- src/command.h and src/command.cpp: a command of the library, its results, columns and rows.
pub mod Names
pub mod Results
pub mod Describe
pub mod Convert
pub mod Rows
pub mod Sending
pub mod Arguments
pub mod Params
pub mod Keeps
