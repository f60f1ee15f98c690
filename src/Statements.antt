-- ===== src/Statements.antt =====
-- src/statement.h, src/statement.cpp and src/dbmodulewrap.h: prepared statements.
pub mod Methods
pub mod Owners
pub mod Reach
pub mod Fresh
pub mod Fetch
pub mod Wrap
