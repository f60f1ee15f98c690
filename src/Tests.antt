-- ===== src/Tests.antt =====
-- Tests: a server that follows a script, and the theorems at concrete inputs.
mod Fixture
mod Queries
mod Values
mod Dates
mod Library
mod Rows
mod Connections
mod Params
mod Datasource
mod Recovery
mod Statements
mod Outputs
