-- ===== src/Sql.antt =====
-- src/output/: the generation of SQL.
pub mod Quote
pub mod Calls
pub mod Options
pub mod Constraints
pub mod Columns
pub mod Tables
pub mod Migration
