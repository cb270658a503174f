-- ===== src/Compare.antt =====
-- src/compare/: the comparison of two schemas.
pub mod Options
pub mod Types
pub mod Expressions
pub mod Column
pub mod Equality
pub mod Columns
pub mod Constraint
pub mod Constraints
pub mod Tables
