-- ===== src/Examples.antt =====
-- The theorems at concrete inputs, and tests of the definitions.
pub mod Utils
pub mod Tables
pub mod Parsing
pub mod Memory
pub mod Migration
mod Constraints
mod Quoting
