-- ===== src/Ddl.antt =====
-- include/pg_create_table.h and the headers of types and schemas: the syntax trees, which the parser, the database reader,
-- the comparison and the SQL generator share. A union with its tag is a data type, a linked list
-- through `next` is a list, and a counted array is a list with its count.
pub mod Enums
pub mod Constraints
pub mod Tables
pub mod Types
