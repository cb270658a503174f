-- ===== src/Sql/Migration/Compared.antt =====
-- The migration script of a comparison of two arrays of tables.
use schema_compare_c.Compare.Tables.All.{Tables}
