-- ===== src/Compare/Tables/All/Exact.antt =====
-- `compare_all_tables` of src/compare/compare_table.c beside its specification.
use schema_compare_c.Base.{◌≡◌, some}
use schema_compare_c.Text.{Bytes}
use schema_compare_c.HashTable.{HashTable, hash_table_get}
use schema_compare_c.HashTable.Populate.{find_last}
use schema_compare_c.Ddl.Tables.{CreateTableStmt}
use schema_compare_c.Compare.Tables.All.{Tables, named_table}

-- The table answers for those tables.
abbrev Indexes : HashTable CreateTableStmt → Tables → Type 0
Indexes ht tables =
    (name : Bytes) → hash_table_get ht (some name) ≡ find_last named_table name tables
