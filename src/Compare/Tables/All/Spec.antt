-- ===== src/Compare/Tables/All/Spec.antt =====
-- What a comparison of two arrays of tables should report, said without hash tables.
use schema_compare_c.Base.{
  ℕ, ◌+◌, ◌≡◌, true, List, [], ◌∷◌, Option, none, some, length, if◌then◌else◌,
}
use schema_compare_c.Text.{Bytes}
use schema_compare_c.HashTable.Populate.{find_last}
use schema_compare_c.Ddl.Tables.{CreateTableStmt}
use schema_compare_c.Diff.{TableDiff, SchemaDiff, table_diff_create}
use schema_compare_c.Compare.Options.{CompareOptions, should_compare_table}
use schema_compare_c.Compare.Tables.{compare_tables}
use schema_compare_c.Compare.Tables.All.{Tables, named_table}

-- The tables of the second array that take part: all of them if both arrays are there, and none if
-- either is NULL.
unfoldable pub taking_part : Option Tables → Option Tables → Tables
taking_part none tables = []
taking_part (some _) none = []
taking_part (some _) (some tables) = tables

-- The table and its name, if it has one and the options do not leave it out.
unfoldable pub compared_table :
    Option CompareOptions → Option CreateTableStmt → Option (CreateTableStmt × Bytes)
compared_table opts t = elim (named_table t) [
  | none ↦ none
  | some (stmt, name) ↦ if should_compare_table name opts then some (stmt, name) else none
]

-- The compared tables of the second array whose name no table of the first has, in their order.
unfoldable pub missing_tables : Option CompareOptions → Tables → Tables → List CreateTableStmt
missing_tables opts others [] = []
missing_tables opts others (t ∷ next) = elim (compared_table opts t) [
  | none ↦ missing_tables opts others next
  | some (stmt, name) ↦ elim (find_last named_table name others) [
    | none ↦ stmt ∷ missing_tables opts others next
    | some _ ↦ missing_tables opts others next
  ]
]

unfoldable pub if_modified : Option TableDiff → Option TableDiff
if_modified none = none
if_modified (some diff) = if diff.table_modified then some diff else none

-- The difference of a table from an older one, if it is modified.
unfoldable pub modification :
    Option CompareOptions → CreateTableStmt → CreateTableStmt → Option TableDiff
modification opts old stmt = if_modified (compare_tables (some old) (some stmt) opts)

-- The differences of the modified tables of the second array from those of their names in the first.
unfoldable pub modified_tables : Option CompareOptions → Tables → Tables → List TableDiff
modified_tables opts others [] = []
modified_tables opts others (t ∷ next) = elim (compared_table opts t) [
  | none ↦ modified_tables opts others next
  | some (stmt, name) ↦ elim (find_last named_table name others) [
    | none ↦ modified_tables opts others next
    | some old ↦ elim (modification opts old stmt) [
      | none ↦ modified_tables opts others next
      | some diff ↦ diff ∷ modified_tables opts others next
    ]
  ]
]

-- The difference that reports a new table.
unfoldable pub added_table : CreateTableStmt → TableDiff
added_table stmt = record (table_diff_create stmt.table_name) {
  table_added = true;
  target_table = some stmt;
}

-- The difference that reports a table that is gone.
unfoldable pub removed_table : CreateTableStmt → TableDiff
removed_table stmt = record (table_diff_create stmt.table_name) {
  table_removed = true;
  source_table = some stmt;
}

-- What the second array gives to the list: its new and modified tables, in its order.
unfoldable pub target_diffs : Option CompareOptions → Tables → Tables → List TableDiff
target_diffs opts others [] = []
target_diffs opts others (t ∷ next) = elim (compared_table opts t) [
  | none ↦ target_diffs opts others next
  | some (stmt, name) ↦ elim (find_last named_table name others) [
    | none ↦ added_table stmt ∷ target_diffs opts others next
    | some old ↦ elim (modification opts old stmt) [
      | none ↦ target_diffs opts others next
      | some diff ↦ diff ∷ target_diffs opts others next
    ]
  ]
]

unfoldable pub total_of : List TableDiff → ℕ
total_of [] = 0
total_of (d ∷ ds) = d.diff_count + total_of ds

-- The schema difference counts these tables and lists these differences.
pub record Summarises (r : SchemaDiff) (added removed : List CreateTableStmt)
    (modified diffs : List TableDiff) : Type 0 where
  pub listed : r.table_diffs ≡ diffs
  pub added_count : r.tables_added ≡ length added
  pub removed_count : r.tables_removed ≡ length removed
  pub modified_count : r.tables_modified ≡ length modified
  pub total_count : r.total_diffs ≡ total_of modified
