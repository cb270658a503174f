-- ===== src/Compare/Tables/All.antt =====
-- `compare_all_tables` of src/compare/compare_table.c and `compare_schemas` of
-- src/compare/compare_schema.c. The arrays hold pointers, which may be NULL, and may themselves be
-- NULL, as `schema->tables` is for a schema without tables; such an array is `none`, and `result` is
-- never NULL here; `last_diff` is the end
-- of the list of table differences, so what is linked after it is appended. The products of the
-- counts by 2 fit in an `int`.
pub mod Self
pub mod Spec
pub mod Steps
pub mod Exact
pub mod Severities
use schema_compare_c.Base.{
  ℕ, ◌+◌, ◌*◌, Bool, true, false, List, [], ◌∷◌, ◌++◌, Option, none, some, if◌then◌else◌, length,
}
use schema_compare_c.Base.Int.{pos}
use schema_compare_c.Text.{Bytes, CString, codes}
use schema_compare_c.HashTable.{HashTable, hash_table_create, hash_table_get}
use schema_compare_c.HashTable.Populate.{populate}
use schema_compare_c.Ddl.Tables.{CreateTableStmt}
use schema_compare_c.Diff.{
  info, warning, critical, Diff, TableDiff, SchemaDiff, table_diff_create, schema_diff_create,
}
use schema_compare_c.Compare.Options.{CompareOptions, should_compare_table}
use schema_compare_c.Compare.Tables.{compare_tables}

abbrev pub Tables : Type 0
Tables = List (Option CreateTableStmt)

-- The table and its name, if it has one.
unfoldable pub named_table : Option CreateTableStmt → Option (CreateTableStmt × Bytes)
named_table none = none
named_table (some stmt) = elim stmt.table_name [ none ↦ none | some name ↦ some (stmt, name) ]

-- The hash table of an array of tables.
unfoldable pub table_index : Tables → HashTable CreateTableStmt
table_index tables = populate named_table (hash_table_create (pos (length tables * 2))) tables

unfoldable pub link_table : SchemaDiff → TableDiff → SchemaDiff
link_table result diff = record result { table_diffs = result.table_diffs ++ diff ∷ [] }

unfoldable pub add_table : SchemaDiff → CreateTableStmt → SchemaDiff
add_table result target =
    link_table (record result { tables_added = result.tables_added + 1 })
      (record (table_diff_create target.table_name) {
        table_added = true;
        target_table = some target;
      })

unfoldable pub remove_table : SchemaDiff → CreateTableStmt → SchemaDiff
remove_table result source =
    link_table (record result { tables_removed = result.tables_removed + 1 })
      (record (table_diff_create source.table_name) {
        table_removed = true;
        source_table = some source;
      })

-- A comparison that was made is linked if the table is modified.
unfoldable pub modify_table : SchemaDiff → Option TableDiff → SchemaDiff
modify_table result none = result
modify_table result (some diff) =
    if diff.table_modified
    then link_table
        (record result {
          tables_modified = result.tables_modified + 1;
          total_diffs = result.total_diffs + diff.diff_count;
        })
        diff
    else result

-- The body of the loop over the target, at a table that is compared: what the source has.
unfoldable pub visit_target_table :
    Option CompareOptions → SchemaDiff → CreateTableStmt → Option CreateTableStmt → SchemaDiff
visit_target_table opts result target none = add_table result target
visit_target_table opts result target (some source) =
    modify_table result (compare_tables (some source) (some target) opts)

unfoldable pub visit_source_table :
    SchemaDiff → CreateTableStmt → Option CreateTableStmt → SchemaDiff
visit_source_table result source none = remove_table result source
visit_source_table result source (some _) = result

unfoldable pub find_added_tables :
    HashTable CreateTableStmt → Option CompareOptions → Tables → SchemaDiff → SchemaDiff
find_added_tables source_ht opts [] result = result
find_added_tables source_ht opts (t ∷ next) result = elim (named_table t) [
  | none ↦ find_added_tables source_ht opts next result
  | some (target, name) ↦ find_added_tables source_ht opts next (
      if should_compare_table name opts
      then visit_target_table opts result target (hash_table_get source_ht (some name))
      else result)
]

unfoldable pub find_removed_tables :
    HashTable CreateTableStmt → Option CompareOptions → Tables → SchemaDiff → SchemaDiff
find_removed_tables target_ht opts [] result = result
find_removed_tables target_ht opts (t ∷ next) result = elim (named_table t) [
  | none ↦ find_removed_tables target_ht opts next result
  | some (source, name) ↦ find_removed_tables target_ht opts next (
      if should_compare_table name opts
      then visit_source_table result source (hash_table_get target_ht (some name))
      else result)
]

unfoldable pub count_severity : SchemaDiff → Diff → SchemaDiff
count_severity result d = elim d.severity [
  | critical ↦ record result { critical_count = result.critical_count + 1 }
  | warning ↦ record result { warning_count = result.warning_count + 1 }
  | info ↦ record result { info_count = result.info_count + 1 }
]

unfoldable pub count_severities : List Diff → SchemaDiff → SchemaDiff
count_severities [] result = result
count_severities (d ∷ ds) result = count_severities ds (count_severity result d)

unfoldable pub count_tables : List TableDiff → SchemaDiff → SchemaDiff
count_tables [] result = result
count_tables (td ∷ tds) result = count_tables tds (count_severities td.diffs result)

-- What is done with two arrays that are there.
unfoldable pub compare_arrays : Tables → Tables → SchemaDiff → Option CompareOptions → SchemaDiff
compare_arrays source_tables target_tables result opts =
    let compared =
      find_removed_tables (table_index target_tables) opts source_tables
        (find_added_tables (table_index source_tables) opts target_tables result) in
    count_tables compared.table_diffs compared

-- Nothing is compared if either array is NULL.
unfoldable pub compare_all_tables :
    Option Tables → Option Tables → SchemaDiff → Option CompareOptions → SchemaDiff
compare_all_tables none target_tables result opts = result
compare_all_tables (some source_tables) none result opts = result
compare_all_tables (some source_tables) (some target_tables) result opts =
    compare_arrays source_tables target_tables result opts

-- What is read of a schema: `schema->tables`, which is NULL as long as the schema has no table.
pub record SchemaTables : Type 0 where
  pub tables : Option Tables

-- NULL if either schema is NULL.
unfoldable pub compare_schemas :
    Option SchemaTables → Option SchemaTables → Option CompareOptions → Option SchemaDiff
compare_schemas none target opts = none
compare_schemas (some source) none opts = none
compare_schemas (some source) (some target) opts = some (
    compare_all_tables source.tables target.tables (schema_diff_create (some (codes "public")))
      opts)
