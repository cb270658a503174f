-- ===== src/Compare/Tables.antt =====
-- `compare_tables` of src/compare/compare_table.c. The stubs for partitioning and inheritance do
-- nothing.
pub mod Self
pub mod Recorded
pub mod Modified
pub mod All
use schema_compare_c.Base.{
  ℕ, ◌+◌, Bool, true, false, not, ◌&&◌, ◌||◌, Option, none, some, ltb, ◌==◌, if◌then◌else◌,
}
use schema_compare_c.Text.{Bytes, CString, codes}
use schema_compare_c.Text.Strings.{same}
use schema_compare_c.Ddl.Enums.{TableType, temporary, unlogged, table_type_value}
use schema_compare_c.Ddl.Tables.{regular, CreateTableStmt}
use schema_compare_c.Diff.{
  info, critical, table_type_changed, tablespace_changed, TableDiff, table_diff_create,
}
use schema_compare_c.Compare.Options.{CompareOptions}
use schema_compare_c.Compare.Columns.{append_diff, or_text, compare_columns}
use schema_compare_c.Compare.Constraints.{compare_constraints}

-- The result and `has_changes`.
pub record Comparison : Type 0 where
  pub result : TableDiff
  pub has_changes : Bool

unfoldable pub table_type_text : TableType → Bytes
table_type_text temporary = codes "TEMPORARY"
table_type_text unlogged = codes "UNLOGGED"
table_type_text _ = codes "NORMAL"

unfoldable pub compare_table_types : CreateTableStmt → CreateTableStmt → Comparison → Comparison
compare_table_types source target c =
    if table_type_value source.table_type == table_type_value target.table_type then c else record {
      result =
          append_diff
            (record (c.result) {
              type_changed = true;
              old_table_type = source.table_type;
              new_table_type = target.table_type;
            })
            table_type_changed critical none (some (table_type_text source.table_type))
            (some (table_type_text target.table_type));
      has_changes = true;
    }

-- `opts && opts->compare_tablespaces`
unfoldable pub asks_tablespaces : Option CompareOptions → Bool
asks_tablespaces none = false
asks_tablespaces (some opts) = opts.compare_tablespaces

-- `opts && opts->compare_constraints`
unfoldable pub asks_constraints : Option CompareOptions → Bool
asks_constraints none = false
asks_constraints (some opts) = opts.compare_constraints

unfoldable pub tablespaces_differ : CString → CString → Bool
tablespaces_differ none none = false
tablespaces_differ none (some _) = true
tablespaces_differ (some _) none = true
tablespaces_differ (some old) (some new) = not (same old new)

unfoldable pub compare_table_tablespaces :
    Option CompareOptions → CreateTableStmt → CreateTableStmt → Comparison → Comparison
compare_table_tablespaces opts source target c =
    if asks_tablespaces opts && tablespaces_differ source.tablespace_name target.tablespace_name
    then record {
      result =
          append_diff
            (record (c.result) {
              tablespace_changed = true;
              old_tablespace = source.tablespace_name;
              new_tablespace = target.tablespace_name;
            })
            tablespace_changed info none (or_text source.tablespace_name (codes "(default)"))
            (or_text target.tablespace_name (codes "(default)"));
      has_changes = true;
    }
    else c

unfoldable pub is_regular : CreateTableStmt → Bool
is_regular stmt = elim stmt.table_def [ regular _ _ ↦ true | _ ↦ false ]

-- Some column was counted.
unfoldable pub counts_columns : TableDiff → Bool
counts_columns r =
    ltb 0 r.column_add_count || ltb 0 r.column_remove_count || ltb 0 r.column_modify_count

-- Some constraint was counted.
unfoldable pub counts_constraints : TableDiff → Bool
counts_constraints r =
    ltb 0 r.constraint_add_count
    || ltb 0 r.constraint_remove_count
    || ltb 0 r.constraint_modify_count

unfoldable pub compare_table_columns :
    Option CompareOptions → CreateTableStmt → CreateTableStmt → Comparison → Comparison
compare_table_columns opts source target c =
    if is_regular source && is_regular target
    then (let r = compare_columns source target c.result opts in
        record { result = r; has_changes = counts_columns r || c.has_changes })
    else c

unfoldable pub compare_table_constraints :
    Option CompareOptions → CreateTableStmt → CreateTableStmt → Comparison → Comparison
compare_table_constraints opts source target c =
    if asks_constraints opts && is_regular source && is_regular target
    then (let r = compare_constraints source target c.result opts in
        record { result = r; has_changes = counts_constraints r || c.has_changes })
    else c

-- The result before anything is compared.
unfoldable pub begin_tables : CreateTableStmt → CreateTableStmt → Comparison
begin_tables source target = record {
  result = record (table_diff_create target.table_name) {
    source_table = some source;
    target_table = some target;
  };
  has_changes = false;
}

unfoldable pub compare_parts :
    Option CompareOptions → CreateTableStmt → CreateTableStmt → Comparison
compare_parts opts source target = compare_table_constraints opts source target (
    compare_table_columns opts source target (
      compare_table_tablespaces opts source target
        (compare_table_types source target (begin_tables source target))))

unfoldable pub finish : Comparison → TableDiff
finish c = record (c.result) { table_modified = c.has_changes }

-- The result if both names are there, and NULL otherwise.
unfoldable pub if_both_named : CString → CString → TableDiff → Option TableDiff
if_both_named (some _) (some _) result = some result
if_both_named _ _ result = none

-- NULL if either table is NULL or has no name.
unfoldable pub compare_tables :
    Option CreateTableStmt → Option CreateTableStmt → Option CompareOptions → Option TableDiff
compare_tables none target opts = none
compare_tables (some source) none opts = none
compare_tables (some source) (some target) opts =
    if_both_named source.table_name target.table_name (finish (compare_parts opts source target))
