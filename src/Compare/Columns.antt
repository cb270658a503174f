-- ===== src/Compare/Columns.antt =====
-- `compare_columns` of src/compare/compare_column.c. The three list tails `last_added`,
-- `last_removed` and `last_modified` are NULL before the first link, which is a flag here: the first
-- link replaces the list of the result, and the later ones append to it.
pub mod Lookup
pub mod Spec
pub mod Exact
pub mod Self
pub mod Recorded
pub mod Advance
use schema_compare_c.Base.{
  ℕ, ◌+◌, Bool, true, false, List, [], ◌∷◌, ◌++◌, Option, none, some, not, if◌then◌else◌,
}
use schema_compare_c.Base.Int.{pos}
use schema_compare_c.Text.{Bytes, CString, codes}
use schema_compare_c.HashTable.{HashTable, hash_table_create, hash_table_insert, hash_table_get}
use schema_compare_c.Ddl.Tables.{ColumnDef, TableElement, TableDef, CreateTableStmt, regular}
use schema_compare_c.Diff.{
  DiffType, DiffSeverity, info, warning, critical, column_added, column_removed,
  column_type_changed, column_nullable_changed, column_default_changed, column_collation_changed,
  column_storage_changed, column_compression_changed, ColumnDiff, TableDiff, diff_create,
  diff_set_values, diff_append, column_diff_create,
}
use schema_compare_c.Compare.Options.{CompareOptions}
use schema_compare_c.Compare.Column.{
  get_column_def, column_is_not_null, get_column_default, compare_column_details,
}

-- The column of an element, if it is a column with a name.
unfoldable pub named_column : TableElement → Option (ColumnDef × Bytes)
unfolding get_column_def
named_column elem = elim (get_column_def elem) [
  | none ↦ none
  | some col ↦ elim col.column_name [ none ↦ none | some name ↦ some (col, name) ]
]

unfoldable pub populate_columns : HashTable ColumnDef → List TableElement → HashTable ColumnDef
populate_columns ht [] = ht
populate_columns ht (elem ∷ next) = elim (named_column elem) [
  | none ↦ populate_columns ht next
  | some (col, name) ↦ populate_columns (hash_table_insert ht (some name) (some col)) next
]

-- The result, and whether each list has been linked to.
pub record Progress : Type 0 where
  pub result : TableDiff
  pub last_added : Bool
  pub last_removed : Bool
  pub last_modified : Bool

-- `if (last) last->next = cd; else list = cd;`
unfoldable pub link {ℓ} : {A : Type ℓ} → Bool → List A → A → List A
link true list cd = list ++ cd ∷ []
link false list cd = cd ∷ []

-- `diff_create`, `diff_set_values`, `diff_append` and `diff_count++` on one result.
unfoldable pub append_diff :
    TableDiff → DiffType → DiffSeverity → CString → CString → CString → TableDiff
unfolding diff_create diff_set_values diff_append
append_diff result diff_type severity element_name old_value new_value = record result {
  diffs = diff_append result.diffs (
      diff_set_values (diff_create diff_type severity result.table_name element_name) old_value
        new_value);
  diff_count = result.diff_count + 1;
}

-- The value, or a text that stands for NULL.
unfoldable pub or_text : CString → Bytes → CString
or_text none text = some text
or_text (some value) text = some value

unfoldable pub nullable_text : Bool → CString
nullable_text true = some (codes "NULL")
nullable_text false = some (codes "NOT NULL")

-- The same under the flag of a change.
unfoldable pub append_diff_if :
    Bool → DiffType → DiffSeverity → CString → CString → CString → TableDiff → TableDiff
unfolding append_diff
append_diff_if flag diff_type severity element_name old_value new_value result =
    if flag then append_diff result diff_type severity element_name old_value new_value else result

-- The entries for the flags of one modified column: the type first, the compression last.
unfoldable pub diffs_for_change : TableDiff → ColumnDiff → TableDiff
unfolding or_text nullable_text
diffs_for_change result cd =
    append_diff_if cd.compression_changed column_compression_changed info cd.column_name
      (or_text cd.old_compression (codes "(none)")) (or_text cd.new_compression (codes "(none)"))
      (append_diff_if cd.storage_changed column_storage_changed info cd.column_name
        (or_text cd.old_storage (codes "(default)")) (or_text cd.new_storage (codes "(default)"))
        (append_diff_if cd.collation_changed column_collation_changed info cd.column_name
          (or_text cd.old_collation (codes "(default)"))
          (or_text cd.new_collation (codes "(default)"))
          (append_diff_if cd.default_changed column_default_changed info cd.column_name
            (or_text cd.old_default (codes "(none)")) (or_text cd.new_default (codes "(none)"))
            (append_diff_if cd.nullable_changed column_nullable_changed warning cd.column_name
              (nullable_text cd.old_nullable) (nullable_text cd.new_nullable)
              (append_diff_if cd.type_changed column_type_changed critical cd.column_name
                cd.old_type cd.new_type result)))))

-- The `ColumnDiff` of a column that only the target has.
unfoldable pub added_column : ColumnDef → ColumnDiff
unfolding column_diff_create
added_column col = record (column_diff_create col.column_name) {
  new_type = col.data_type;
  new_nullable = not (column_is_not_null col);
  new_default = get_column_default col;
}

-- The `ColumnDiff` of a column that only the source has.
unfoldable pub removed_column : ColumnDef → ColumnDiff
unfolding column_diff_create
removed_column col = record (column_diff_create col.column_name) { old_type = col.data_type }

unfoldable pub add_column : Progress → ColumnDef → Progress
unfolding link append_diff added_column
add_column p col = record p {
  result =
      append_diff
        (record (p.result) {
          column_add_count = p.result.column_add_count + 1;
          columns_added = link p.last_added p.result.columns_added (added_column col);
        })
        column_added warning col.column_name none col.data_type;
  last_added = true;
}

unfoldable pub modify_column : Progress → Option ColumnDiff → Progress
unfolding link append_diff_if diffs_for_change
modify_column p none = p
modify_column p (some cd) = record p {
  result =
      diffs_for_change
        (record (p.result) {
          column_modify_count = p.result.column_modify_count + 1;
          columns_modified = link p.last_modified p.result.columns_modified cd;
        })
        cd;
  last_modified = true;
}

unfoldable pub remove_column : Progress → ColumnDef → Progress
unfolding link append_diff removed_column
remove_column p col = record p {
  result =
      append_diff
        (record (p.result) {
          column_remove_count = p.result.column_remove_count + 1;
          columns_removed = link p.last_removed p.result.columns_removed (removed_column col);
        })
        column_removed critical col.column_name col.data_type none;
  last_removed = true;
}

-- The body of the loop over the target, at a column with a name: what the source has under it.
unfoldable pub visit_target :
    Option CompareOptions → Progress → ColumnDef → Option ColumnDef → Progress
unfolding add_column modify_column
visit_target opts p target_col none = add_column p target_col
visit_target opts p target_col (some source_col) =
    modify_column p (compare_column_details source_col target_col opts)

-- The body of the loop over the source, at a column with a name: what the target has under it.
unfoldable pub visit_source : Progress → ColumnDef → Option ColumnDef → Progress
unfolding remove_column
visit_source p source_col none = remove_column p source_col
visit_source p source_col (some _) = p

unfoldable pub find_added :
    HashTable ColumnDef → Option CompareOptions → List TableElement → Progress → Progress
unfolding visit_target
find_added source_ht opts [] p = p
find_added source_ht opts (elem ∷ next) p = elim (named_column elem) [
  | none ↦ find_added source_ht opts next p
  | some (col, name) ↦
      find_added source_ht opts next
        (visit_target opts p col (hash_table_get source_ht (some name)))
]

unfoldable pub find_removed : HashTable ColumnDef → List TableElement → Progress → Progress
unfolding visit_source
find_removed target_ht [] p = p
find_removed target_ht (elem ∷ next) p = elim (named_column elem) [
  | none ↦ find_removed target_ht next p
  | some (col, name) ↦
      find_removed target_ht next (visit_source p col (hash_table_get target_ht (some name)))
]

-- The elements of a regular table; the callers ask for the variant first.
unfoldable pub table_elements : CreateTableStmt → List TableElement
table_elements stmt = elim stmt.table_def [ regular elements _ ↦ elements | _ ↦ [] ]

-- The table of a statement's columns by name.
abbrev pub column_index : CreateTableStmt → HashTable ColumnDef
column_index stmt = populate_columns (hash_table_create (pos 32)) (table_elements stmt)

abbrev pub begin : TableDiff → Progress
begin result = record {
  result = result;
  last_added = false;
  last_removed = false;
  last_modified = false;
}

unfoldable pub compare_columns :
    CreateTableStmt → CreateTableStmt → TableDiff → Option CompareOptions → TableDiff
unfolding populate_columns find_added find_removed table_elements named_column
compare_columns source target result opts =
    (find_removed (column_index target) (table_elements source)
      (find_added (column_index source) opts (table_elements target) (begin result))).result
