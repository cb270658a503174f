-- ===== src/Diff.antt =====
-- src/compare/diff.c and include/diff.h: the records in which a comparison reports differences.
-- Allocations succeed, so no `*_create` returns NULL; the `*_free` functions have no counterpart.
pub mod Labels
use schema_compare_c.Base.{ℕ, Bool, false, true, List, [], ◌∷◌, ◌++◌, Option, none, some}
use schema_compare_c.Text.{Bytes, CString}
use schema_compare_c.Ddl.Enums.{TableType, normal}
use schema_compare_c.Ddl.Constraints.{ColumnConstraint, TableConstraint}
use schema_compare_c.Ddl.Tables.{CreateTableStmt}

pub data DiffType : Type 0 where
  table_added table_removed table_modified : DiffType
  column_added column_removed column_type_changed column_nullable_changed : DiffType
  column_default_changed column_collation_changed column_storage_changed : DiffType
  column_compression_changed : DiffType
  constraint_added constraint_removed constraint_modified : DiffType
  table_type_changed tablespace_changed partition_changed inherits_changed : DiffType
  storage_params_changed : DiffType

pub data DiffSeverity : Type 0 where
  info warning critical : DiffSeverity

pub record Diff : Type 0 where
  pub diff_type : DiffType
  pub severity : DiffSeverity
  pub table_name : CString
  pub element_name : CString
  pub old_value : CString
  pub new_value : CString
  pub description : CString

pub record ColumnDiff : Type 0 where
  pub column_name : CString
  pub type_changed : Bool
  pub nullable_changed : Bool
  pub default_changed : Bool
  pub collation_changed : Bool
  pub storage_changed : Bool
  pub compression_changed : Bool
  pub old_type : CString
  pub new_type : CString
  pub old_nullable : Bool
  pub new_nullable : Bool
  pub old_default : CString
  pub new_default : CString
  pub old_collation : CString
  pub new_collation : CString
  pub old_storage : CString
  pub new_storage : CString
  pub old_compression : CString
  pub new_compression : CString

-- What the `const void *` of a constraint difference points to.
pub data ConstraintPointer : Type 0 where
  table_level : TableConstraint → ConstraintPointer
  column_level : ColumnConstraint → ConstraintPointer

pub record ConstraintDiff : Type 0 where
  pub constraint_name : CString
  pub added : Bool
  pub removed : Bool
  pub modified : Bool
  pub old_type : ℕ
  pub new_type : ℕ
  pub old_definition : CString
  pub new_definition : CString
  pub source_constraint : Option ConstraintPointer
  pub target_constraint : Option ConstraintPointer
  pub column_name : CString
  pub is_column_constraint : Bool

pub record TableDiff : Type 0 where
  pub table_name : CString
  pub table_added : Bool
  pub table_removed : Bool
  pub table_modified : Bool
  pub type_changed : Bool
  pub tablespace_changed : Bool
  pub partition_changed : Bool
  pub inherits_changed : Bool
  pub storage_params_changed : Bool
  pub old_table_type : TableType
  pub new_table_type : TableType
  pub old_tablespace : CString
  pub new_tablespace : CString
  pub source_table : Option CreateTableStmt
  pub target_table : Option CreateTableStmt
  pub columns_added : List ColumnDiff
  pub columns_removed : List ColumnDiff
  pub columns_modified : List ColumnDiff
  pub column_add_count : ℕ
  pub column_remove_count : ℕ
  pub column_modify_count : ℕ
  pub constraints_added : List ConstraintDiff
  pub constraints_removed : List ConstraintDiff
  pub constraints_modified : List ConstraintDiff
  pub constraint_add_count : ℕ
  pub constraint_remove_count : ℕ
  pub constraint_modify_count : ℕ
  pub diffs : List Diff
  pub diff_count : ℕ

pub record SchemaDiff : Type 0 where
  pub schema_name : CString
  pub tables_added : ℕ
  pub tables_removed : ℕ
  pub tables_modified : ℕ
  pub total_diffs : ℕ
  pub critical_count : ℕ
  pub warning_count : ℕ
  pub info_count : ℕ
  pub table_diffs : List TableDiff
  pub added_tables : List CString
  pub removed_tables : List CString

unfoldable pub diff_create : DiffType → DiffSeverity → CString → CString → Diff
diff_create diff_type severity table_name element_name = record {
  diff_type = diff_type;
  severity = severity;
  table_name = table_name;
  element_name = element_name;
  old_value = none;
  new_value = none;
  description = none;
}

unfoldable pub diff_set_values : Diff → CString → CString → Diff
diff_set_values diff old_value new_value = record diff {
  old_value = old_value;
  new_value = new_value;
}

unfoldable pub diff_set_description : Diff → CString → Diff
diff_set_description diff description = record diff { description = description }

unfoldable pub diff_append : List Diff → Diff → List Diff
diff_append list diff = list ++ diff ∷ []

-- `calloc`, and the name.
unfoldable pub column_diff_create : CString → ColumnDiff
column_diff_create name = record {
  column_name = name;
  type_changed = false;
  nullable_changed = false;
  default_changed = false;
  collation_changed = false;
  storage_changed = false;
  compression_changed = false;
  old_type = none;
  new_type = none;
  old_nullable = false;
  new_nullable = false;
  old_default = none;
  new_default = none;
  old_collation = none;
  new_collation = none;
  old_storage = none;
  new_storage = none;
  old_compression = none;
  new_compression = none;
}

unfoldable pub constraint_diff_create : CString → ConstraintDiff
constraint_diff_create name = record {
  constraint_name = name;
  added = false;
  removed = false;
  modified = false;
  old_type = 0;
  new_type = 0;
  old_definition = none;
  new_definition = none;
  source_constraint = none;
  target_constraint = none;
  column_name = none;
  is_column_constraint = false;
}

unfoldable pub table_diff_create : CString → TableDiff
table_diff_create name = record {
  table_name = name;
  table_added = false;
  table_removed = false;
  table_modified = false;
  type_changed = false;
  tablespace_changed = false;
  partition_changed = false;
  inherits_changed = false;
  storage_params_changed = false;
  old_table_type = normal;
  new_table_type = normal;
  old_tablespace = none;
  new_tablespace = none;
  source_table = none;
  target_table = none;
  columns_added = [];
  columns_removed = [];
  columns_modified = [];
  column_add_count = 0;
  column_remove_count = 0;
  column_modify_count = 0;
  constraints_added = [];
  constraints_removed = [];
  constraints_modified = [];
  constraint_add_count = 0;
  constraint_remove_count = 0;
  constraint_modify_count = 0;
  diffs = [];
  diff_count = 0;
}

unfoldable pub schema_diff_create : CString → SchemaDiff
schema_diff_create name = record {
  schema_name = name;
  tables_added = 0;
  tables_removed = 0;
  tables_modified = 0;
  total_diffs = 0;
  critical_count = 0;
  warning_count = 0;
  info_count = 0;
  table_diffs = [];
  added_tables = [];
  removed_tables = [];
}
