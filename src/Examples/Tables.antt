-- ===== src/Examples/Tables.antt =====
-- The comparison at concrete tables.
use schema_compare_c.Base.{
  ◌≡◌, ◌⊎◌, ◌↔◌, refl, true, false, List, [], ◌∷◌, Option, none, some, arith,
}
use schema_compare_c.Text.{Bytes, codes}
use schema_compare_c.Text.Strings.{same, before, split_at}
use schema_compare_c.Text.Ctype.{to_lower}
use schema_compare_c.Ddl.Enums.{normal, none_scope, plain, preserve_rows}
use schema_compare_c.Ddl.Constraints.{ColumnConstraint, ConstraintFlags, not_null}
use schema_compare_c.Ddl.Tables.{ColumnDef, TableElement, column, regular, CreateTableStmt}
use schema_compare_c.Diff.{ColumnDiff, TableDiff, column_diff_create, table_diff_create}
use schema_compare_c.Compare.Options.{CompareOptions, compare_options_default, names_equal}
use schema_compare_c.Compare.Options.{should_compare_table}
use schema_compare_c.Compare.Options.Filter.{AnyOccurs, should_compare_table_lem}
use schema_compare_c.Compare.Types.{data_types_equal}
use schema_compare_c.Compare.Expressions.{expressions_equal}
use schema_compare_c.Compare.Equality.{
  ComparesBy, name_key, type_key, expression_key, names_equal-ComparesBy,
  data_types_equal-ComparesBy, expressions_equal-ComparesBy,
}
use schema_compare_c.Compare.Column.{
  compare_column_details, column_is_not_null, get_column_default, collation_differs,
  storage_differs,
}
use schema_compare_c.Compare.Column.Exact.{Reports, any_change, Agree, details-some, details-none}
use schema_compare_c.Compare.Columns.{named_column, table_elements, compare_columns}
use schema_compare_c.Compare.Columns.Lookup.{find_column}
use schema_compare_c.Compare.Columns.Self.{DistinctNames, compare_columns_self}

abbrev pub no_flags : ConstraintFlags
no_flags = record {
  deferrable = false;
  not_deferrable = false;
  initially_deferred = false;
  initially_immediate = false;
  enforced = false;
  not_enforced = false;
  has_deferrable = false;
  has_initially = false;
  has_enforced = false;
}

abbrev pub mandatory : ColumnConstraint
mandatory = record { constraint_name = none; constraint = not_null false; flags = no_flags }

abbrev pub typed : Bytes → Bytes → List ColumnConstraint → ColumnDef
typed name data_type constraints = record {
  column_name = some name;
  data_type = some data_type;
  storage_type = plain;
  has_storage = false;
  compression_method = none;
  collation = none;
  constraints = constraints;
}

abbrev pub table_of : List TableElement → CreateTableStmt
table_of elements = record {
  temp_scope = none_scope;
  table_type = normal;
  if_not_exists = false;
  table_name = some (codes "t");
  table_def = regular elements [];
  partition_by = none;
  using_method = none;
  with_options = none;
  without_oids = false;
  on_commit = preserve_rows;
  has_on_commit = false;
  tablespace_name = none;
}

abbrev old_id : ColumnDef
old_id = typed (codes "id") (codes "int4") []

abbrev new_id : ColumnDef
new_id = typed (codes "id") (codes "INTEGER") (mandatory ∷ [])

abbrev pub old_table : CreateTableStmt
old_table = table_of (column old_id ∷ column (typed (codes "note") (codes "text") []) ∷ [])

abbrev pub new_table : CreateTableStmt
new_table = table_of (column new_id ∷ column (typed (codes "age") (codes "int2") []) ∷ [])

abbrev pub options : Option CompareOptions
options = some compare_options_default

abbrev pub blank : TableDiff
blank = table_diff_create (some (codes "t"))

names_equal-ComparesBy_example : ComparesBy (name_key options) (λ a b. names_equal a b options)
names_equal-ComparesBy_example = names_equal-ComparesBy options

data_types_equal-ComparesBy_example :
    ComparesBy (type_key options) (λ a b. data_types_equal a b options)
data_types_equal-ComparesBy_example = data_types_equal-ComparesBy options

expressions_equal-ComparesBy_example :
    ComparesBy (expression_key options) (λ a b. expressions_equal a b options)
expressions_equal-ComparesBy_example = expressions_equal-ComparesBy options

details-none_example :
    (compare_column_details old_id new_id options ≡ none) ↔ Agree old_id new_id options
details-none_example = details-none old_id new_id options

pub old_table-DistinctNames : DistinctNames (table_elements old_table)
unfolding table_elements find_column named_column same
old_table-DistinctNames = (λ col name e. ground arith, (λ col name e. refl, tt))

compare_columns_self_example : compare_columns old_table old_table blank options ≡ blank
compare_columns_self_example = compare_columns_self old_table blank options old_table-DistinctNames

-- The type is an alias spelled otherwise, so only the nullability differs.
abbrev expected_change : ColumnDiff
expected_change = record (column_diff_create (some (codes "id"))) {
  nullable_changed = true;
  old_nullable = true;
  new_nullable = false;
}

details_runs : compare_column_details old_id new_id options ≡ some expected_change
unfolding compare_column_details data_types_equal names_equal expressions_equal column_is_not_null
    get_column_default collation_differs storage_differs compare_options_default same before
    split_at to_lower
details_runs = refl

details-some_example :
    Reports old_id new_id options expected_change × (any_change expected_change ≡ true)
details-some_example = details-some old_id new_id options expected_change details_runs

abbrev filtering : CompareOptions
filtering = record compare_options_default {
  include_tables = codes "user" ∷ [];
  exclude_tables = codes "_old" ∷ [];
}

should_compare_table_lem_example :
    (should_compare_table (codes "app_users") (some filtering) ≡ true) ↔ (
      ((filtering.include_tables ≡ []) ⊎ AnyOccurs filtering.include_tables (codes "app_users"))
      × ¬ AnyOccurs filtering.exclude_tables (codes "app_users"))
should_compare_table_lem_example = should_compare_table_lem (codes "app_users") filtering
