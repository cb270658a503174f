-- ===== src/Examples/Constraints.antt =====
-- The comparison of constraints and of whole tables at concrete inputs.
use schema_compare_c.Base.{ltb, ◌≡◌, ◌+◌, refl, false, List, [], ◌∷◌, none, some}
use schema_compare_c.Text.{codes}
use schema_compare_c.Text.Strings.{same, same_ignore_case}
use schema_compare_c.Text.Ctype.{to_lower}
use schema_compare_c.HashTable.Populate.{if_named, find_last, DistinctKeys}
use schema_compare_c.Ddl.Constraints.{
  ColumnConstraint, TableConstraint, TableConstraintBody, ColumnConstraintBody,
}
use schema_compare_c.Ddl.Enums.{distinct}
use schema_compare_c.Ddl.Tables.{TableElement, column, table_constraint, CreateTableStmt}
use schema_compare_c.Diff.{table_diff_create, schema_diff_create}
use schema_compare_c.Compare.Options.{compare_options_default, names_equal}
use schema_compare_c.Compare.Columns.{table_elements}
use schema_compare_c.Compare.Columns.Recorded.{IsRecorded}
use schema_compare_c.Compare.Constraints.Infos.{
  constraint_infos, table_infos, column_infos, inline_infos, get_table_constraint,
}
use schema_compare_c.Compare.Constraints.{compare_constraints, compare_infos}
use schema_compare_c.Compare.Constraints.Removed.{left_count, first_loop, removed_constraints_exact}
use schema_compare_c.Compare.Constraints.Self.{compare_constraints_self}
use schema_compare_c.Compare.Tables.{if_both_named, compare_tables, compare_parts, finish}
use schema_compare_c.Compare.Tables.Self.{unmodified, compare_tables_self}
use schema_compare_c.Compare.Tables.Recorded.{compare_tables-IsRecorded}
use schema_compare_c.Compare.Tables.All.{Tables, named_table, compare_all_tables, compare_schemas}
use schema_compare_c.Compare.Tables.All.Severities.{
  counts_of, counted_tables, no_counts, severity_counts_lem,
}
use schema_compare_c.Compare.Tables.Modified.{table_modified_lem}
use schema_compare_c.Compare.Tables.All.Self.{AllDistinct, contents, compare_all_tables_self}
use schema_compare_c.Examples.Tables.{
  no_flags, typed, table_of, old_table, new_table, options, blank, old_table-DistinctNames,
}

abbrev unique_pair : TableConstraint
unique_pair = record {
  constraint_name = none;
  constraint = TableConstraintBody.unique (record {
    columns = some (codes "id") ∷ some (codes "note") ∷ [];
    without_overlaps_column = none;
    nulls_distinct = distinct;
    has_nulls_distinct = false;
    index_params = none;
  });
  flags = no_flags;
}

abbrev inline_unique : ColumnConstraint
inline_unique = record {
  constraint_name = none;
  constraint = ColumnConstraintBody.unique distinct false none;
  flags = no_flags;
}

abbrev plain_columns : List TableElement
plain_columns =
    column (typed (codes "id") (codes "int4") [])
    ∷ column (typed (codes "note") (codes "text") [])
    ∷ []

-- Each column is unique.
abbrev two_keys : CreateTableStmt
two_keys = table_of (
    column (typed (codes "id") (codes "int4") (inline_unique ∷ []))
    ∷ column (typed (codes "note") (codes "text") (inline_unique ∷ []))
    ∷ [])

-- The pair of columns is unique.
abbrev one_key : CreateTableStmt
one_key = table_of (table_constraint (some unique_pair) ∷ plain_columns)

-- Two keys of one column each are taken for one key of both columns.
two_keys_as_one : compare_constraints two_keys one_key blank options ≡ blank
unfolding compare_constraints compare_infos constraint_infos table_infos column_infos inline_infos
    get_table_constraint table_elements compare_options_default names_equal
    schema_compare_c.Compare.Constraints.find_removed_constraints
    schema_compare_c.Compare.Constraints.find_added_constraints
    schema_compare_c.Compare.Constraints.visit_target_constraint
    schema_compare_c.Compare.Constraints.visit_source_constraint
    schema_compare_c.Compare.Constraints.match_target
    schema_compare_c.Compare.Constraints.match_direct schema_compare_c.Compare.Constraints.unmatched
    schema_compare_c.Compare.Constraints.match_composite
    schema_compare_c.Compare.Constraints.columns_match_table
    schema_compare_c.Compare.Constraints.available_count
    schema_compare_c.Compare.Constraints.is_available
    schema_compare_c.Compare.Constraints.find_all_inline
    schema_compare_c.Compare.Constraints.find_inline
    schema_compare_c.Compare.Constraints.mark_all_at schema_compare_c.Compare.Constraints.mark_at
    schema_compare_c.Compare.Constraints.report_added
    schema_compare_c.Compare.Constraints.report_removed
    schema_compare_c.Compare.Constraints.Infos.constraint_infos_equivalent
    schema_compare_c.Compare.Constraints.Infos.pointers_equivalent
    schema_compare_c.Compare.Constraints.Infos.mixed_equivalent
    schema_compare_c.Compare.Constraints.Infos.is_single
    schema_compare_c.Compare.Constraints.Infos.body_columns
    schema_compare_c.Compare.Constraints.Infos.key_columns
    schema_compare_c.Compare.Constraints.Infos.inline_equivalent
    schema_compare_c.Compare.Column.get_column_def same same_ignore_case to_lower table_diff_create
two_keys_as_one = refl

compare_constraints_self_example : compare_constraints one_key one_key blank options ≡ blank
compare_constraints_self_example = compare_constraints_self one_key blank options

removed_constraints_exact_example :
    (compare_constraints one_key two_keys blank options).constraint_remove_count
    ≡ blank.constraint_remove_count
      + left_count
          (first_loop
            (constraint_infos (table_elements one_key))
            (constraint_infos (table_elements two_keys))
            blank
            options).sources
removed_constraints_exact_example = removed_constraints_exact one_key two_keys blank options

compare_tables_self_example :
    compare_tables (some old_table) (some old_table) options ≡ some (unmodified old_table)
compare_tables_self_example =
    compare_tables_self old_table (codes "t") options refl old_table-DistinctNames

compare_tables-IsRecorded_example : IsRecorded (finish (compare_parts options old_table new_table))
compare_tables-IsRecorded_example =
    compare_tables-IsRecorded (some old_table) (some new_table) options
      (finish (compare_parts options old_table new_table))
      (unfold compare_tables if_both_named in refl)

abbrev pub tables : Tables
tables = some old_table ∷ none ∷ []

pub tables-DistinctKeys : DistinctKeys named_table tables
unfolding find_last named_table if_named
tables-DistinctKeys = (λ stmt name e. refl, (λ stmt name e. refl, tt))

pub tables-AllDistinct : AllDistinct tables
tables-AllDistinct = (old_table-DistinctNames, tt)

compare_all_tables_self_example :
    compare_all_tables (some tables) (some tables) (schema_diff_create none) options
    ≡ schema_diff_create none
compare_all_tables_self_example =
    compare_all_tables_self (some tables) none options (unfold contents in tables-DistinctKeys)
      (unfold contents in tables-AllDistinct)

-- A schema without tables has no array, so no table of the other one is reported as new.
from_nothing :
    compare_schemas
      (some (record { tables = none }))
      (some (record { tables = some tables }))
      options
    ≡ some (schema_diff_create (some (codes "public")))
unfolding compare_schemas compare_all_tables
from_nothing = refl

severity_counts_lem_example :
    counts_of (
      compare_all_tables
        (some tables)
        (some (some new_table ∷ []))
        (schema_diff_create none)
        options)
    ≡ counted_tables
        (compare_all_tables
          (some tables)
          (some (some new_table ∷ []))
          (schema_diff_create none)
          options).table_diffs
        no_counts
severity_counts_lem_example =
    severity_counts_lem (some tables) (some (some new_table ∷ [])) none options

table_modified_lem_example :
    (finish (compare_parts options old_table new_table)).table_modified
    ≡ ltb 0 (finish (compare_parts options old_table new_table)).diff_count
table_modified_lem_example =
    table_modified_lem (some old_table) (some new_table) options
      (finish (compare_parts options old_table new_table))
      (unfold compare_tables if_both_named in refl)
