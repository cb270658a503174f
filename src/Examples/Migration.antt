-- ===== src/Examples/Migration.antt =====
-- Migration scripts at concrete inputs.
use schema_compare_c.Base.{
  ◌*◌, ◌^◌, ◌<◌, ◌≡◌, refl, arith, true, false, List, [], ◌∷◌, ◌++◌, Option, none, some, length,
}
use schema_compare_c.Text.{Bytes, codes}
use schema_compare_c.Text.Ctype.{to_lower}
use schema_compare_c.Text.Strings.{same}
use schema_compare_c.Ddl.Enums.{no_action, cascade, simple}
use schema_compare_c.Ddl.Constraints.{ColumnConstraint, ColumnConstraintBody}
use schema_compare_c.Ddl.Tables.{column, CreateTableStmt}
use schema_compare_c.Diff.{
  TableDiff, SchemaDiff, schema_diff_create, table_diff_create, column_diff_create,
}
use schema_compare_c.Compare.Tables.All.{compare_all_tables}
use schema_compare_c.Sql.Options.{SqlGenOptions}
use schema_compare_c.Sql.Calls.{Argument, text}
use schema_compare_c.Sql.Calls.Calm.{drops, any_drops}
use schema_compare_c.Sql.Quote.Plain.{is_plain}
use schema_compare_c.Sql.Calls.Written.{all_written, written, quoted, or_empty}
use schema_compare_c.Sql.Constraints.{
  generate_column_constraint, append_constraint_name, column_constraint_body,
  generate_references_clause, references_clause, reference_column, on_delete_clause,
  on_update_clause, action_text,
}
use schema_compare_c.Sql.Tables.{
  generate_create_table_sql_internal, generate_foreign_key_constraints, generate_drop_table_sql,
  create_if_named, create_named, create_body, foreign_keys_if_regular, foreign_keys_of,
  element_keys, column_keys, column_key, create_elements, create_element, column_constraints,
  is_references, is_foreign_key_element, separator, inherits_text, with_clause, tablespace_clause,
  table_modifier,
}
use schema_compare_c.Sql.Tables.ForeignKeys.{
  KeepsSome, without_foreign_keys, elements_without, element_without,
  create_table-without_foreign_keys,
}
use schema_compare_c.Sql.Migration.{
  generate_table_migration_sql, migration_script, migration_header, generate_migration_sql,
  for_each, ◌then_do◌, script_if, only, destructive, drop_removed, create_added, alter_modified,
  add_foreign_keys,
}
use schema_compare_c.Sql.Migration.Totals.{total, any, table_statements, destroys}
use schema_compare_c.Sql.Migration.Counts.{generate_table_migration_sql_lem}
use schema_compare_c.Compare.Tables.All.Self.{contents}
use schema_compare_c.Sql.Migration.Outcome.{
  generate_migration_sql_lem, empty_script, migration-compare_all_tables_self,
}
use schema_compare_c.Examples.Tables.{no_flags, mandatory, typed, table_of, options}
use schema_compare_c.Examples.Constraints.{tables, tables-DistinctKeys, tables-AllDistinct}

abbrev quiet : SqlGenOptions
quiet = record {
  use_transactions = false;
  use_if_exists = true;
  add_comments = false;
  add_warnings = false;
  generate_rollback = false;
  safe_mode = true;
  schema_name = none;
}

-- A `vsnprintf` that leaves the format as it is.
abbrev copies : Bytes → List Argument → Option Bytes
copies f arguments = some f

-- A table that is dropped, and one whose column gets another type.
abbrev dropped : TableDiff
dropped = record (table_diff_create (some (codes "old"))) { table_removed = true }

abbrev retyped : TableDiff
retyped = record (table_diff_create (some (codes "t"))) {
  table_modified = true;
  columns_modified =
      record (column_diff_create (some (codes "id"))) {
        type_changed = true;
        new_type = some (codes "bigint");
      }
      ∷ [];
}

abbrev diff_of : List TableDiff → SchemaDiff
diff_of diffs = record (schema_diff_create none) { table_diffs = diffs }

generate_table_migration_sql_lem_example :
    ((generate_table_migration_sql (diff_of (dropped ∷ retyped ∷ [])) quiet).stmt_count
      ≡ total table_statements (dropped ∷ retyped ∷ []))
    × ((generate_table_migration_sql (diff_of (dropped ∷ retyped ∷ [])) quiet).has_destructive
        ≡ any destroys (dropped ∷ retyped ∷ []))
generate_table_migration_sql_lem_example =
    generate_table_migration_sql_lem (diff_of (dropped ∷ retyped ∷ [])) quiet

-- A script that drops a table is not free of such calls, and neither is a DROP behind a comment.
dropped_drops : any_drops (migration_script (diff_of (dropped ∷ [])) quiet).calls ≡ true
unfolding migration_script generate_table_migration_sql for_each ◌then_do◌ script_if only
    destructive drop_removed create_added alter_modified add_foreign_keys table_diff_create
    migration_header schema_diff_create generate_drop_table_sql any_drops drops
dropped_drops = refl

hidden_drops : any_drops (text "-- CREATE TABLE\n" ∷ text "-- t\ndrop column c" ∷ []) ≡ true
unfolding any_drops drops
hidden_drops = refl

-- DROP TABLE IF EXISTS old CASCADE;
dropped_text :
    all_written copies (migration_script (diff_of (dropped ∷ [])) quiet).calls
    ≡ codes "DROP TABLE IF EXISTS old CASCADE;\n\n"
unfolding migration_script generate_table_migration_sql for_each ◌then_do◌ script_if only
    destructive drop_removed create_added alter_modified add_foreign_keys table_diff_create
    migration_header schema_diff_create generate_drop_table_sql all_written written quoted is_plain
    to_lower same
dropped_text = refl

short_script :
    2 * length (all_written copies (migration_script (diff_of (dropped ∷ [])) quiet).calls) < 2 ^ 63
short_script = rw dropped_text (omega arith)

generate_migration_sql_lem_example :
    generate_migration_sql copies (λ _. true) (diff_of (dropped ∷ [])) quiet ≡ record {
      forward_sql =
          some (all_written copies (migration_script (diff_of (dropped ∷ [])) quiet).calls);
      rollback_sql = none;
      statement_count = (migration_script (diff_of (dropped ∷ [])) quiet).stmt_count;
      has_destructive_changes = (migration_script (diff_of (dropped ∷ [])) quiet).has_destructive;
    }
generate_migration_sql_lem_example =
    generate_migration_sql_lem copies (λ _. true) (λ _. refl) (diff_of (dropped ∷ [])) quiet
      short_script

migration-compare_all_tables_self_example :
    migration_script
      (compare_all_tables (some tables) (some tables) (schema_diff_create none) options)
      quiet
    ≡ record {
      calls = empty_script (schema_diff_create none) quiet;
      stmt_count = 0;
      has_destructive = false;
    }
migration-compare_all_tables_self_example =
    migration-compare_all_tables_self (some tables) none options quiet
      (unfold contents in tables-DistinctKeys) (unfold contents in tables-AllDistinct)

-- owner integer REFERENCES person ON DELETE CASCADE
abbrev to_person : ColumnConstraint
to_person = record {
  constraint_name = none;
  constraint = ColumnConstraintBody.references (record {
    reftable = some (codes "person");
    refcolumn = none;
    match_type = simple;
    has_match_type = false;
    on_delete = cascade;
    has_on_delete = true;
    on_update = no_action;
    has_on_update = false;
  });
  flags = no_flags;
}

abbrev pet : CreateTableStmt
pet = table_of (column (typed (codes "owner") (codes "integer") (mandatory ∷ to_person ∷ [])) ∷ [])

pet-KeepsSome : KeepsSome pet.table_def
unfolding elements_without is_foreign_key_element
pet-KeepsSome = (
  element_without (column (typed (codes "owner") (codes "integer") (mandatory ∷ to_person ∷ []))),
  [],
  refl,
)

create_table-without_foreign_keys_example :
    (generate_create_table_sql_internal pet quiet true
      ≡ generate_create_table_sql_internal (without_foreign_keys pet) quiet false)
    × (generate_foreign_key_constraints (without_foreign_keys pet) quiet ≡ [])
create_table-without_foreign_keys_example =
    create_table-without_foreign_keys pet quiet pet-KeepsSome

-- The foreign key follows the table.
pet_text :
    all_written copies (
      generate_create_table_sql_internal pet quiet true
      ++ generate_foreign_key_constraints pet quiet)
    ≡ codes
        "CREATE TABLE t (\n    owner integer NOT NULL\n);\nALTER TABLE t ADD FOREIGN KEY (owner) REFERENCES person ON DELETE CASCADE;\n"
unfolding generate_create_table_sql_internal create_if_named create_named create_body
    create_elements create_element separator is_foreign_key_element column_constraints is_references
    table_modifier generate_column_constraint append_constraint_name column_constraint_body
    inherits_text with_clause tablespace_clause generate_foreign_key_constraints
    foreign_keys_if_regular foreign_keys_of element_keys column_keys column_key
    generate_references_clause references_clause reference_column on_delete_clause on_update_clause
    action_text all_written written quoted or_empty is_plain to_lower same
pet_text = refl
