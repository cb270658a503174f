-- ===== src/Sql/Migration.antt =====
-- src/output/sql_generator.c, and generate_table_migration_sql of src/output/sql_generator_table.c:
-- the migration script that brings the source of a comparison to its target.
pub mod Totals
pub mod Marks
pub mod Counts
pub mod Guarded
pub mod Outcome
pub mod Compared
use schema_compare_c.Base.{
  ℕ, ◌+◌, Bool, true, false, not, ◌&&◌, ◌||◌, List, [], ◌∷◌, ◌++◌, Option, none, some,
  if◌then◌else◌,
}
use schema_compare_c.Text.{Bytes, CString, codes}
use schema_compare_c.Diff.{ColumnDiff, ConstraintDiff, TableDiff, SchemaDiff}
use schema_compare_c.Ddl.Tables.{CreateTableStmt}
use schema_compare_c.StringUtils.Builder.{sb_create, sb_to_string}
use schema_compare_c.Sql.Calls.{
  Argument, string, int, Call, append, identifier, format, text, calls_if, append_or, make_all,
}
use schema_compare_c.Sql.Options.{SqlGenOptions, SqlMigration}
use schema_compare_c.Sql.Constraints.{generate_drop_constraint_sql, generate_add_constraint_sql}
use schema_compare_c.Sql.Columns.{
  generate_add_column_sql, generate_drop_column_sql, generate_alter_column_type_sql,
  generate_alter_column_nullable_sql, generate_alter_column_default_sql,
}
use schema_compare_c.Sql.Tables.{
  generate_create_table_sql_internal, generate_foreign_key_constraints, generate_drop_table_sql,
}

-- What a piece of the generation does: its calls, what it adds to `stmt_count`, and whether it sets
-- `*has_destructive`.
pub record Script : Type 0 where
  pub calls : List Call
  pub stmt_count : ℕ
  pub has_destructive : Bool

abbrev pub nothing : Script
nothing = record { calls = []; stmt_count = 0; has_destructive = false }

unfoldable pub only : List Call → Script
only calls = record { calls = calls; stmt_count = 0; has_destructive = false }

-- A statement with the empty line after it.
unfoldable pub statement : List Call → Script
statement calls = record {
  calls = calls ++ text "\n" ∷ [];
  stmt_count = 1;
  has_destructive = false;
}

unfoldable pub destructive : List Call → Script
destructive calls = record {
  calls = calls ++ text "\n" ∷ [];
  stmt_count = 1;
  has_destructive = true;
}

infixr 64 ◌then_do◌
unfoldable pub ◌then_do◌ : Script → Script → Script
a then_do b = record {
  calls = a.calls ++ b.calls;
  stmt_count = a.stmt_count + b.stmt_count;
  has_destructive = a.has_destructive || b.has_destructive;
}

unfoldable pub script_if : Bool → Script → Script
script_if true s = s
script_if false s = nothing

-- A loop over a list.
unfoldable pub for_each {ℓ} : {A : Type ℓ} → (A → Script) → List A → Script
for_each body [] = nothing
for_each body (a ∷ rest) = body a then_do for_each body rest

unfoldable pub drop_removed : SqlGenOptions → TableDiff → Script
drop_removed opts td =
    script_if td.table_removed (destructive (generate_drop_table_sql td.table_name opts))

unfoldable pub create_target : SqlGenOptions → TableDiff → Option CreateTableStmt → Script
create_target opts td (some stmt) = statement (generate_create_table_sql_internal stmt opts true)
create_target opts td none = only (
    calls_if opts.add_comments (
      format (codes "-- TODO: CREATE TABLE %s\n") (string td.table_name ∷ [])
      ∷ text "-- (Table definition not available in diff)\n\n"
      ∷ []))

unfoldable pub create_added : SqlGenOptions → TableDiff → Script
create_added opts td = script_if td.table_added (create_target opts td td.target_table)

unfoldable pub backfill_warning : SqlGenOptions → TableDiff → ColumnDiff → List Call
backfill_warning opts td cd =
    calls_if
      (cd.nullable_changed && (cd.old_nullable && (not cd.new_nullable && opts.add_warnings)))
      (text "-- WARNING: Setting NOT NULL on nullable column\n"
        ∷ text "-- You may need to backfill NULL values first:\n"
        ∷ text "-- UPDATE "
        ∷ identifier td.table_name
        ∷ text " SET "
        ∷ identifier cd.column_name
        ∷ text " = "
        ∷ append_or cd.new_default "<default_value>"
        ∷ text " WHERE "
        ∷ identifier cd.column_name
        ∷ text " IS NULL;\n"
        ∷ [])

-- Type, default and nullability, in that order.
unfoldable pub modify_column_script : SqlGenOptions → TableDiff → ColumnDiff → Script
modify_column_script opts td cd =
    script_if cd.type_changed (statement (generate_alter_column_type_sql td.table_name cd opts))
    then_do script_if cd.default_changed
        (statement (generate_alter_column_default_sql td.table_name cd opts))
    then_do only (backfill_warning opts td cd)
    then_do script_if cd.nullable_changed
        (statement (generate_alter_column_nullable_sql td.table_name cd opts))

unfoldable pub drop_column_script : SqlGenOptions → TableDiff → ColumnDiff → Script
drop_column_script opts td cd =
    destructive (generate_drop_column_sql td.table_name cd.column_name opts)

unfoldable pub add_column_script : SqlGenOptions → TableDiff → ColumnDiff → Script
add_column_script opts td cd = statement (generate_add_column_sql td.table_name cd opts)

unfoldable pub drop_constraint_script : SqlGenOptions → TableDiff → ConstraintDiff → Script
drop_constraint_script opts td cd =
    destructive (generate_drop_constraint_sql td.table_name cd.constraint_name opts)

unfoldable pub add_constraint_script : SqlGenOptions → TableDiff → ConstraintDiff → Script
add_constraint_script opts td cd = statement (generate_add_constraint_sql td.table_name cd opts)

-- `if (cd->constraint_name)` before the DROP of a constraint that is replaced.
unfoldable pub drop_if_named : SqlGenOptions → TableDiff → CString → Script
drop_if_named opts td none = nothing
drop_if_named opts td (some name) =
    statement (generate_drop_constraint_sql td.table_name (some name) opts)

unfoldable pub modify_constraint_script : SqlGenOptions → TableDiff → ConstraintDiff → Script
modify_constraint_script opts td cd =
    drop_if_named opts td cd.constraint_name then_do add_constraint_script opts td cd

unfoldable pub alter_modified : SqlGenOptions → TableDiff → Script
alter_modified opts td = script_if (not (td.table_added || td.table_removed)) (
    for_each (drop_column_script opts td) td.columns_removed
    then_do for_each (add_column_script opts td) td.columns_added
    then_do for_each (modify_column_script opts td) td.columns_modified
    then_do for_each (drop_constraint_script opts td) td.constraints_removed
    then_do for_each (add_constraint_script opts td) td.constraints_added
    then_do for_each (modify_constraint_script opts td) td.constraints_modified)

unfoldable pub target_foreign_keys : SqlGenOptions → Option CreateTableStmt → Script
target_foreign_keys opts none = nothing
target_foreign_keys opts (some stmt) = statement (generate_foreign_key_constraints stmt opts)

unfoldable pub add_foreign_keys : SqlGenOptions → TableDiff → Script
add_foreign_keys opts td = script_if td.table_added (target_foreign_keys opts td.target_table)

-- Four passes over the differences, with a comment before the second and the last.
unfoldable pub generate_table_migration_sql : SchemaDiff → SqlGenOptions → Script
generate_table_migration_sql diff opts =
    for_each (drop_removed opts) diff.table_diffs
    then_do only (
        calls_if opts.add_comments
          (text "-- Create new tables (foreign keys will be added after)\n\n" ∷ []))
    then_do for_each (create_added opts) diff.table_diffs
    then_do for_each (alter_modified opts) diff.table_diffs
    then_do only
        (calls_if opts.add_comments (text "-- Add foreign key constraints for new tables\n\n" ∷ []))
    then_do for_each (add_foreign_keys opts) diff.table_diffs

unfoldable pub migration_header : SchemaDiff → SqlGenOptions → List Call
migration_header diff opts = calls_if opts.add_comments (
    text "-- Schema Migration Script\n"
    ∷ text "-- Generated by schema-compare\n"
    ∷ text "--\n"
    ∷ format (codes "-- Tables added: %d, removed: %d, modified: %d\n")
        (int diff.tables_added ∷ int diff.tables_removed ∷ int diff.tables_modified ∷ [])
    ∷ text "\n"
    ∷ [])

-- The whole script between the creation of the string builder and its result.
unfoldable pub migration_script : SchemaDiff → SqlGenOptions → Script
migration_script diff opts =
    only (migration_header diff opts)
    then_do only (calls_if opts.use_transactions (text "BEGIN;\n\n" ∷ []))
    then_do generate_table_migration_sql diff opts
    then_do only (calls_if opts.use_transactions (text "COMMIT;\n" ∷ []))

module _ (vsnprintf : Bytes → List Argument → Option Bytes) (realloc_succeeds : ℕ → Bool) where
  -- For a difference and options that are not NULL.
  unfoldable pub generate_migration_sql : SchemaDiff → SqlGenOptions → SqlMigration
  generate_migration_sql diff opts =
      let script = migration_script diff opts in
      record {
        forward_sql = sb_to_string (make_all vsnprintf realloc_succeeds script.calls sb_create);
        rollback_sql = none;
        statement_count = script.stmt_count;
        has_destructive_changes = script.has_destructive;
      }
