-- ===== src/Sql/Migration/Counts.antt =====
-- The number of statements of a migration script, and its mark of destructive changes.
use schema_compare_c.Base.{
  ◌+◌, ◌≡◌, refl, Bool, true, false, not, ◌||◌, List, [], ◌∷◌, Option, none, some, arith,
  if◌then◌else◌,
}
use schema_compare_c.Text.{CString}
use schema_compare_c.Diff.{ColumnDiff, ConstraintDiff, TableDiff, SchemaDiff}
use schema_compare_c.Ddl.Tables.{CreateTableStmt}
use schema_compare_c.Sql.Options.{SqlGenOptions}
use schema_compare_c.Sql.Columns.{
  generate_alter_column_type_sql, generate_alter_column_nullable_sql,
  generate_alter_column_default_sql,
}
use schema_compare_c.Sql.Migration.{
  for_each, statement, only, destructive, ◌then_do◌, script_if, drop_removed, create_target,
  create_added, modify_column_script, drop_column_script, add_column_script, drop_constraint_script,
  add_constraint_script, drop_if_named, modify_constraint_script, alter_modified,
  target_foreign_keys, add_foreign_keys, generate_table_migration_sql,
}
use schema_compare_c.Sql.Migration.Totals.{
  one_if, one_if_some, total, any, column_statements, constraint_statements, alter_statements,
  table_statements, destroys, count-for_each, total_one, script_if_count,
}
use schema_compare_c.Sql.Migration.Marks.{passes_destroy}

module _ (opts : SqlGenOptions) where
  modify_column_count :
      (td : TableDiff) (cd : ColumnDiff)
      → (modify_column_script opts td cd).stmt_count ≡ column_statements cd
  unfolding modify_column_script for_each ◌then_do◌ script_if statement only destructive
  modify_column_count td cd = omega (
    arith,
    script_if_count cd.type_changed
        (statement (generate_alter_column_type_sql td.table_name cd opts)) refl,
    script_if_count cd.default_changed
        (statement (generate_alter_column_default_sql td.table_name cd opts)) refl,
    script_if_count cd.nullable_changed
        (statement (generate_alter_column_nullable_sql td.table_name cd opts)) refl,
  )

  modify_constraint_count :
      (td : TableDiff) (cd : ConstraintDiff)
      → (modify_constraint_script opts td cd).stmt_count ≡ constraint_statements cd
  unfolding modify_constraint_script drop_if_named add_constraint_script for_each ◌then_do◌
      script_if statement only destructive
  modify_constraint_count td cd = by_name cd.constraint_name
    where
      by_name :
          (name : CString)
          → (drop_if_named opts td name).stmt_count + (add_constraint_script opts td cd).stmt_count
            ≡ one_if_some name + 1
      by_name none = refl
      by_name (some name) = refl

  -- What a table that stays adds.
  alter_count :
      (td : TableDiff)
      → (alter_modified opts td).stmt_count
        ≡ (if not (td.table_added || td.table_removed) then alter_statements td else 0)
  unfolding alter_modified alter_statements drop_column_script add_column_script
      drop_constraint_script add_constraint_script for_each ◌then_do◌ script_if statement only
      destructive
  alter_count td = ground (
    arith,
    count-for_each (drop_column_script opts td) (λ _. 1) td.columns_removed (λ _. refl),
    count-for_each (add_column_script opts td) (λ _. 1) td.columns_added (λ _. refl),
    count-for_each (modify_column_script opts td) column_statements td.columns_modified
        (modify_column_count td),
    count-for_each (drop_constraint_script opts td) (λ _. 1) td.constraints_removed (λ _. refl),
    count-for_each (add_constraint_script opts td) (λ _. 1) td.constraints_added (λ _. refl),
    count-for_each (modify_constraint_script opts td) constraint_statements td.constraints_modified
        (modify_constraint_count td),
    total_one td.columns_removed,
    total_one td.columns_added,
    total_one td.constraints_removed,
    total_one td.constraints_added,
  )

  removed_count : (td : TableDiff) → (drop_removed opts td).stmt_count ≡ one_if td.table_removed
  unfolding drop_removed for_each ◌then_do◌ script_if statement only destructive
  removed_count td = script_if_count td.table_removed _ refl

  created_count :
      (td : TableDiff)
      → (create_added opts td).stmt_count
        ≡ (if td.table_added then one_if_some td.target_table else 0)
  unfolding create_added create_target for_each ◌then_do◌ script_if statement only destructive
  created_count td = by_case td.table_added td.target_table
    where
      by_case :
          (added : Bool) (stmt : Option CreateTableStmt)
          → (script_if added (create_target opts td stmt)).stmt_count
            ≡ (if added then one_if_some stmt else 0)
      by_case true none = refl
      by_case true (some stmt) = refl
      by_case false stmt = refl

  keys_count :
      (td : TableDiff)
      → (add_foreign_keys opts td).stmt_count
        ≡ (if td.table_added then one_if_some td.target_table else 0)
  unfolding add_foreign_keys target_foreign_keys for_each ◌then_do◌ script_if statement only
      destructive
  keys_count td = by_case td.table_added td.target_table
    where
      by_case :
          (added : Bool) (stmt : Option CreateTableStmt)
          → (script_if added (target_foreign_keys opts stmt)).stmt_count
            ≡ (if added then one_if_some stmt else 0)
      by_case true none = refl
      by_case true (some stmt) = refl
      by_case false stmt = refl

  passes_count :
      (tds : List TableDiff)
      → (for_each (drop_removed opts) tds).stmt_count
          + (for_each (create_added opts) tds).stmt_count
          + (for_each (alter_modified opts) tds).stmt_count
          + (for_each (add_foreign_keys opts) tds).stmt_count
        ≡ total table_statements tds
  unfolding table_statements for_each ◌then_do◌ script_if statement only destructive
  passes_count [] = omega arith
  passes_count (td ∷ rest) =
      ground (
        arith,
        passes_count rest,
        removed_count td,
        created_count td,
        alter_count td,
        keys_count td,
      )

-- The number of statements that a migration script counts is, over the tables, one for each that is
-- dropped, two for each that is created from its statement, and else one for each change of its
-- columns and constraints, where a constraint that is replaced counts once more if it has a name. It
-- is marked destructive exactly if a table is dropped, or a column or a constraint of a table that
-- stays.
pub generate_table_migration_sql_lem :
    (diff : SchemaDiff) (opts : SqlGenOptions)
    → ((generate_table_migration_sql diff opts).stmt_count
        ≡ total table_statements diff.table_diffs)
      × ((generate_table_migration_sql diff opts).has_destructive ≡ any destroys diff.table_diffs)
unfolding generate_table_migration_sql for_each ◌then_do◌ script_if statement only destructive
generate_table_migration_sql_lem diff opts =
    (omega (arith, passes_count opts diff.table_diffs), passes_destroy opts diff.table_diffs)
