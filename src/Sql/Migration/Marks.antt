-- ===== src/Sql/Migration/Marks.antt =====
-- The mark of destructive changes of generate_table_migration_sql.
use schema_compare_c.Base.{
  ◌≡◌, refl, sym, ap, ap₂, ◌∙◌, Bool, true, false, not, ◌&&◌, ◌||◌, List, Option, none, some,
}
use schema_compare_c.Text.{CString}
use schema_compare_c.Diff.{ColumnDiff, ConstraintDiff, TableDiff}
use schema_compare_c.Ddl.Tables.{CreateTableStmt}
use schema_compare_c.Sql.Options.{SqlGenOptions}
use schema_compare_c.Sql.Tables.{generate_drop_table_sql}
use schema_compare_c.Sql.Migration.{
  for_each, statement, only, destructive, ◌then_do◌, script_if, drop_removed, create_target,
  create_added, modify_column_script, drop_column_script, add_column_script, drop_constraint_script,
  add_constraint_script, drop_if_named, modify_constraint_script, alter_modified,
  target_foreign_keys, add_foreign_keys,
}
use schema_compare_c.Sql.Migration.Totals.{
  any, is_empty, destroys, any-for_each, any_ext, any-or, script_if_flag, statement_unmarked,
  or_false, marked, unmarked,
}

module _ (opts : SqlGenOptions) where
  alter_destroys :
      (td : TableDiff)
      → (alter_modified opts td).has_destructive ≡ (
          not (td.table_added || td.table_removed)
          && (not (is_empty td.columns_removed) || not (is_empty td.constraints_removed)))
  unfolding alter_modified modify_column_script modify_constraint_script drop_if_named
      drop_column_script add_column_script drop_constraint_script add_constraint_script for_each
      ◌then_do◌ script_if statement only destructive
  alter_destroys td =
      script_if_flag (not (td.table_added || td.table_removed)) _
      ∙ ap (λ b. not (td.table_added || td.table_removed) && b)
          (ap₂ ◌||◌ (marked (drop_column_script opts td) td.columns_removed (λ _. refl)) (
              ap₂ ◌||◌ (unmarked (add_column_script opts td) td.columns_added (λ _. refl)) (
                ap₂ ◌||◌
                  (unmarked (modify_column_script opts td) td.columns_modified column_unmarked)
                  (ap₂ ◌||◌
                    (marked (drop_constraint_script opts td) td.constraints_removed (λ _. refl))
                    (ap₂ ◌||◌
                      (unmarked (add_constraint_script opts td) td.constraints_added (λ _. refl))
                      (unmarked (modify_constraint_script opts td) td.constraints_modified
                        constraint_unmarked)))))
            ∙ ap (λ b. not (is_empty td.columns_removed) || b) (or_false _))
    where
      column_unmarked :
          (cd : ColumnDiff) → (modify_column_script opts td cd).has_destructive ≡ false
      column_unmarked cd = ap₂ ◌||◌ (statement_unmarked cd.type_changed _) (
          ap₂ ◌||◌ (statement_unmarked cd.default_changed _)
            (statement_unmarked cd.nullable_changed _))

      name_unmarked : (name : CString) → (drop_if_named opts td name).has_destructive ≡ false
      name_unmarked none = refl
      name_unmarked (some name) = refl

      constraint_unmarked :
          (cd : ConstraintDiff) → (modify_constraint_script opts td cd).has_destructive ≡ false
      constraint_unmarked cd = ap (λ b. b || false) (name_unmarked cd.constraint_name)

  pub passes_destroy :
      (tds : List TableDiff)
      → ((for_each (drop_removed opts) tds).has_destructive
          || ((for_each (create_added opts) tds).has_destructive
              || ((for_each (alter_modified opts) tds).has_destructive
                  || (for_each (add_foreign_keys opts) tds).has_destructive)))
        ≡ any destroys tds
  unfolding destroys drop_removed create_added create_target add_foreign_keys target_foreign_keys
      for_each ◌then_do◌ script_if statement only destructive
  passes_destroy tds =
      ap₂ ◌||◌ (any-for_each (drop_removed opts) (λ td. td.table_removed) tds removed_flag) (
        ap₂ ◌||◌ (unmarked (create_added opts) tds created_unmarked) (
          ap₂ ◌||◌ (any-for_each (alter_modified opts) loses tds alter_destroys)
            (unmarked (add_foreign_keys opts) tds keys_unmarked)))
      ∙ ap (λ b. any (λ td. td.table_removed) tds || b) (or_false (any loses tds))
      ∙ sym (any-or (λ td. td.table_removed) loses tds)
      ∙ any_ext (λ td. td.table_removed || loses td) destroys tds
          (λ td. regroup td.table_removed td.table_added _)
    where
      loses : TableDiff → Bool
      loses td =
          not (td.table_added || td.table_removed)
          && (not (is_empty td.columns_removed) || not (is_empty td.constraints_removed))

      removed_flag : (td : TableDiff) → (drop_removed opts td).has_destructive ≡ td.table_removed
      removed_flag td = by_case td.table_removed
        where
          by_case :
              (b : Bool)
              → (script_if b
                  (destructive (generate_drop_table_sql td.table_name opts))).has_destructive
                ≡ b
          by_case true = refl
          by_case false = refl

      created_unmarked : (td : TableDiff) → (create_added opts td).has_destructive ≡ false
      created_unmarked td = by_case td.table_added td.target_table
        where
          by_case :
              (added : Bool) (stmt : Option CreateTableStmt)
              → (script_if added (create_target opts td stmt)).has_destructive ≡ false
          by_case true none = refl
          by_case true (some stmt) = refl
          by_case false stmt = refl

      keys_unmarked : (td : TableDiff) → (add_foreign_keys opts td).has_destructive ≡ false
      keys_unmarked td = by_case td.table_added td.target_table
        where
          by_case :
              (added : Bool) (stmt : Option CreateTableStmt)
              → (script_if added (target_foreign_keys opts stmt)).has_destructive ≡ false
          by_case true none = refl
          by_case true (some stmt) = refl
          by_case false stmt = refl

      regroup : (r a x : Bool) → (r || (not (a || r) && x)) ≡ (r || (not a && x))
      regroup true a x = refl
      regroup false true x = refl
      regroup false false x = refl
