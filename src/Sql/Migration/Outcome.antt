-- ===== src/Sql/Migration/Outcome.antt =====
-- What generate_migration_sql of src/output/sql_generator.c returns.
use schema_compare_c.Base.{
  ℕ, ◌*◌, ◌^◌, ◌<◌, ◌≡◌, refl, ap, ◌∙◌, Bool, true, false, List, [], ◌∷◌, ◌++◌, Option, none, some,
  arith, length,
}
use schema_compare_c.Text.{Bytes, CString}
use schema_compare_c.StringUtils.Builder.{sb_create, sb_to_string}
use schema_compare_c.StringUtils.Builder.Growth.{sb_create-IsSound}
use schema_compare_c.Diff.{SchemaDiff, schema_diff_create}
use schema_compare_c.HashTable.Populate.{DistinctKeys}
use schema_compare_c.Compare.Options.{CompareOptions}
use schema_compare_c.Compare.Tables.All.{Tables, named_table, compare_all_tables}
use schema_compare_c.Compare.Tables.All.Self.{AllDistinct, contents, compare_all_tables_self}
use schema_compare_c.Sql.Options.{SqlGenOptions}
use schema_compare_c.Sql.Calls.{Argument, Call, text, calls_if}
use schema_compare_c.Sql.Calls.Written.{all_written, make_all-Appended}
use schema_compare_c.Sql.Migration.{
  migration_header, migration_script, for_each, only, ◌then_do◌, generate_table_migration_sql,
  generate_migration_sql,
}

module _ (vsnprintf : Bytes → List Argument → Option Bytes) (realloc_succeeds : ℕ → Bool)
    (succeeds : (n : ℕ) → realloc_succeeds n ≡ true) where
  -- While `realloc` succeeds and the script has less than a quarter of the address space, the
  -- result of generate_migration_sql holds the texts of all calls of the script, one after the other,
  -- and the script's count and mark. An identifier in it stands as it is if it consists of ASCII
  -- letters, digits and underscores, begins with no digit and is none of 42 reserved words in either
  -- case; else it stands between double quotes, with its own double quotes doubled.
  pub generate_migration_sql_lem :
      (diff : SchemaDiff) (opts : SqlGenOptions)
      → 2 * length (all_written vsnprintf (migration_script diff opts).calls) < 2 ^ 63
      → generate_migration_sql vsnprintf realloc_succeeds diff opts ≡ record {
        forward_sql = some (all_written vsnprintf (migration_script diff opts).calls);
        rollback_sql = none;
        statement_count = (migration_script diff opts).stmt_count;
        has_destructive_changes = (migration_script diff opts).has_destructive;
      }
  unfolding generate_migration_sql sb_to_string sb_create
  generate_migration_sql_lem diff opts b =
      let script = migration_script diff opts in
      let made =
        make_all-Appended vsnprintf realloc_succeeds succeeds script.calls sb_create
          sb_create-IsSound (omega (arith, b)) in
      ap
        (λ sql. record {
          forward_sql = sql;
          rollback_sql = none;
          statement_count = script.stmt_count;
          has_destructive_changes = script.has_destructive;
        })
        (ap sb_to_string made.returned ∙ ap some made.holds)

-- For a difference without table differences a script has its header, the two comments and the
-- words of the transaction, as far as the options ask for them.
unfoldable pub empty_script : SchemaDiff → SqlGenOptions → List Call
empty_script diff opts =
    migration_header diff opts
    ++ (calls_if opts.use_transactions (text "BEGIN;\n\n" ∷ [])
        ++ (calls_if opts.add_comments (
              text "-- Create new tables (foreign keys will be added after)\n\n"
              ∷ text "-- Add foreign key constraints for new tables\n\n"
              ∷ [])
            ++ calls_if opts.use_transactions (text "COMMIT;\n" ∷ [])))

both_comments :
    (b : Bool) (x y : Call)
    → calls_if b (x ∷ []) ++ (calls_if b (y ∷ []) ++ []) ≡ calls_if b (x ∷ y ∷ [])
both_comments true x y = refl
both_comments false x y = refl

script_of_none :
    (name : CString) (opts : SqlGenOptions)
    → migration_script (schema_diff_create name) opts ≡ record {
      calls = empty_script (schema_diff_create name) opts;
      stmt_count = 0;
      has_destructive = false;
    }
unfolding migration_script generate_table_migration_sql empty_script for_each only ◌then_do◌
    schema_diff_create
script_of_none name opts =
    ap
      (λ comments. record {
        calls =
            migration_header (schema_diff_create name) opts
            ++ (calls_if opts.use_transactions (text "BEGIN;\n\n" ∷ [])
                ++ (comments ++ calls_if opts.use_transactions (text "COMMIT;\n" ∷ [])));
        stmt_count = 0;
        has_destructive = false;
      })
      (both_comments opts.add_comments _ _)

-- If the names of the tables are distinct, and in each table the names of the columns, then the
-- migration between the tables and themselves has no statement and nothing destructive, whatever the
-- options of the comparison and of the generation: its script is the header, the comments and the
-- words of the transaction, as far as the options ask for them. The same holds of an array that is
-- NULL.
pub migration-compare_all_tables_self :
    (tables : Option Tables) (name : CString) (opts : Option CompareOptions)
    (sql_opts : SqlGenOptions)
    → DistinctKeys named_table (contents tables)
    → AllDistinct (contents tables)
    → migration_script (compare_all_tables tables tables (schema_diff_create name) opts) sql_opts
      ≡ record {
        calls = empty_script (schema_diff_create name) sql_opts;
        stmt_count = 0;
        has_destructive = false;
      }
migration-compare_all_tables_self tables name opts sql_opts k d =
    rw (compare_all_tables_self tables name opts k d) (script_of_none name sql_opts)
