-- ===== src/Sql/Options.antt =====
-- include/sql_generator.h: the options of the generation of SQL, and its result.
use schema_compare_c.Base.{ℕ, Bool, true, false, none}
use schema_compare_c.Text.{CString}

pub record SqlGenOptions : Type 0 where
  pub use_transactions : Bool
  pub use_if_exists : Bool
  pub add_comments : Bool
  pub add_warnings : Bool
  pub generate_rollback : Bool
  pub safe_mode : Bool
  pub schema_name : CString

unfoldable pub sql_gen_options_default : SqlGenOptions
sql_gen_options_default = record {
  use_transactions = true;
  use_if_exists = true;
  add_comments = true;
  add_warnings = true;
  generate_rollback = false;
  safe_mode = true;
  schema_name = none;
}

pub record SqlMigration : Type 0 where
  pub forward_sql : CString
  pub rollback_sql : CString
  pub statement_count : ℕ
  pub has_destructive_changes : Bool
