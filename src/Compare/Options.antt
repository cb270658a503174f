-- ===== src/Compare/Options.antt =====
-- The options of a comparison, and the tests of src/compare/compare.c that only read them: which
-- tables take part, and when two names are one. A NULL `opts` is `none`.
pub mod Filter
use schema_compare_c.Base.{
  Bool, true, false, List, [], ◌∷◌, Option, none, some, is_some, ltb, if◌then◌else◌, length,
}
use schema_compare_c.Text.{Bytes, CString}
use schema_compare_c.Text.Strings.{same, same_ignore_case, before}

pub record CompareOptions : Type 0 where
  pub compare_tablespaces : Bool
  pub compare_storage_params : Bool
  pub compare_constraints : Bool
  pub compare_partitioning : Bool
  pub compare_inheritance : Bool
  pub case_sensitive : Bool
  pub normalize_types : Bool
  pub ignore_constraint_names : Bool
  pub ignore_whitespace : Bool
  pub exclude_tables : List Bytes
  pub include_tables : List Bytes

unfoldable pub compare_options_default : CompareOptions
compare_options_default = record {
  compare_tablespaces = false;
  compare_storage_params = true;
  compare_constraints = true;
  compare_partitioning = true;
  compare_inheritance = true;
  case_sensitive = false;
  normalize_types = true;
  ignore_constraint_names = true;
  ignore_whitespace = true;
  exclude_tables = [];
  include_tables = [];
}

-- Some pattern occurs anywhere in the name, as strstr finds it; the comment in the code speaks of a
-- prefix.
unfoldable pub matches_any : Bytes → List Bytes → Bool
matches_any table_name [] = false
matches_any table_name (p ∷ patterns) =
    if is_some (before p table_name) then true else matches_any table_name patterns

unfoldable pub should_compare_table : Bytes → Option CompareOptions → Bool
unfolding matches_any
should_compare_table table_name none = true
should_compare_table table_name (some opts) =
    if ltb 0 (length opts.include_tables)
    then (if matches_any table_name opts.include_tables
        then (if matches_any table_name opts.exclude_tables then false else true)
        else false)
    else (if matches_any table_name opts.exclude_tables then false else true)

-- Two pointers to one string compare like two equal strings, so the test of the pointers matters
-- only for NULL.
unfoldable pub names_equal : CString → CString → Option CompareOptions → Bool
names_equal none none opts = true
names_equal none (some _) opts = false
names_equal (some _) none opts = false
names_equal (some name1) (some name2) none = same name1 name2
names_equal (some name1) (some name2) (some opts) =
    if opts.case_sensitive then same name1 name2 else same_ignore_case name1 name2
