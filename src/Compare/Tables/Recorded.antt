-- ===== src/Compare/Tables/Recorded.antt =====
-- What the result of `compare_tables` records.
use schema_compare_c.Base.{
  ◌≡◌, subst, refl, Bool, true, false, Option, none, some, arith, if◌then◌else◌,
}
use mathlib.Core.Option.{some_inj}
use schema_compare_c.Text.{CString}
use schema_compare_c.Ddl.Tables.{CreateTableStmt}
use schema_compare_c.Diff.{TableDiff, table_diff_create}
use schema_compare_c.Diff.Labels.{diff_determine_severity}
use schema_compare_c.Compare.Options.{CompareOptions}
use schema_compare_c.Compare.Columns.Recorded.{
  IsRecorded, append_diff-IsRecorded, compare_columns-IsRecorded,
}
use schema_compare_c.Compare.Constraints.Recorded.{compare_constraints-IsRecorded}
use schema_compare_c.Compare.Tables.{
  Comparison, compare_table_types, compare_table_tablespaces, compare_table_columns,
  compare_table_constraints, begin_tables, compare_parts, finish, if_both_named, compare_tables,
}

if_both-IsRecorded :
    (b : Bool) (c d : Comparison)
    → IsRecorded c.result
    → IsRecorded d.result
    → IsRecorded (if b then c else d).result
if_both-IsRecorded true c d h k = h
if_both-IsRecorded false c d h k = k

module _ (opts : Option CompareOptions) (source target : CreateTableStmt) where
  types-IsRecorded :
      (c : Comparison)
      → IsRecorded c.result
      → IsRecorded (compare_table_types source target c).result
  unfolding compare_table_types diff_determine_severity
  types-IsRecorded c h =
      if_both-IsRecorded _ _ _ h (
        append_diff-IsRecorded _ _ _ _ _ _ refl (record { proper = h.proper; counted = h.counted }))

  tablespaces-IsRecorded :
      (c : Comparison)
      → IsRecorded c.result
      → IsRecorded (compare_table_tablespaces opts source target c).result
  unfolding compare_table_tablespaces diff_determine_severity
  tablespaces-IsRecorded c h =
      if_both-IsRecorded _ _ _
        (append_diff-IsRecorded _ _ _ _ _ _ refl
          (record { proper = h.proper; counted = h.counted }))
        h

  columns-IsRecorded :
      (c : Comparison)
      → IsRecorded c.result
      → IsRecorded (compare_table_columns opts source target c).result
  unfolding compare_table_columns
  columns-IsRecorded c h =
      if_both-IsRecorded _ _ _ (compare_columns-IsRecorded source target c.result opts h) h

  constraints-IsRecorded :
      (c : Comparison)
      → IsRecorded c.result
      → IsRecorded (compare_table_constraints opts source target c).result
  unfolding compare_table_constraints
  constraints-IsRecorded c h =
      if_both-IsRecorded _ _ _ (compare_constraints-IsRecorded source target c.result opts h) h

  pub compare_parts-IsRecorded : IsRecorded (compare_parts opts source target).result
  unfolding compare_parts begin_tables table_diff_create
  compare_parts-IsRecorded = constraints-IsRecorded _ (
      columns-IsRecorded _ (
        tablespaces-IsRecorded _
          (types-IsRecorded (begin_tables source target) (record { proper = tt; counted = refl }))))

if_both_named-IsRecorded :
    (a b : CString) (c : Comparison) (result : TableDiff)
    → IsRecorded c.result
    → if_both_named a b (finish c) ≡ some result
    → IsRecorded result
unfolding if_both_named finish
if_both_named-IsRecorded (some _) (some _) c result h e =
    subst IsRecorded (some_inj.0 e) (record { proper = h.proper; counted = h.counted })
if_both_named-IsRecorded none b c result h e = ground arith
if_both_named-IsRecorded (some _) none c result h e = ground arith

-- Whatever two tables `compare_tables` compares, the list of differences in its result is in order:
-- every entry names the table and has the severity that its kind determines, and the count is the
-- number of entries.
pub compare_tables-IsRecorded :
    (source target : Option CreateTableStmt) (opts : Option CompareOptions) (result : TableDiff)
    → compare_tables source target opts ≡ some result
    → IsRecorded result
unfolding compare_tables
compare_tables-IsRecorded (some source) (some target) opts result e =
    if_both_named-IsRecorded source.table_name target.table_name (compare_parts opts source target)
      result (compare_parts-IsRecorded opts source target) e
compare_tables-IsRecorded none target opts result e = ground arith
compare_tables-IsRecorded (some source) none opts result e = ground arith
