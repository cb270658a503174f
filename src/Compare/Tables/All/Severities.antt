-- ===== src/Compare/Tables/All/Severities.antt =====
-- The counts of severities that `compare_all_tables` makes.
use schema_compare_c.Base.{
  ℕ, ◌+◌, ◌≡◌, refl, sym, ap, ap₂, ◌∙◌, Bool, true, false, inl, inr, Option-cases, List, [], ◌∷◌,
  Option, none, some, arith, if◌then◌else◌,
}
use schema_compare_c.Text.{CString}
use schema_compare_c.HashTable.{HashTable, hash_table_get}
use schema_compare_c.Ddl.Tables.{CreateTableStmt}
use schema_compare_c.Diff.{
  DiffSeverity, info, warning, critical, Diff, TableDiff, SchemaDiff, schema_diff_create,
}
use schema_compare_c.Compare.Options.{CompareOptions, should_compare_table}
use schema_compare_c.Compare.Tables.{compare_tables}
use schema_compare_c.Compare.Tables.All.{
  Tables, named_table, table_index, link_table, add_table, remove_table, modify_table,
  visit_target_table, visit_source_table, find_added_tables, find_removed_tables, count_severity,
  count_severities, count_tables, compare_arrays, compare_all_tables,
}

-- The three counts of a schema difference.
pub record Counts : Type 0 where
  pub criticals : ℕ
  pub warnings : ℕ
  pub infos : ℕ

unfoldable pub counts_of : SchemaDiff → Counts
counts_of r = record {
  criticals = r.critical_count;
  warnings = r.warning_count;
  infos = r.info_count;
}

abbrev pub no_counts : Counts
no_counts = record { criticals = 0; warnings = 0; infos = 0 }

-- One more of a severity.
unfoldable pub tick : DiffSeverity → Counts → Counts
tick critical c = record c { criticals = c.criticals + 1 }
tick warning c = record c { warnings = c.warnings + 1 }
tick info c = record c { infos = c.infos + 1 }

-- How many entries of each severity a list has, besides the counts given.
unfoldable pub counted_entries : List Diff → Counts → Counts
counted_entries [] c = c
counted_entries (d ∷ ds) c = counted_entries ds (tick d.severity c)

unfoldable pub counted_tables : List TableDiff → Counts → Counts
counted_tables [] c = c
counted_tables (t ∷ ts) c = counted_tables ts (counted_entries t.diffs c)

-- A step of the count, with the list of tables left as it is.
count_severity_step :
    (d : Diff) (r : SchemaDiff)
    → (counts_of (count_severity r d) ≡ tick d.severity (counts_of r))
      × ((count_severity r d).table_diffs ≡ r.table_diffs)
unfolding counts_of count_severity tick
count_severity_step d r = (ground arith, ground arith)

count_severities_steps :
    (ds : List Diff) (r : SchemaDiff)
    → (counts_of (count_severities ds r) ≡ counted_entries ds (counts_of r))
      × ((count_severities ds r).table_diffs ≡ r.table_diffs)
unfolding count_severities counted_entries
count_severities_steps [] r = (refl, refl)
count_severities_steps (d ∷ ds) r =
    let here = count_severity_step d r in
    let rest = count_severities_steps ds (count_severity r d) in
    (rest.0 ∙ ap (counted_entries ds) here.0, rest.1 ∙ here.1)

count_tables_steps :
    (ts : List TableDiff) (r : SchemaDiff)
    → (counts_of (count_tables ts r) ≡ counted_tables ts (counts_of r))
      × ((count_tables ts r).table_diffs ≡ r.table_diffs)
unfolding count_tables counted_tables
count_tables_steps [] r = (refl, refl)
count_tables_steps (t ∷ ts) r =
    let here = count_severities_steps t.diffs r in
    let rest = count_tables_steps ts (count_severities t.diffs r) in
    (rest.0 ∙ ap (counted_tables ts) here.0, rest.1 ∙ here.1)

-- The loops before leave the counts.
modify_table_counts :
    (r : SchemaDiff) (o : Option TableDiff) → counts_of (modify_table r o) ≡ counts_of r
unfolding counts_of modify_table link_table
modify_table_counts r none = refl
modify_table_counts r (some d) = ground arith

visit_target_counts :
    (opts : Option CompareOptions) (r : SchemaDiff) (stmt : CreateTableStmt)
    (o : Option CreateTableStmt)
    → counts_of (visit_target_table opts r stmt o) ≡ counts_of r
unfolding visit_target_table
visit_target_counts opts r stmt none = unfold add_table link_table counts_of in refl
visit_target_counts opts r stmt (some old) =
    modify_table_counts r (compare_tables (some old) (some stmt) opts)

visit_source_counts :
    (r : SchemaDiff) (stmt : CreateTableStmt) (o : Option CreateTableStmt)
    → counts_of (visit_source_table r stmt o) ≡ counts_of r
unfolding visit_source_table
visit_source_counts r stmt none = unfold remove_table link_table counts_of in refl
visit_source_counts r stmt (some other) = refl

if_counts :
    (b : Bool) (x y : SchemaDiff)
    → counts_of x ≡ counts_of y
    → counts_of (if b then x else y) ≡ counts_of y
if_counts true x y h = h
if_counts false x y h = refl

find_added_counts :
    (ht : HashTable CreateTableStmt) (opts : Option CompareOptions) (ts : Tables) (r : SchemaDiff)
    → counts_of (find_added_tables ht opts ts r) ≡ counts_of r
unfolding find_added_tables
find_added_counts ht opts [] r = refl
find_added_counts ht opts (t ∷ next) r = elim (Option-cases (named_table t)) [
  | inl e ↦ rw (e, find_added_tables) (find_added_counts ht opts next r)
  | inr ((stmt, name), e) ↦
      rw (e, find_added_tables)
        (find_added_counts ht opts next _
          ∙ if_counts (should_compare_table name opts) _ r
              (visit_target_counts opts r stmt (hash_table_get ht (some name))))
]

find_removed_counts :
    (ht : HashTable CreateTableStmt) (opts : Option CompareOptions) (ts : Tables) (r : SchemaDiff)
    → counts_of (find_removed_tables ht opts ts r) ≡ counts_of r
unfolding find_removed_tables
find_removed_counts ht opts [] r = refl
find_removed_counts ht opts (t ∷ next) r = elim (Option-cases (named_table t)) [
  | inl e ↦ rw (e, find_removed_tables) (find_removed_counts ht opts next r)
  | inr ((stmt, name), e) ↦
      rw (e, find_removed_tables)
        (find_removed_counts ht opts next _
          ∙ if_counts (should_compare_table name opts) _ r
              (visit_source_counts r stmt (hash_table_get ht (some name))))
]

compare_arrays_counts :
    (source target : Tables) (name : CString) (opts : Option CompareOptions)
    → counts_of (compare_arrays source target (schema_diff_create name) opts)
      ≡ counted_tables
          (compare_arrays source target (schema_diff_create name) opts).table_diffs
          no_counts
unfolding compare_arrays schema_diff_create counts_of
compare_arrays_counts source target name opts =
    let fresh = schema_diff_create name in
    let first = find_added_tables (table_index source) opts target fresh in
    let compared = find_removed_tables (table_index target) opts source first in
    let steps = count_tables_steps compared.table_diffs compared in
    steps.0
    ∙ ap₂ counted_tables (sym steps.1) (
        find_removed_counts (table_index target) opts source first
        ∙ find_added_counts (table_index source) opts target fresh)

-- In a comparison into a fresh schema difference the counts of severities are the numbers of
-- entries of each severity in the table differences that the result lists, whether or not the arrays
-- are NULL.
pub severity_counts_lem :
    (source target : Option Tables) (name : CString) (opts : Option CompareOptions)
    → counts_of (compare_all_tables source target (schema_diff_create name) opts)
      ≡ counted_tables
          (compare_all_tables source target (schema_diff_create name) opts).table_diffs
          no_counts
unfolding compare_all_tables schema_diff_create counts_of counted_tables
severity_counts_lem none target name opts = refl
severity_counts_lem (some source) none name opts = refl
severity_counts_lem (some source) (some target) name opts =
    compare_arrays_counts source target name opts
