-- ===== src/Compare/Tables/All/Steps.antt =====
-- What the steps of `compare_all_tables` of src/compare/compare_table.c add to the summary.
use schema_compare_c.Base.{
  ◌+◌, ◌≡◌, refl, ap, ap₂, Bool, true, false, List, [], ◌∷◌, ◌++◌, Option, none, some, arith,
  length-append, if◌then◌else◌,
}
use schema_compare_c.Ddl.Tables.{CreateTableStmt}
use schema_compare_c.Diff.{Diff, TableDiff, SchemaDiff}
use schema_compare_c.Compare.Tables.All.{
  link_table, add_table, remove_table, modify_table, count_severity, count_severities, count_tables,
}
use schema_compare_c.Compare.Tables.All.Spec.{
  if_modified, added_table, removed_table, total_of, Summarises,
}

total_of-append : (ds es : List TableDiff) → total_of (ds ++ es) ≡ total_of ds + total_of es
unfolding total_of
total_of-append [] es = omega arith
total_of-append (d ∷ ds) es = omega (arith, total_of-append ds es)

of_some :
    (b : Bool) (d diff : TableDiff)
    → (if b then some d else none) ≡ some diff
    → (b ≡ true) × (d ≡ diff)
of_some b d diff e = ground arith

of_none : (b : Bool) (d : TableDiff) → (if b then some d else none) ≡ none → b ≡ false
of_none b d e = ground arith

if_true-Summarises :
    {a rm : List CreateTableStmt} {m ds : List TableDiff} (b : Bool) (x y : SchemaDiff)
    → b ≡ true
    → Summarises x a rm m ds
    → Summarises (if b then x else y) a rm m ds
if_true-Summarises true x y e h = h
if_true-Summarises false x y e h = ground arith

module _ (r : SchemaDiff) (a rm : List CreateTableStmt) (m ds : List TableDiff)
    (h : Summarises r a rm m ds) where
  pub add_table-Summarises :
      (stmt : CreateTableStmt)
      → Summarises (add_table r stmt) (a ++ stmt ∷ []) rm m (ds ++ added_table stmt ∷ [])
  unfolding add_table link_table added_table
  add_table-Summarises stmt = record {
    listed = rw h.listed refl;
    added_count = rw length-append (omega (arith, h.added_count));
    removed_count = h.removed_count;
    modified_count = h.modified_count;
    total_count = h.total_count;
  }

  pub remove_table-Summarises :
      (stmt : CreateTableStmt)
      → Summarises (remove_table r stmt) a (rm ++ stmt ∷ []) m (ds ++ removed_table stmt ∷ [])
  unfolding remove_table link_table removed_table
  remove_table-Summarises stmt = record {
    listed = rw h.listed refl;
    added_count = h.added_count;
    removed_count = rw length-append (omega (arith, h.removed_count));
    modified_count = h.modified_count;
    total_count = h.total_count;
  }

  -- A comparison without a modification leaves the summary.
  pub unmodified-Summarises :
      (o : Option TableDiff) → if_modified o ≡ none → Summarises (modify_table r o) a rm m ds
  unfolding modify_table if_modified
  unmodified-Summarises none e = h
  unmodified-Summarises (some d) e = rw (of_none d.table_modified d e, modify_table) h

  pub modify_table-Summarises :
      (o : Option TableDiff) (diff : TableDiff)
      → if_modified o ≡ some diff
      → Summarises (modify_table r o) a rm (m ++ diff ∷ []) (ds ++ diff ∷ [])
  unfolding modify_table link_table if_modified
  modify_table-Summarises none diff e = ground arith
  modify_table-Summarises (some d) diff e =
      let kept = of_some d.table_modified d diff e in
      if_true-Summarises d.table_modified _ r kept.0 (record {
        listed = ap₂ (λ xs (x : TableDiff). xs ++ x ∷ []) h.listed kept.1;
        added_count = h.added_count;
        removed_count = h.removed_count;
        modified_count = rw length-append (omega (arith, h.modified_count));
        total_count = rw total_of-append (
            unfold total_of in
            omega (arith, h.total_count, ap (λ (x : TableDiff). x.diff_count) kept.1));
      })

count_severity-Summarises :
    (d : Diff) (r : SchemaDiff) (a rm : List CreateTableStmt) (m tds : List TableDiff)
    → Summarises r a rm m tds
    → Summarises (count_severity r d) a rm m tds
unfolding count_severity
count_severity-Summarises d r a rm m tds h = record {
  listed = ground (arith, h.listed);
  added_count = ground (arith, h.added_count);
  removed_count = ground (arith, h.removed_count);
  modified_count = ground (arith, h.modified_count);
  total_count = ground (arith, h.total_count);
}

count_severities-Summarises :
    (ds : List Diff) (r : SchemaDiff) (a rm : List CreateTableStmt) (m tds : List TableDiff)
    → Summarises r a rm m tds
    → Summarises (count_severities ds r) a rm m tds
unfolding count_severities
count_severities-Summarises [] r a rm m tds h = h
count_severities-Summarises (d ∷ ds) r a rm m tds h =
    count_severities-Summarises ds (count_severity r d) a rm m tds
      (count_severity-Summarises d r a rm m tds h)

pub count_tables-Summarises :
    (ts : List TableDiff) (r : SchemaDiff) (a rm : List CreateTableStmt) (m tds : List TableDiff)
    → Summarises r a rm m tds
    → Summarises (count_tables ts r) a rm m tds
unfolding count_tables
count_tables-Summarises [] r a rm m tds h = h
count_tables-Summarises (t ∷ ts) r a rm m tds h =
    count_tables-Summarises ts _ a rm m tds (count_severities-Summarises t.diffs r a rm m tds h)
