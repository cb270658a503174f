-- ===== src/Compare/Columns/Recorded.antt =====
-- The list of differences that `compare_columns` keeps beside the lists of columns.
use schema_compare_c.Base.{
  ◌≡◌, refl, true, false, inl, inr, Bool, Option-cases, List, [], ◌∷◌, ◌++◌, Option, none, some,
  arith, length, length-append,
}
use schema_compare_c.Text.{CString}
use schema_compare_c.HashTable.{HashTable, hash_table_get}
use schema_compare_c.Ddl.Tables.{ColumnDef, TableElement, CreateTableStmt}
use schema_compare_c.Diff.{DiffType, DiffSeverity, Diff, ColumnDiff, TableDiff}
use schema_compare_c.Diff.Labels.{diff_determine_severity}
use schema_compare_c.Compare.Options.{CompareOptions}
use schema_compare_c.Compare.Column.{compare_column_details}
use schema_compare_c.Compare.Columns.{
  Progress, append_diff, append_diff_if, diffs_for_change, modify_column, visit_target,
  visit_source, named_column, find_added, find_removed, table_elements, column_index, begin,
  compare_columns,
}

-- Every entry names the table and has the severity of its kind.
abbrev pub AllProper : CString → List Diff → Type 0
AllProper table_name [] = Unit
AllProper table_name (d ∷ ds) =
    (d.table_name ≡ table_name)
    × (d.severity ≡ diff_determine_severity d.diff_type)
    × AllProper table_name ds

-- The entries are proper, and counted.
pub record IsRecorded (r : TableDiff) : Type 0 where
  pub proper : AllProper r.table_name r.diffs
  pub counted : r.diff_count ≡ length r.diffs

AllProper-concat :
    (name : CString) (ds : List Diff) (d : Diff)
    → AllProper name ds
    → d.table_name ≡ name
    → d.severity ≡ diff_determine_severity d.diff_type
    → AllProper name (ds ++ d ∷ [])
AllProper-concat name [] d h n s = (n, s, tt)
AllProper-concat name (e ∷ ds) d h n s = (h.0, h.1, AllProper-concat name ds d h.2 n s)

pub append_diff-IsRecorded :
    (r : TableDiff) (ty : DiffType) (sev : DiffSeverity) (e o n : CString)
    → sev ≡ diff_determine_severity ty
    → IsRecorded r
    → IsRecorded (append_diff r ty sev e o n)
unfolding append_diff
append_diff-IsRecorded r ty sev e o n s h = record {
  proper = AllProper-concat r.table_name r.diffs _ h.proper refl s;
  counted = rw length-append (omega (arith, h.counted));
}

append_diff_if-IsRecorded :
    (b : Bool) (ty : DiffType) (sev : DiffSeverity) (e o n : CString) (r : TableDiff)
    → sev ≡ diff_determine_severity ty
    → IsRecorded r
    → IsRecorded (append_diff_if b ty sev e o n r)
unfolding append_diff_if
append_diff_if-IsRecorded true ty sev e o n r s h = append_diff-IsRecorded r ty sev e o n s h
append_diff_if-IsRecorded false ty sev e o n r s h = h

diffs_for_change-IsRecorded :
    (r : TableDiff) (cd : ColumnDiff) → IsRecorded r → IsRecorded (diffs_for_change r cd)
unfolding diffs_for_change diff_determine_severity
diffs_for_change-IsRecorded r cd h = append_diff_if-IsRecorded _ _ _ _ _ _ _ refl (
    append_diff_if-IsRecorded _ _ _ _ _ _ _ refl (
      append_diff_if-IsRecorded _ _ _ _ _ _ _ refl (
        append_diff_if-IsRecorded _ _ _ _ _ _ _ refl (
          append_diff_if-IsRecorded _ _ _ _ _ _ _ refl
            (append_diff_if-IsRecorded _ _ _ _ _ _ _ refl h)))))

visit_target-IsRecorded :
    (opts : Option CompareOptions) (p : Progress) (col : ColumnDef) (old : Option ColumnDef)
    → IsRecorded p.result
    → IsRecorded (visit_target opts p col old).result
unfolding visit_target diff_determine_severity
visit_target-IsRecorded opts p col none h =
    append_diff-IsRecorded _ _ _ _ _ _ refl (record { proper = h.proper; counted = h.counted })
visit_target-IsRecorded opts p col (some old) h = modified (compare_column_details old col opts)
  where
    modified : (o : Option ColumnDiff) → IsRecorded (modify_column p o).result
    modified none = h
    modified (some cd) =
        diffs_for_change-IsRecorded _ cd (record { proper = h.proper; counted = h.counted })

visit_source-IsRecorded :
    (p : Progress) (col : ColumnDef) (new : Option ColumnDef)
    → IsRecorded p.result
    → IsRecorded (visit_source p col new).result
unfolding visit_source diff_determine_severity
visit_source-IsRecorded p col none h =
    append_diff-IsRecorded _ _ _ _ _ _ refl (record { proper = h.proper; counted = h.counted })
visit_source-IsRecorded p col (some new) h = h

find_added-IsRecorded :
    (ht : HashTable ColumnDef) (opts : Option CompareOptions) (elems : List TableElement)
    (p : Progress)
    → IsRecorded p.result
    → IsRecorded (find_added ht opts elems p).result
unfolding find_added
find_added-IsRecorded ht opts [] p h = h
find_added-IsRecorded ht opts (elem ∷ next) p h = elim (Option-cases (named_column elem)) [
  | inl e ↦ rw (e, find_added) (find_added-IsRecorded ht opts next p h)
  | inr ((col, name), e) ↦
      rw (e, find_added)
        (find_added-IsRecorded ht opts next _
          (visit_target-IsRecorded opts p col (hash_table_get ht (some name)) h))
]

find_removed-IsRecorded :
    (ht : HashTable ColumnDef) (elems : List TableElement) (p : Progress)
    → IsRecorded p.result
    → IsRecorded (find_removed ht elems p).result
unfolding find_removed
find_removed-IsRecorded ht [] p h = h
find_removed-IsRecorded ht (elem ∷ next) p h = elim (Option-cases (named_column elem)) [
  | inl e ↦ rw (e, find_removed) (find_removed-IsRecorded ht next p h)
  | inr ((col, name), e) ↦
      rw (e, find_removed)
        (find_removed-IsRecorded ht next _
          (visit_source-IsRecorded p col (hash_table_get ht (some name)) h))
]

-- A comparison of columns keeps the list of differences in order: every entry names the table and
-- has the severity that its kind determines, and the count is the number of entries.
pub compare_columns-IsRecorded :
    (source target : CreateTableStmt) (result : TableDiff) (opts : Option CompareOptions)
    → IsRecorded result
    → IsRecorded (compare_columns source target result opts)
unfolding compare_columns
compare_columns-IsRecorded source target result opts h =
    find_removed-IsRecorded (column_index target) (table_elements source) _
      (find_added-IsRecorded (column_index source) opts (table_elements target) (begin result) h)
