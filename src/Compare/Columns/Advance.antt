-- ===== src/Compare/Columns/Advance.antt =====
-- How the counts of columns in `compare_columns` go with its list of differences.
use schema_compare_c.Base.{
  ℕ, ◌+◌, ◌<◌, ◌≡◌, ◌⊎◌, refl, ◌∙◌, Bool, true, false, inl, inr, Option-cases, List, [], ◌∷◌,
  Option, none, some, arith, to_nat,
}
use schema_compare_c.Text.{CString}
use schema_compare_c.HashTable.{HashTable, hash_table_get}
use schema_compare_c.Ddl.Tables.{ColumnDef, TableElement, CreateTableStmt}
use schema_compare_c.Diff.{DiffType, DiffSeverity, ColumnDiff, TableDiff}
use schema_compare_c.Compare.Options.{CompareOptions}
use schema_compare_c.Compare.Column.{compare_column_details}
use schema_compare_c.Compare.Column.Exact.{any_change, details-some}
use schema_compare_c.Compare.Columns.{
  Progress, append_diff, append_diff_if, diffs_for_change, add_column, modify_column, remove_column,
  visit_target, visit_source, named_column, find_added, find_removed, table_elements, column_index,
  begin, compare_columns,
}

-- How many column and how many constraint changes are counted.
abbrev pub column_changes : TableDiff → ℕ
column_changes r = r.column_add_count + r.column_remove_count + r.column_modify_count

abbrev pub constraint_changes : TableDiff → ℕ
constraint_changes r =
    r.constraint_add_count + r.constraint_remove_count + r.constraint_modify_count

-- From one pair of numbers to another: both stay, or both grow.
abbrev pub Advance : ℕ → ℕ → ℕ → ℕ → Type 0
Advance c d c' d' = ((c' ≡ c) × (d' ≡ d)) ⊎ ((c < c') × (d < d'))

pub Advance-trans :
    {c d c' d' c'' d'' : ℕ} → Advance c d c' d' → Advance c' d' c'' d'' → Advance c d c'' d''
Advance-trans (inl h) (inl k) = inl (omega (arith, h.0, k.0), omega (arith, h.1, k.1))
Advance-trans (inl h) (inr k) = inr (omega (arith, h.0, k.0), omega (arith, h.1, k.1))
Advance-trans (inr h) (inl k) = inr (omega (arith, h.0, k.0), omega (arith, h.1, k.1))
Advance-trans (inr h) (inr k) = inr (omega (arith, h.0, k.0), omega (arith, h.1, k.1))

-- Both the changes of columns and the entries stay or grow, and the changes of constraints stay.
pub record ColumnsAdvance (r r' : TableDiff) : Type 0 where
  pub advance : Advance (column_changes r) r.diff_count (column_changes r') r'.diff_count
  pub constraints : constraint_changes r' ≡ constraint_changes r

ColumnsAdvance-refl : (r : TableDiff) → ColumnsAdvance r r
ColumnsAdvance-refl r = record { advance = inl (refl, refl); constraints = refl }

ColumnsAdvance-trans :
    (r s t : TableDiff) → ColumnsAdvance r s → ColumnsAdvance s t → ColumnsAdvance r t
ColumnsAdvance-trans r s t h k = record {
  advance = Advance-trans h.advance k.advance;
  constraints = k.constraints ∙ h.constraints;
}

-- The counts after a conditional entry.
diff_count-append_diff_if :
    (b : Bool) (ty : DiffType) (sev : DiffSeverity) (e o n : CString) (r : TableDiff)
    → (append_diff_if b ty sev e o n r).diff_count ≡ r.diff_count + to_nat b
unfolding append_diff_if append_diff
diff_count-append_diff_if true ty sev e o n r = refl
diff_count-append_diff_if false ty sev e o n r = omega arith

column_changes-append_diff_if :
    (b : Bool) (ty : DiffType) (sev : DiffSeverity) (e o n : CString) (r : TableDiff)
    → column_changes (append_diff_if b ty sev e o n r) ≡ column_changes r
unfolding append_diff_if append_diff
column_changes-append_diff_if true ty sev e o n r = refl
column_changes-append_diff_if false ty sev e o n r = refl

constraint_changes-append_diff_if :
    (b : Bool) (ty : DiffType) (sev : DiffSeverity) (e o n : CString) (r : TableDiff)
    → constraint_changes (append_diff_if b ty sev e o n r) ≡ constraint_changes r
unfolding append_diff_if append_diff
constraint_changes-append_diff_if true ty sev e o n r = refl
constraint_changes-append_diff_if false ty sev e o n r = refl

diff_count-diffs_for_change :
    (r : TableDiff) (cd : ColumnDiff)
    → any_change cd ≡ true
    → r.diff_count < (diffs_for_change r cd).diff_count
unfolding diffs_for_change any_change
diff_count-diffs_for_change r cd h = simp diff_count-append_diff_if (ground (arith, h))

column_changes-diffs_for_change :
    (r : TableDiff) (cd : ColumnDiff) → column_changes (diffs_for_change r cd) ≡ column_changes r
unfolding diffs_for_change
column_changes-diffs_for_change r cd = simp column_changes-append_diff_if

constraint_changes-diffs_for_change :
    (r : TableDiff) (cd : ColumnDiff)
    → constraint_changes (diffs_for_change r cd) ≡ constraint_changes r
unfolding diffs_for_change
constraint_changes-diffs_for_change r cd = simp constraint_changes-append_diff_if

modify_column-ColumnsAdvance :
    (p : Progress) (cd : ColumnDiff)
    → any_change cd ≡ true
    → ColumnsAdvance p.result (modify_column p (some cd)).result
unfolding modify_column
modify_column-ColumnsAdvance p cd h = record {
  advance =
      inr (omega (arith, column_changes-diffs_for_change _ cd), diff_count-diffs_for_change _ cd h);
  constraints = constraint_changes-diffs_for_change _ cd;
}

visit_target-ColumnsAdvance :
    (opts : Option CompareOptions) (p : Progress) (col : ColumnDef) (old : Option ColumnDef)
    → ColumnsAdvance p.result (visit_target opts p col old).result
unfolding visit_target
visit_target-ColumnsAdvance opts p col none =
    unfold add_column append_diff in
    record { advance = inr (omega arith, omega arith); constraints = refl }
visit_target-ColumnsAdvance opts p col (some old) =
    elim (Option-cases (compare_column_details old col opts)) [
      | inl e ↦ rw e (unfold modify_column in ColumnsAdvance-refl p.result)
      | inr (cd, e) ↦ rw e (modify_column-ColumnsAdvance p cd (details-some old col opts cd e).1)
    ]

visit_source-ColumnsAdvance :
    (p : Progress) (col : ColumnDef) (new : Option ColumnDef)
    → ColumnsAdvance p.result (visit_source p col new).result
unfolding visit_source
visit_source-ColumnsAdvance p col none =
    unfold remove_column append_diff in
    record { advance = inr (omega arith, omega arith); constraints = refl }
visit_source-ColumnsAdvance p col (some new) = ColumnsAdvance-refl p.result

find_added-ColumnsAdvance :
    (ht : HashTable ColumnDef) (opts : Option CompareOptions) (elems : List TableElement)
    (p : Progress)
    → ColumnsAdvance p.result (find_added ht opts elems p).result
unfolding find_added
find_added-ColumnsAdvance ht opts [] p = ColumnsAdvance-refl p.result
find_added-ColumnsAdvance ht opts (elem ∷ next) p = elim (Option-cases (named_column elem)) [
  | inl e ↦ rw (e, find_added) (find_added-ColumnsAdvance ht opts next p)
  | inr ((col, name), e) ↦
      rw (e, find_added)
        (ColumnsAdvance-trans p.result _ _
          (visit_target-ColumnsAdvance opts p col (hash_table_get ht (some name)))
          (find_added-ColumnsAdvance ht opts next _))
]

find_removed-ColumnsAdvance :
    (ht : HashTable ColumnDef) (elems : List TableElement) (p : Progress)
    → ColumnsAdvance p.result (find_removed ht elems p).result
unfolding find_removed
find_removed-ColumnsAdvance ht [] p = ColumnsAdvance-refl p.result
find_removed-ColumnsAdvance ht (elem ∷ next) p = elim (Option-cases (named_column elem)) [
  | inl e ↦ rw (e, find_removed) (find_removed-ColumnsAdvance ht next p)
  | inr ((col, name), e) ↦
      rw (e, find_removed)
        (ColumnsAdvance-trans p.result _ _
          (visit_source-ColumnsAdvance p col (hash_table_get ht (some name)))
          (find_removed-ColumnsAdvance ht next _))
]

pub compare_columns-ColumnsAdvance :
    (source target : CreateTableStmt) (result : TableDiff) (opts : Option CompareOptions)
    → ColumnsAdvance result (compare_columns source target result opts)
unfolding compare_columns
compare_columns-ColumnsAdvance source target result opts =
    ColumnsAdvance-trans result _ _
      (find_added-ColumnsAdvance (column_index source) opts (table_elements target) (begin result))
      (find_removed-ColumnsAdvance (column_index target) (table_elements source) _)
