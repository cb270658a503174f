-- ===== src/Compare/Constraints/Removed.antt =====
-- Which constraints `compare_constraints` reports as removed.
use schema_compare_c.Base.{
  ℕ, ◌+◌, ◌≡◌, refl, ap, sym, ◌∙◌, Bool-cases, Bool, true, false, not, ◌&&◌, List, [], ◌∷◌, Option,
  none, some, arith, inl, inr, Option-cases, to_nat,
}
use schema_compare_c.Text.{CString}
use schema_compare_c.Ddl.Tables.{CreateTableStmt}
use schema_compare_c.Diff.{TableDiff}
use schema_compare_c.Compare.Options.{CompareOptions}
use schema_compare_c.Compare.Columns.{append_diff, table_elements}
use schema_compare_c.Compare.Constraints.Infos.{ConstraintInfo, constraint_infos, key_columns}
use schema_compare_c.Compare.Constraints.{
  Marked, Search, columns_match_table, find_all_inline, match_composite, report_removed,
  report_added, match_target, visit_target_constraint, mark_all_at, visit_source_constraint,
  find_added_constraints, find_removed_constraints, unmatched, compare_infos, compare_constraints,
}
use schema_compare_c.Compare.Constraints.Marks.{marked, available_count-marked, targets-find_added}

unfoldable pub has_columns : Option (List CString) → Bool
has_columns (some []) = false
has_columns _ = true

-- A constraint that the first loop left without a partner, and that is not a key of no column.
unfoldable pub is_left : Marked → Bool
is_left (c, matched) = not matched && has_columns (key_columns c)

unfoldable pub left_count : List Marked → ℕ
left_count [] = 0
left_count (m ∷ ms) = to_nat (is_left m) + left_count ms

-- The first loop of a comparison of two lists of constraints.
abbrev pub first_loop :
    List ConstraintInfo → List ConstraintInfo → TableDiff → Option CompareOptions → Search
first_loop sources targets result opts = find_added_constraints opts targets (record {
  result = result;
  last_added = false;
  last_removed = false;
  sources = unmatched sources;
  targets = [];
})

module _ (opts : Option CompareOptions) where
  columns_match_table-marked :
      (kind : ℕ) (names : List CString) (cs : List ConstraintInfo)
      → has_columns (some names) ≡ true
      → columns_match_table opts kind (marked cs) names ≡ none
  unfolding columns_match_table has_columns
  columns_match_table-marked kind [] cs h = ground arith
  columns_match_table-marked kind (name ∷ names) cs h =
      rw (available_count-marked kind cs, columns_match_table) (ground arith)

  -- Among targets that are all marked, a key finds no inline constraints.
  match_composite-marked :
      (c : ConstraintInfo) (cs : List ConstraintInfo)
      → has_columns (key_columns c) ≡ true
      → match_composite opts c (marked cs) ≡ none
  unfolding match_composite
  match_composite-marked c cs h = elim (Option-cases (key_columns c)) [
    | inl e ↦ rw (e, match_composite) refl
    | inr (names, e) ↦
        rw
          (
            e,
            match_composite,
            columns_match_table-marked c.constraint_type names cs (ap has_columns (sym e) ∙ h),
          )
          refl
  ]

  match_composite-no_columns :
      (c : ConstraintInfo) (cs : List ConstraintInfo) (o : Option (List CString))
      → key_columns c ≡ o
      → has_columns o ≡ false
      → match_composite opts c (marked cs) ≡ some (marked cs)
  unfolding match_composite has_columns columns_match_table find_all_inline mark_all_at
  match_composite-no_columns c cs (some []) e h =
      rw (e, match_composite, available_count-marked c.constraint_type cs, columns_match_table) refl
  match_composite-no_columns c cs (some (_ ∷ _)) e h = ground (arith, h)
  match_composite-no_columns c cs none e h = ground (arith, h)

  visit_source_count :
      (m : Marked) (cs : List ConstraintInfo) (s : Search)
      → s.targets ≡ marked cs
      → ((visit_source_constraint opts s m).result.constraint_remove_count
          ≡ s.result.constraint_remove_count + to_nat (is_left m))
        × ((visit_source_constraint opts s m).targets ≡ marked cs)
  unfolding visit_source_constraint is_left
  visit_source_count (c, true) cs s e = (omega arith, e)
  visit_source_count (c, false) cs s e = elim (Bool-cases (has_columns (key_columns c))) [
    | inl t ↦
        rw
          (
            t,
            is_left,
            ap (match_composite opts c) e ∙ match_composite-marked c cs t,
            visit_source_constraint,
          )
          (unfold report_removed append_diff in refl, e)
    | inr f ↦
        rw
          (
            f,
            is_left,
            ap (match_composite opts c) e ∙ match_composite-no_columns c cs _ refl f,
            visit_source_constraint,
          )
          (omega arith, refl)
  ]

  find_removed_count :
      (ms : List Marked) (cs : List ConstraintInfo) (s : Search)
      → s.targets ≡ marked cs
      → (find_removed_constraints opts ms s).result.constraint_remove_count
        ≡ s.result.constraint_remove_count + left_count ms
  unfolding find_removed_constraints left_count
  find_removed_count [] cs s e = omega arith
  find_removed_count (m ∷ ms) cs s e =
      let here = visit_source_count m cs s e in
      omega (arith, here.0, find_removed_count ms cs (visit_source_constraint opts s m) here.1)

  -- The first loop does not touch the count of removed constraints.
  remove_count-find_added :
      (cs : List ConstraintInfo) (s : Search)
      → (find_added_constraints opts cs s).result.constraint_remove_count
        ≡ s.result.constraint_remove_count
  unfolding find_added_constraints visit_target_constraint
  remove_count-find_added [] s = refl
  remove_count-find_added (c ∷ cs) s =
      remove_count-find_added cs (visit_target_constraint opts s c)
      ∙ visited (match_target opts c s.sources) refl
    where
      visited :
          (o : Option (List Marked))
          → match_target opts c s.sources ≡ o
          → (visit_target_constraint opts s c).result.constraint_remove_count
            ≡ s.result.constraint_remove_count
      visited none e = rw (e, visit_target_constraint) (unfold report_added append_diff in refl)
      visited (some _) e = rw (e, visit_target_constraint) refl

loops_remove_count :
    (sources targets : List ConstraintInfo) (result : TableDiff) (opts : Option CompareOptions)
    → (find_removed_constraints opts
        (first_loop sources targets result opts).sources
        (first_loop sources targets result opts)).result.constraint_remove_count
      ≡ result.constraint_remove_count + left_count (first_loop sources targets result opts).sources
unfolding marked
loops_remove_count sources targets result opts =
    let s = first_loop sources targets result opts in
    find_removed_count opts s.sources targets s (targets-find_added opts targets [] _ refl)
    ∙ ap (λ n. n + left_count s.sources) (remove_count-find_added opts targets _)

compare_infos_remove_count :
    (sources targets : List ConstraintInfo) (result : TableDiff) (opts : Option CompareOptions)
    → (compare_infos sources targets result opts).constraint_remove_count
      ≡ result.constraint_remove_count + left_count (first_loop sources targets result opts).sources
unfolding compare_infos unmatched find_added_constraints left_count
compare_infos_remove_count [] [] result opts = omega arith
compare_infos_remove_count (c ∷ cs) targets result opts =
    loops_remove_count (c ∷ cs) targets result opts
compare_infos_remove_count [] (c ∷ cs) result opts = loops_remove_count [] (c ∷ cs) result opts

-- The constraints that a comparison counts as removed are, besides keys of no column, exactly those
-- of the source that the first loop left unmatched: the second loop's search for inline constraints
-- of the target that make up a key of the source never rescues one.
pub removed_constraints_exact :
    (source target : CreateTableStmt) (result : TableDiff) (opts : Option CompareOptions)
    → (compare_constraints source target result opts).constraint_remove_count
      ≡ result.constraint_remove_count
        + left_count
            (first_loop
              (constraint_infos (table_elements source))
              (constraint_infos (table_elements target))
              result
              opts).sources
unfolding compare_constraints
removed_constraints_exact source target result opts =
    compare_infos_remove_count (constraint_infos (table_elements source))
      (constraint_infos (table_elements target)) result opts
