-- ===== src/Compare/Constraints/Advance.antt =====
-- How the counts in `compare_constraints` go with its list of differences.
use schema_compare_c.Base.{
  ◌≡◌, refl, true, false, inl, inr, List, [], ◌∷◌, Option, none, some, arith,
}
use schema_compare_c.Ddl.Tables.{CreateTableStmt}
use schema_compare_c.Diff.{TableDiff}
use schema_compare_c.Compare.Options.{CompareOptions}
use schema_compare_c.Compare.Columns.{append_diff, table_elements}
use schema_compare_c.Compare.Columns.Advance.{constraint_changes, Advance, Advance-trans}
use schema_compare_c.Compare.Constraints.Infos.{ConstraintInfo, constraint_infos}
use schema_compare_c.Compare.Constraints.{
  Marked, Search, report_added, report_removed, match_target, match_composite,
  visit_target_constraint, find_added_constraints, visit_source_constraint,
  find_removed_constraints, compare_infos, compare_constraints,
}

-- Both the changes of constraints and the entries stay or grow.
abbrev pub ConstraintsAdvance : TableDiff → TableDiff → Type 0
ConstraintsAdvance r r' =
    Advance (constraint_changes r) r.diff_count (constraint_changes r') r'.diff_count

module _ (opts : Option CompareOptions) where
  visit_target-ConstraintsAdvance :
      (s : Search) (c : ConstraintInfo)
      → ConstraintsAdvance s.result (visit_target_constraint opts s c).result
  unfolding visit_target_constraint report_added append_diff
  visit_target-ConstraintsAdvance s c = visited (match_target opts c s.sources) refl
    where
      visited :
          (o : Option (List Marked))
          → match_target opts c s.sources ≡ o
          → ConstraintsAdvance s.result (visit_target_constraint opts s c).result
      visited none e = rw (e, visit_target_constraint) (inr (omega arith, omega arith))
      visited (some m) e = rw (e, visit_target_constraint) (inl (refl, refl))

  visit_source-ConstraintsAdvance :
      (s : Search) (m : Marked)
      → ConstraintsAdvance s.result (visit_source_constraint opts s m).result
  unfolding visit_source_constraint report_removed append_diff
  visit_source-ConstraintsAdvance s (c, true) = inl (refl, refl)
  visit_source-ConstraintsAdvance s (c, false) = visited (match_composite opts c s.targets) refl
    where
      visited :
          (o : Option (List Marked))
          → match_composite opts c s.targets ≡ o
          → ConstraintsAdvance s.result (visit_source_constraint opts s (c, false)).result
      visited none e = rw (e, visit_source_constraint) (inr (omega arith, omega arith))
      visited (some m) e = rw (e, visit_source_constraint) (inl (refl, refl))

  find_added-ConstraintsAdvance :
      (cs : List ConstraintInfo) (s : Search)
      → ConstraintsAdvance s.result (find_added_constraints opts cs s).result
  unfolding find_added_constraints
  find_added-ConstraintsAdvance [] s = inl (refl, refl)
  find_added-ConstraintsAdvance (c ∷ cs) s =
      Advance-trans (visit_target-ConstraintsAdvance s c)
        (find_added-ConstraintsAdvance cs (visit_target_constraint opts s c))

  find_removed-ConstraintsAdvance :
      (ms : List Marked) (s : Search)
      → ConstraintsAdvance s.result (find_removed_constraints opts ms s).result
  unfolding find_removed_constraints
  find_removed-ConstraintsAdvance [] s = inl (refl, refl)
  find_removed-ConstraintsAdvance (m ∷ ms) s =
      Advance-trans (visit_source-ConstraintsAdvance s m)
        (find_removed-ConstraintsAdvance ms (visit_source_constraint opts s m))

compare_infos-ConstraintsAdvance :
    (sources targets : List ConstraintInfo) (result : TableDiff) (opts : Option CompareOptions)
    → ConstraintsAdvance result (compare_infos sources targets result opts)
unfolding compare_infos
compare_infos-ConstraintsAdvance [] [] result opts = inl (refl, refl)
compare_infos-ConstraintsAdvance [] (t ∷ targets) result opts =
    Advance-trans (find_added-ConstraintsAdvance opts (t ∷ targets) _)
      (find_removed-ConstraintsAdvance opts _ _)
compare_infos-ConstraintsAdvance (s ∷ sources) targets result opts =
    Advance-trans (find_added-ConstraintsAdvance opts targets _)
      (find_removed-ConstraintsAdvance opts _ _)

pub compare_constraints-ConstraintsAdvance :
    (source target : CreateTableStmt) (result : TableDiff) (opts : Option CompareOptions)
    → ConstraintsAdvance result (compare_constraints source target result opts)
unfolding compare_constraints
compare_constraints-ConstraintsAdvance source target result opts =
    compare_infos-ConstraintsAdvance (constraint_infos (table_elements source))
      (constraint_infos (table_elements target)) result opts
