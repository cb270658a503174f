-- ===== src/Compare/Constraints/Recorded.antt =====
-- The list of differences that `compare_constraints` keeps, and its counts.
use schema_compare_c.Base.{◌≡◌, refl, true, false, List, [], ◌∷◌, Option, none, some}
use schema_compare_c.Ddl.Tables.{CreateTableStmt}
use schema_compare_c.Diff.{TableDiff}
use schema_compare_c.Diff.Labels.{diff_determine_severity}
use schema_compare_c.Compare.Options.{CompareOptions}
use schema_compare_c.Compare.Columns.{table_elements}
use schema_compare_c.Compare.Columns.Recorded.{IsRecorded, append_diff-IsRecorded}
use schema_compare_c.Compare.Constraints.Infos.{ConstraintInfo, constraint_infos}
use schema_compare_c.Compare.Constraints.{
  Marked, Search, report_added, report_removed, match_target, match_composite,
  visit_target_constraint, find_added_constraints, visit_source_constraint,
  find_removed_constraints, compare_infos, compare_constraints,
}

module _ (opts : Option CompareOptions) where
  visit_target-IsRecorded :
      (s : Search) (c : ConstraintInfo)
      → IsRecorded s.result
      → IsRecorded (visit_target_constraint opts s c).result
  unfolding visit_target_constraint
  visit_target-IsRecorded s c h = visited (match_target opts c s.sources) refl
    where
      visited :
          (o : Option (List Marked))
          → match_target opts c s.sources ≡ o
          → IsRecorded (visit_target_constraint opts s c).result
      visited none e =
          rw (e, visit_target_constraint)
            (unfold report_added diff_determine_severity in
              append_diff-IsRecorded _ _ _ _ _ _ refl
                (record { proper = h.proper; counted = h.counted }))
      visited (some m) e = rw (e, visit_target_constraint) h

  visit_source-IsRecorded :
      (s : Search) (m : Marked)
      → IsRecorded s.result
      → IsRecorded (visit_source_constraint opts s m).result
  unfolding visit_source_constraint
  visit_source-IsRecorded s (c, true) h = h
  visit_source-IsRecorded s (c, false) h = visited (match_composite opts c s.targets) refl
    where
      visited :
          (o : Option (List Marked))
          → match_composite opts c s.targets ≡ o
          → IsRecorded (visit_source_constraint opts s (c, false)).result
      visited none e =
          rw (e, visit_source_constraint)
            (unfold report_removed diff_determine_severity in
              append_diff-IsRecorded _ _ _ _ _ _ refl
                (record { proper = h.proper; counted = h.counted }))
      visited (some m) e = rw (e, visit_source_constraint) h

  find_added-IsRecorded :
      (cs : List ConstraintInfo) (s : Search)
      → IsRecorded s.result
      → IsRecorded (find_added_constraints opts cs s).result
  unfolding find_added_constraints
  find_added-IsRecorded [] s h = h
  find_added-IsRecorded (c ∷ cs) s h =
      find_added-IsRecorded cs (visit_target_constraint opts s c) (visit_target-IsRecorded s c h)

  find_removed-IsRecorded :
      (ms : List Marked) (s : Search)
      → IsRecorded s.result
      → IsRecorded (find_removed_constraints opts ms s).result
  unfolding find_removed_constraints
  find_removed-IsRecorded [] s h = h
  find_removed-IsRecorded (m ∷ ms) s h =
      find_removed-IsRecorded ms (visit_source_constraint opts s m) (visit_source-IsRecorded s m h)

compare_infos-IsRecorded :
    (sources targets : List ConstraintInfo) (result : TableDiff) (opts : Option CompareOptions)
    → IsRecorded result
    → IsRecorded (compare_infos sources targets result opts)
unfolding compare_infos
compare_infos-IsRecorded [] [] result opts h = h
compare_infos-IsRecorded [] (t ∷ targets) result opts h =
    find_removed-IsRecorded opts _ _ (find_added-IsRecorded opts (t ∷ targets) _ h)
compare_infos-IsRecorded (s ∷ sources) targets result opts h =
    find_removed-IsRecorded opts _ _ (find_added-IsRecorded opts targets _ h)

-- A comparison of constraints keeps the list of differences in order: every entry names the table
-- and has the severity that its kind determines, and the count is the number of entries.
pub compare_constraints-IsRecorded :
    (source target : CreateTableStmt) (result : TableDiff) (opts : Option CompareOptions)
    → IsRecorded result
    → IsRecorded (compare_constraints source target result opts)
unfolding compare_constraints
compare_constraints-IsRecorded source target result opts h =
    compare_infos-IsRecorded (constraint_infos (table_elements source))
      (constraint_infos (table_elements target)) result opts h
