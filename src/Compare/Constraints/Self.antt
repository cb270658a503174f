-- ===== src/Compare/Constraints/Self.antt =====
-- `compare_constraints` of one table with itself.
use schema_compare_c.Base.{
  ℕ, ◌≡◌, ◌==◌, ◌||◌, refl, sym, ap, ◌∙◌, true, false, inl, inr, Option-cases, List, [], ◌∷◌, ◌++◌,
  append_assoc, append-nil, Option, some, arith,
}
use schema_compare_c.Text.{CString}
use schema_compare_c.Ddl.Constraints.{ColumnConstraint, ColumnConstraintBody}
use schema_compare_c.Ddl.Tables.{TableElement, CreateTableStmt}
use schema_compare_c.Diff.{TableDiff}
use schema_compare_c.Compare.Options.{CompareOptions}
use schema_compare_c.Compare.Column.{get_column_def}
use schema_compare_c.Compare.Columns.{table_elements}
use schema_compare_c.Compare.Constraint.Reflexive.{names_refl, constraints_equivalent_refl}
use schema_compare_c.Compare.Constraints.Infos.{
  primary_key_value, unique_value, inline_info, ConstraintInfo, constraint_infos_equivalent,
  constraint_infos, table_infos, inline_infos, column_infos, get_table_constraint,
  pointers_equivalent, inline_equivalent,
}
use schema_compare_c.Compare.Constraints.{
  Search, match_direct, match_target, visit_target_constraint, find_added_constraints,
  visit_source_constraint, find_removed_constraints, unmatched, compare_infos, compare_constraints,
}
use schema_compare_c.Compare.Constraints.Marks.{marked}

-- Each constraint of the list is equivalent to itself.
abbrev pub AllSelf : Option CompareOptions → List ConstraintInfo → Type 0
AllSelf opts [] = Unit
AllSelf opts (c ∷ cs) = (constraint_infos_equivalent c c opts ≡ true) × AllSelf opts cs

module _ (opts : Option CompareOptions) where
  AllSelf-append :
      (cs ds : List ConstraintInfo) → AllSelf opts cs → AllSelf opts ds → AllSelf opts (cs ++ ds)
  AllSelf-append [] ds h k = k
  AllSelf-append (c ∷ cs) ds h k = (h.0, AllSelf-append cs ds h.1 k)

  table_infos-AllSelf : (elems : List TableElement) → AllSelf opts (table_infos elems)
  unfolding table_infos
  table_infos-AllSelf [] = tt
  table_infos-AllSelf (elem ∷ next) = elim (Option-cases (get_table_constraint elem)) [
    | inl e ↦ rw (e, table_infos) (table_infos-AllSelf next)
    | inr (tc, e) ↦
        rw (e, table_infos)
          (
            unfold constraint_infos_equivalent pointers_equivalent in
                ground (arith, constraints_equivalent_refl tc opts),
            table_infos-AllSelf next,
          )
  ]

  inline_info_self :
      (name : CString) (cc : ColumnConstraint) (kind : ℕ)
      → (kind == primary_key_value || kind == unique_value) ≡ true
      → constraint_infos_equivalent (inline_info name cc kind) (inline_info name cc kind) opts
        ≡ true
  unfolding constraint_infos_equivalent pointers_equivalent inline_equivalent
  inline_info_self name cc kind h = ground (arith, names_refl opts name, h)

  inline_infos-AllSelf :
      (name : CString) (ccs : List ColumnConstraint) → AllSelf opts (inline_infos name ccs)
  unfolding inline_infos
  inline_infos-AllSelf name [] = tt
  inline_infos-AllSelf name (cc ∷ next) =
      of_body cc.constraint refl (inline_infos-AllSelf name next)
    where
      of_body :
          (b : ColumnConstraintBody)
          → cc.constraint ≡ b
          → AllSelf opts (inline_infos name next)
          → AllSelf opts (inline_infos name (cc ∷ next))
      of_body (ColumnConstraintBody.primary_key _) e rest =
          rw (e, inline_infos) (inline_info_self name cc primary_key_value refl, rest)
      of_body (ColumnConstraintBody.unique _ _ _) e rest =
          rw (e, inline_infos) (inline_info_self name cc unique_value refl, rest)
      of_body (ColumnConstraintBody.not_null _) e rest = rw (e, inline_infos) rest
      of_body ColumnConstraintBody.null e rest = rw (e, inline_infos) rest
      of_body (ColumnConstraintBody.check _ _) e rest = rw (e, inline_infos) rest
      of_body (ColumnConstraintBody.default_val _) e rest = rw (e, inline_infos) rest
      of_body (ColumnConstraintBody.generated_always _ _ _) e rest = rw (e, inline_infos) rest
      of_body (ColumnConstraintBody.generated_identity _ _) e rest = rw (e, inline_infos) rest
      of_body (ColumnConstraintBody.references _) e rest = rw (e, inline_infos) rest

  column_infos-AllSelf : (elems : List TableElement) → AllSelf opts (column_infos elems)
  unfolding column_infos
  column_infos-AllSelf [] = tt
  column_infos-AllSelf (elem ∷ next) = elim (Option-cases (get_column_def elem)) [
    | inl e ↦ rw (e, column_infos) (column_infos-AllSelf next)
    | inr (col, e) ↦
        rw (e, column_infos)
          (AllSelf-append (inline_infos col.column_name col.constraints) (column_infos next)
            (inline_infos-AllSelf col.column_name col.constraints) (column_infos-AllSelf next))
  ]

  pub constraint_infos-AllSelf : (elems : List TableElement) → AllSelf opts (constraint_infos elems)
  unfolding constraint_infos
  constraint_infos-AllSelf elems =
      AllSelf-append (table_infos elems) (column_infos elems) (table_infos-AllSelf elems)
        (column_infos-AllSelf elems)

  -- With all before it matched, the first unmatched constraint is the partner of its own copy.
  match_direct_self :
      (c : ConstraintInfo) (done next : List ConstraintInfo)
      → constraint_infos_equivalent c c opts ≡ true
      → match_direct opts c (marked done ++ unmatched (c ∷ next))
        ≡ some (marked (done ++ c ∷ []) ++ unmatched next)
  unfolding match_direct unmatched marked
  match_direct_self c [] next h = rw (h, match_direct) refl
  match_direct_self c (d ∷ done) next h = rw (match_direct_self c done next h, match_direct) refl

  visit_self :
      (c : ConstraintInfo) (done next : List ConstraintInfo) (s : Search)
      → constraint_infos_equivalent c c opts ≡ true
      → s.sources ≡ marked done ++ unmatched (c ∷ next)
      → visit_target_constraint opts s c ≡ record s {
        sources = marked (done ++ c ∷ []) ++ unmatched next;
        targets = s.targets ++ (c, true) ∷ [];
      }
  unfolding visit_target_constraint match_target
  visit_self c done next s h e =
      rw
        (
          ap (match_direct opts c) e ∙ match_direct_self c done next h,
          match_target,
          visit_target_constraint,
        )
        refl

  find_added_constraints_self :
      (done next : List ConstraintInfo) (s : Search)
      → AllSelf opts next
      → s.sources ≡ marked done ++ unmatched next
      → ((find_added_constraints opts next s).result ≡ s.result)
        × ((find_added_constraints opts next s).sources ≡ marked (done ++ next))
  unfolding find_added_constraints unmatched
  find_added_constraints_self done [] s h e =
      (refl, e ∙ append-nil (marked done) ∙ ap marked (sym (append-nil done)))
  find_added_constraints_self done (c ∷ next) s h e =
      let here = visit_self c done next s h.0 e in
      let rest =
        find_added_constraints_self (done ++ c ∷ []) next (visit_target_constraint opts s c) h.1
          (ap (λ (t : Search). t.sources) here) in
      (
        rest.0 ∙ ap (λ (t : Search). t.result) here,
        rest.1 ∙ ap marked (append_assoc done (c ∷ []) next),
      )

  find_removed-marked :
      (cs : List ConstraintInfo) (s : Search) → find_removed_constraints opts (marked cs) s ≡ s
  unfolding find_removed_constraints marked visit_source_constraint
  find_removed-marked [] s = refl
  find_removed-marked (c ∷ cs) s = find_removed-marked cs s

compare_infos_self :
    (cs : List ConstraintInfo) (result : TableDiff) (opts : Option CompareOptions)
    → AllSelf opts cs
    → compare_infos cs cs result opts ≡ result
unfolding compare_infos marked
compare_infos_self [] result opts h = refl
compare_infos_self (c ∷ cs) result opts h =
    let start : Search = record {
      result = result;
      last_added = false;
      last_removed = false;
      sources = unmatched (c ∷ cs);
      targets = [];
    } in
    let s = find_added_constraints opts (c ∷ cs) start in
    let found = find_added_constraints_self opts [] (c ∷ cs) start h refl in
    ap (λ ms. (find_removed_constraints opts ms s).result) found.1
    ∙ ap (λ (t : Search). t.result) (find_removed-marked opts (c ∷ cs) s)
    ∙ found.0

-- A comparison of a table's constraints with themselves leaves the result as it was: no list, count
-- or entry is added, whatever the options.
pub compare_constraints_self :
    (stmt : CreateTableStmt) (result : TableDiff) (opts : Option CompareOptions)
    → compare_constraints stmt stmt result opts ≡ result
unfolding compare_constraints
compare_constraints_self stmt result opts =
    compare_infos_self (constraint_infos (table_elements stmt)) result opts
      (constraint_infos-AllSelf opts (table_elements stmt))
