-- ===== src/Compare/Constraints/Marks.antt =====
-- Lists of constraints that are all marked.
use schema_compare_c.Base.{
  ℕ, ◌≡◌, refl, true, List, [], ◌∷◌, ◌++◌, append_assoc, append-nil, Option, none, some, arith,
}
use schema_compare_c.Compare.Options.{CompareOptions}
use schema_compare_c.Compare.Constraints.Infos.{ConstraintInfo}
use schema_compare_c.Compare.Constraints.{
  Marked, is_available, available_count, match_target, visit_target_constraint,
  find_added_constraints, Search,
}

unfoldable pub marked : List ConstraintInfo → List Marked
marked [] = []
marked (c ∷ next) = (c, true) ∷ marked next

pub marked-append : (cs ds : List ConstraintInfo) → marked (cs ++ ds) ≡ marked cs ++ marked ds
unfolding marked
marked-append [] ds = refl
marked-append (c ∷ cs) ds = rw (marked-append cs ds)

-- Of marked constraints none is available.
pub available_count-marked :
    (kind : ℕ) (cs : List ConstraintInfo) → available_count kind (marked cs) ≡ 0
unfolding available_count is_available marked
available_count-marked kind [] = refl
available_count-marked kind (c ∷ cs) = omega (arith, available_count-marked kind cs)

-- The first loop leaves every target constraint marked, in order.
pub targets-find_added :
    (opts : Option CompareOptions) (cs done : List ConstraintInfo) (s : Search)
    → s.targets ≡ marked done
    → (find_added_constraints opts cs s).targets ≡ marked (done ++ cs)
unfolding find_added_constraints visit_target_constraint marked
targets-find_added opts [] done s h = rw append-nil h
targets-find_added opts (c ∷ cs) done s h = rw (← append_assoc done (c ∷ []) cs) (
    targets-find_added opts cs (done ++ c ∷ []) (visit_target_constraint opts s c)
      (visited (match_target opts c s.sources) refl))
  where
    visited :
        (o : Option (List Marked))
        → match_target opts c s.sources ≡ o
        → (visit_target_constraint opts s c).targets ≡ marked (done ++ c ∷ [])
    visited none e = rw (e, visit_target_constraint) (rw (marked-append, h) (unfold marked in refl))
    visited (some m) e =
        rw (e, visit_target_constraint) (rw (marked-append, h) (unfold marked in refl))
