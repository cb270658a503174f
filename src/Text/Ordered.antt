-- ===== src/Text/Ordered.antt =====
-- The order of strings by `strcmp`.
use schema_compare_c.Base.{ℕ, ◌≡◌, refl, List, [], ◌∷◌, Ordering, arith}
use schema_compare_c.Text.Strings.{strcmp}

pub strcmp_trans :
    (s t u : List ℕ)
    → strcmp s t ≡ Ordering.lt
    → strcmp t u ≡ Ordering.lt
    → strcmp s u ≡ Ordering.lt
unfolding strcmp
strcmp_trans s t [] h k = absurd (no_lt_nil t k)
  where
    no_lt_nil : (t : List ℕ) → strcmp t [] ≡ Ordering.lt → ⊥
    no_lt_nil [] k = cc
    no_lt_nil (_ ∷ _) k = cc
strcmp_trans s [] (e ∷ u) h k = absurd (no_lt_nil s h)
  where
    no_lt_nil : (t : List ℕ) → strcmp t [] ≡ Ordering.lt → ⊥
    no_lt_nil [] k = cc
    no_lt_nil (_ ∷ _) k = cc
strcmp_trans [] (d ∷ t) (e ∷ u) h k = refl
strcmp_trans (c ∷ s) (d ∷ t) (e ∷ u) h k = ground (arith, strcmp_trans s t u)

pub strcmp_flip : (s t : List ℕ) → strcmp s t ≡ Ordering.gt → strcmp t s ≡ Ordering.lt
unfolding strcmp
strcmp_flip [] [] h = cc
strcmp_flip [] (_ ∷ _) h = cc
strcmp_flip (_ ∷ _) [] h = refl
strcmp_flip (c ∷ s) (d ∷ t) h = ground (arith, strcmp_flip s t)
