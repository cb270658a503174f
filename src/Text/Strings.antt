-- ===== src/Text/Strings.antt =====
-- strcmp, strcasecmp, strchr and strstr.
use schema_compare_c.Base.{
  ℕ, ◌≡◌, refl, ◌↔◌, Bool, true, false, List, [], ◌∷◌, map, Option, none, some, compare, Ordering,
  arith, ◌==◌, if◌then◌else◌,
}
use schema_compare_c.Text.Ctype.{to_lower}

-- The sign of `strcmp`: the order of the first bytes that differ, as unsigned values.
unfoldable pub strcmp : List ℕ → List ℕ → Ordering
strcmp [] [] = Ordering.eq
strcmp [] (_ ∷ _) = Ordering.lt
strcmp (_ ∷ _) [] = Ordering.gt
strcmp (c ∷ s) (d ∷ t) = elim (compare c d) [
  | Ordering.lt ↦ Ordering.lt
  | Ordering.eq ↦ strcmp s t
  | Ordering.gt ↦ Ordering.gt
]

-- `strcmp(s, t) == 0`
unfoldable pub same : List ℕ → List ℕ → Bool
unfolding strcmp
same s t = elim (strcmp s t) [ Ordering.eq ↦ true | _ ↦ false ]

pub strcmp_refl : (s : List ℕ) → strcmp s s ≡ Ordering.eq
unfolding strcmp
strcmp_refl [] = refl
strcmp_refl (c ∷ s) = ground (arith, strcmp_refl s)

pub eq_of_strcmp : (s t : List ℕ) → strcmp s t ≡ Ordering.eq → s ≡ t
unfolding strcmp
eq_of_strcmp [] [] h = refl
eq_of_strcmp [] (_ ∷ _) h = cc
eq_of_strcmp (_ ∷ _) [] h = cc
eq_of_strcmp (c ∷ s) (d ∷ t) h = ground (arith, eq_of_strcmp s t)

pub same_refl : (s : List ℕ) → same s s ≡ true
unfolding same
same_refl s = rw (same, strcmp_refl s)

pub same_iff : (s t : List ℕ) → (same s t ≡ true) ↔ (s ≡ t)
unfolding same
same_iff s t = (λ h. ground (arith, eq_of_strcmp s t), λ e. rw e (same_refl t))

-- `strcasecmp(s, t) == 0`
unfoldable pub same_ignore_case : List ℕ → List ℕ → Bool
unfolding same
same_ignore_case s t = same (map to_lower s) (map to_lower t)

-- `strchr(s, c)`, as the text before the first `c` and the text after it.
unfoldable pub split_at : ℕ → List ℕ → Option (List ℕ × List ℕ)
split_at c [] = none
split_at c (d ∷ s) = elim (d == c) [
  | true ↦ some ([], s)
  | false ↦ elim (split_at c s) [ none ↦ none | some (p, r) ↦ some (d ∷ p, r) ]
]

unfoldable pub starts_with : List ℕ → List ℕ → Bool
starts_with [] s = true
starts_with (p ∷ ps) [] = false
starts_with (p ∷ ps) (c ∷ s) = if p == c then starts_with ps s else false

-- `strstr(s, needle)`, as the text before the first occurrence.
unfoldable pub before : List ℕ → List ℕ → Option (List ℕ)
unfolding starts_with
before needle [] = if starts_with needle [] then some [] else none
before needle (c ∷ s) = elim (starts_with needle (c ∷ s)) [
  | true ↦ some []
  | false ↦ elim (before needle s) [ none ↦ none | some p ↦ some (c ∷ p) ]
]
