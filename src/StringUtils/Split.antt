-- ===== src/StringUtils/Split.antt =====
-- `str_split` of src/utils/string_utils.c, and the join of its parts.
use schema_compare_c.Base.{
  ℕ, ◌+◌, ◌≡◌, refl, sym, ◌∙◌, ap, inl, inr, Bool-cases, List, [], ◌∷◌, ◌++◌, some, append-nil,
  append_assoc, arith, ◌==◌, ==_iff, length, to_nat,
}
use schema_compare_c.Text.{Bytes}
use schema_compare_c.StringUtils.{split_from, str_split}

-- The parts with the delimiter between them.
unfoldable pub join : ℕ → List Bytes → Bytes
join d [] = []
join d (p ∷ []) = p
join d (p ∷ q ∷ ps) = p ++ d ∷ join d (q ∷ ps)

-- How often a byte occurs.
unfoldable pub occurrences : ℕ → Bytes → ℕ
occurrences d [] = 0
occurrences d (c ∷ s) = to_nat (c == d) + occurrences d s

join-cons :
    (d : ℕ) (p : Bytes) (part s : Bytes)
    → join d (p ∷ split_from d part s) ≡ p ++ d ∷ join d (split_from d part s)
unfolding join split_from
join-cons d p part [] = refl
join-cons d p part (c ∷ s) = elim (Bool-cases (c == d)) [
  | inl e ↦ rw (e, split_from)
  | inr e ↦ rw (e, split_from) (join-cons d p (part ++ c ∷ []) s)
]

join-split_from : (d : ℕ) (part s : Bytes) → join d (split_from d part s) ≡ part ++ s
unfolding split_from
join-split_from d part [] = unfold join in rw append-nil
join-split_from d part (c ∷ s) = elim (Bool-cases (c == d)) [
  | inl e ↦
      rw (e, split_from)
        (join-cons d part [] s
          ∙ ap (λ (r : Bytes). part ++ d ∷ r) (join-split_from d [] s)
          ∙ ap (λ (x : ℕ). part ++ x ∷ s) (sym ((==_iff c d).0 e)))
  | inr e ↦ rw (e, split_from) (join-split_from d (part ++ c ∷ []) s ∙ append_assoc part (c ∷ []) s)
]

occurrences-append :
    (d : ℕ) (s t : Bytes) → occurrences d (s ++ t) ≡ occurrences d s + occurrences d t
unfolding occurrences
occurrences-append d [] t = omega arith
occurrences-append d (c ∷ s) t = omega (arith, occurrences-append d s t)

length-split_from : (d : ℕ) (part s : Bytes) → length (split_from d part s) ≡ occurrences d s + 1
unfolding split_from occurrences
length-split_from d part [] = refl
length-split_from d part (c ∷ s) =
    ground (arith, length-split_from d [] s, length-split_from d (part ++ c ∷ []) s)

-- No part has the byte.
abbrev pub AllFree : ℕ → List Bytes → Type 0
AllFree d [] = Unit
AllFree d (p ∷ ps) = (occurrences d p ≡ 0) × AllFree d ps

split_from-AllFree :
    (d : ℕ) (part s : Bytes) → occurrences d part ≡ 0 → AllFree d (split_from d part s)
unfolding split_from
split_from-AllFree d part [] h = (h, tt)
split_from-AllFree d part (c ∷ s) h = elim (Bool-cases (c == d)) [
  | inl e ↦ rw (e, split_from) (h, split_from-AllFree d [] s (unfold occurrences in refl))
  | inr e ↦
      rw (e, split_from)
        (split_from-AllFree d (part ++ c ∷ []) s
          (rw occurrences-append (unfold occurrences in ground arith)))
]

-- Splitting a string gives one part more than it has delimiters, no part holds the delimiter, and
-- the parts with the delimiter between them are the string.
pub str_split_lem :
    (str : Bytes) (d : ℕ)
    → (parts : List Bytes) × (str_split (some str) d ≡ some parts)
      × (length parts ≡ occurrences d str + 1)
      × AllFree d parts
      × (join d parts ≡ str)
unfolding str_split
str_split_lem str d = (
  split_from d [] str,
  refl,
  length-split_from d [] str,
  split_from-AllFree d [] str (unfold occurrences in refl),
  join-split_from d [] str,
)
