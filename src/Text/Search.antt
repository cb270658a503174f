-- ===== src/Text/Search.antt =====
-- The search of `strstr` as functions of the text.
use schema_compare_c.Base.{
  ◌≡◌, refl, sym, ap, ◌∙◌, ℕ, Bool, false, ◌||◌, inl, inr, Bool-cases, Option-cases, [], ◌∷◌,
  Option, none, some, if◌then◌else◌,
}
use schema_compare_c.Text.{Bytes}
use schema_compare_c.Text.Strings.{starts_with, before}

-- The text up to the first place at which the pattern begins; all of it if there is none.
unfoldable pub up_to : Bytes → Bytes → Bytes
unfolding starts_with
up_to pattern [] = []
up_to pattern (c ∷ s) =
    let rest = up_to pattern s in if starts_with pattern (c ∷ s) then [] else c ∷ rest

-- The value, or the text if there is none.
unfoldable pub value_or : Bytes → Option Bytes → Bytes
value_or s none = s
value_or s (some value) = value

pub before_or_all :
    (pattern : ℕ) (more s : Bytes)
    → value_or s (before (pattern ∷ more) s) ≡ up_to (pattern ∷ more) s
unfolding before up_to starts_with value_or
before_or_all p more [] = refl
before_or_all p more (c ∷ s) = elim (Bool-cases (starts_with (p ∷ more) (c ∷ s))) [
  | inl e ↦ rw (e, before, up_to) refl
  | inr e ↦ elim (Option-cases (before (p ∷ more) s)) [
    | inl f ↦
        rw (e, f, before, up_to)
          (ap (λ x. c ∷ x) (ap (value_or s) (sym f) ∙ before_or_all p more s))
    | inr (v, f) ↦
        rw (e, f, before, up_to)
          (ap (λ x. c ∷ x) (ap (value_or s) (sym f) ∙ before_or_all p more s))
  ]
]

-- The pattern begins somewhere in the text.
unfoldable pub occurs : Bytes → Bytes → Bool
unfolding starts_with
occurs pattern [] = false
occurs pattern (c ∷ s) = starts_with pattern (c ∷ s) || occurs pattern s

pub before_occurs :
    (pattern : ℕ) (more s : Bytes)
    → before (pattern ∷ more) s
      ≡ (if occurs (pattern ∷ more) s then some (up_to (pattern ∷ more) s) else none)
unfolding before up_to occurs starts_with
before_occurs p more [] = refl
before_occurs p more (c ∷ s) = elim (Bool-cases (starts_with (p ∷ more) (c ∷ s))) [
  | inl e ↦ rw (e, before, up_to, occurs) refl
  | inr e ↦ elim (Bool-cases (occurs (p ∷ more) s)) [
    | inl f ↦ rw (e, before_occurs p more s, before, up_to, occurs, f) refl
    | inr f ↦ rw (e, before_occurs p more s, before, up_to, occurs, f) refl
  ]
]
