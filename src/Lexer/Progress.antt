-- ===== src/Lexer/Progress.antt =====
-- What a step of src/parser/lexer.c passes, and what its token says of it.
use schema_compare_c.Base.{
  ℕ, ◌+◌, ◌≡◌, refl, sym, ap, ◌∙◌, inl, inr, Bool, true, false, Bool-cases, [], ◌∷◌, ◌++◌,
  append_assoc, ◌==◌,
}
use schema_compare_c.Text.{Bytes}
use schema_compare_c.Lexer.{pass_while, pass_quoted, pass_literal}

-- The second text is what is left of the first when some of it is passed.
abbrev pub Leaves : Bytes → Bytes → Type 0
Leaves before after = (passed : Bytes) × (before ≡ passed ++ after)

pub Leaves-refl : (s : Bytes) → Leaves s s
Leaves-refl s = ([], refl)

pub Leaves-cons : (c : ℕ) (s t : Bytes) → Leaves s t → Leaves (c ∷ s) t
Leaves-cons c s t (u, e) = (c ∷ u, ap (λ x. c ∷ x) e)

pub Leaves-trans : (s t u : Bytes) → Leaves s t → Leaves t u → Leaves s u
Leaves-trans s t u (a, e) (b, f) = (a ++ b, e ∙ ap (λ x. a ++ x) f ∙ sym (append_assoc a b u))

pub pass_while-Leaves :
    (p : ℕ → Bool) (s : Bytes) (line column : ℕ) → Leaves s (pass_while p s line column).rest
unfolding pass_while
pass_while-Leaves p [] line column = ([], refl)
pass_while-Leaves p (c ∷ s) line column = elim (Bool-cases (p c)) [
  | inl e ↦ rw (e, pass_while) (Leaves-cons c s _ (pass_while-Leaves p s line (column + 1)))
  | inr e ↦ rw (e, pass_while) (Leaves-refl (c ∷ s))
]

pub pass_quoted-Leaves : (s : Bytes) (line column : ℕ) → Leaves s (pass_quoted s line column).rest
unfolding pass_quoted
pass_quoted-Leaves [] line column = ([], refl)
pass_quoted-Leaves (c ∷ s) line column = elim (Bool-cases (c == b'"')) [
  | inl e ↦ rw (e, pass_quoted) (Leaves-refl (c ∷ s))
  | inr e ↦ rw (e, pass_quoted) (Leaves-cons c s _ (pass_quoted-Leaves s _ _))
]

pub pass_literal-Leaves :
    (escaped : Bool) (s : Bytes) (line column : ℕ)
    → Leaves s (pass_literal escaped s line column).rest
unfolding pass_literal
pass_literal-Leaves escaped [] line column = ([], refl)
pass_literal-Leaves true (c ∷ s) line column =
    Leaves-cons c s _ (pass_literal-Leaves false s line (column + 1))
pass_literal-Leaves false (c ∷ s) line column = elim (Bool-cases (c == 39)) [
  | inl e ↦ rw (e, pass_literal) (Leaves-refl (c ∷ s))
  | inr e ↦ rw (e, pass_literal) (Leaves-cons c s _ (pass_literal-Leaves (c == b'\\') s _ _))
]
