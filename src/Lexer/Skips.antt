-- ===== src/Lexer/Skips.antt =====
-- The loops of `skip_whitespace` of src/parser/lexer.c, and the white space and comments they pass.
use schema_compare_c.Base.{
  ℕ, ◌≡◌, ◌⊎◌, refl, sym, ap, ap₂, subst, ◌∙◌, inl, inr, Bool, true, false, ◌&&◌, Bool-cases, [],
  ◌∷◌, ◌++◌, append_assoc, append-nil, ◌+◌, none, some, ◌==◌, ==_iff, arith, if◌then◌else◌,
}
use schema_compare_c.Text.{Bytes}
use schema_compare_c.Lexer.{
  Skip, blank, in_line, opening, in_block, closing, peek, skip_step, skip_from,
}
use schema_compare_c.Lexer.Blanks.{
  is_white, no_newline, no_close, no_blanks, white, line_comment, last_line, block_comment,
  open_block, begins_blank, Follows,
}

-- The same from inside a comment on a line, and from inside one in /* and */.
data FollowsLine : Bytes → Bytes → Type 0 where
  at_newline :
      (text next r : Bytes)
      → no_newline text ≡ true
      → Follows next r
      → FollowsLine (text ++ b'\n' ∷ next) r
  in_last_line : (text : Bytes) → no_newline text ≡ true → FollowsLine text []

data FollowsBlock : Bytes → Bytes → Type 0 where
  at_close :
      (text next r : Bytes)
      → no_close text ≡ true
      → Follows next r
      → FollowsBlock (text ++ b'*' ∷ b'/' ∷ next) r
  in_open_block : (text : Bytes) → no_close text ≡ true → FollowsBlock text []

Follows-here : (s : Bytes) → begins_blank s ≡ false → Follows s s
Follows-here s h = record { passed = []; split = refl; are_blank = no_blanks s; ends = h }

Follows-white : (c : ℕ) (s r : Bytes) → is_white c ≡ true → Follows s r → Follows (c ∷ s) r
Follows-white c s r w f = record {
  passed = c ∷ f.passed;
  split = ap (λ x. c ∷ x) f.split;
  are_blank = white c f.passed r w f.are_blank;
  ends = f.ends;
}

Follows-line : (s r : Bytes) → FollowsLine s r → Follows (b'-' ∷ b'-' ∷ s) r
unfolding begins_blank
Follows-line _ _ (at_newline text next r h f) = record {
  passed = b'-' ∷ b'-' ∷ (text ++ b'\n' ∷ f.passed);
  split =
      ap (λ x. b'-' ∷ b'-' ∷ x)
        (ap (λ x. text ++ b'\n' ∷ x) f.split ∙ sym (append_assoc text (b'\n' ∷ f.passed) r));
  are_blank = line_comment text f.passed r h f.are_blank;
  ends = f.ends;
}
Follows-line _ _ (in_last_line text h) = record {
  passed = b'-' ∷ b'-' ∷ text;
  split = ap (λ x. b'-' ∷ b'-' ∷ x) (sym (append-nil text));
  are_blank = last_line text h;
  ends = refl;
}

Follows-block : (s r : Bytes) → FollowsBlock s r → Follows (b'/' ∷ b'*' ∷ s) r
unfolding begins_blank
Follows-block _ _ (at_close text next r h f) = record {
  passed = b'/' ∷ b'*' ∷ (text ++ b'*' ∷ b'/' ∷ f.passed);
  split =
      ap (λ x. b'/' ∷ b'*' ∷ x)
        (ap (λ x. text ++ b'*' ∷ b'/' ∷ x) f.split
          ∙ sym (append_assoc text (b'*' ∷ b'/' ∷ f.passed) r));
  are_blank = block_comment text f.passed r h f.are_blank;
  ends = f.ends;
}
Follows-block _ _ (in_open_block text h) = record {
  passed = b'/' ∷ b'*' ∷ text;
  split = ap (λ x. b'/' ∷ b'*' ∷ x) (sym (append-nil text));
  are_blank = open_block text h;
  ends = refl;
}

FollowsLine-cons :
    (c : ℕ) (s r : Bytes) → (c == b'\n') ≡ false → FollowsLine s r → FollowsLine (c ∷ s) r
unfolding no_newline
FollowsLine-cons c _ _ e (at_newline text next r h f) =
    at_newline (c ∷ text) next r (rw (e, no_newline) h) f
FollowsLine-cons c _ _ e (in_last_line text h) = in_last_line (c ∷ text) (rw (e, no_newline) h)

no_close-cons :
    (c : ℕ) (text rest : Bytes)
    → (c == b'*' && peek (text ++ rest) == b'/') ≡ false
    → no_close text ≡ true
    → no_close (c ∷ text) ≡ true
unfolding no_close
no_close-cons c [] rest e h = refl
no_close-cons c (d ∷ text) rest e h = rw (e, no_close) h

FollowsBlock-cons :
    (c : ℕ) (s r : Bytes)
    → (c == b'*' && peek s == b'/') ≡ false
    → FollowsBlock s r
    → FollowsBlock (c ∷ s) r
FollowsBlock-cons c _ _ e (at_close text next r h f) =
    at_close (c ∷ text) next r (no_close-cons c text (b'*' ∷ b'/' ∷ next) e h) f
FollowsBlock-cons c _ _ e (in_open_block text h) =
    in_open_block (c ∷ text) (no_close-cons c text [] (rw (append-nil text) e) h)

-- What a loop of `skip_whitespace` leaves behind, when it stands at its next character.
unfoldable StandsBefore : Skip → Bytes → Bytes → Type 0
StandsBefore blank s r = Follows s r
StandsBefore in_line s r = FollowsLine s r
StandsBefore opening s r = Unit {0}
StandsBefore in_block s r = FollowsBlock s r
StandsBefore closing s r = Unit {0}

-- What the loop for blanks does at a character with another one behind it.
step_cases :
    (c next : ℕ)
    → (is_white c ≡ true) × (skip_step blank c next ≡ some blank)
      ⊎ ((c ≡ b'-') × (next ≡ b'-') × (skip_step blank c next ≡ some in_line)
          ⊎ ((c ≡ b'/') × (next ≡ b'*') × (skip_step blank c next ≡ some opening)
              ⊎ (is_white c ≡ false)
                × ((c == b'-' && next == b'-') ≡ false)
                × ((c == b'/' && next == b'*') ≡ false)
                × (skip_step blank c next ≡ none)))
unfolding skip_step is_white
step_cases c next = ground arith

not_begins :
    (c : ℕ) (s : Bytes)
    → is_white c ≡ false
    → (c == b'-' && peek s == b'-') ≡ false
    → (c == b'/' && peek s == b'*') ≡ false
    → begins_blank (c ∷ s) ≡ false
unfolding begins_blank
not_begins c [] w d b = w
not_begins c (x ∷ s) w d b = rw (w, d, b) refl

both_true : (c d x y : ℕ) → (c == x && d == y) ≡ true → (c ≡ x) × (d ≡ y)
both_true c d x y e = ground arith

-- For two characters that are known.
at_both :
    (P : Bytes → Bytes → Type 0) (mode : Skip) (c d x y : ℕ) (s : Bytes) (line column : ℕ)
    → c ≡ x
    → d ≡ y
    → P (x ∷ y ∷ s) (skip_from mode (x ∷ y ∷ s) line column).rest
    → P (c ∷ d ∷ s) (skip_from mode (c ∷ d ∷ s) line column).rest
at_both P mode c d x y s line column e f h =
    subst (λ t. P t (skip_from mode t line column).rest) (sym (ap₂ (λ a b. a ∷ b ∷ s) e f)) h

skip_from-StandsBefore :
    (mode : Skip) (s : Bytes) (line column : ℕ)
    → StandsBefore mode s (skip_from mode s line column).rest
unfolding StandsBefore skip_from begins_blank skip_step no_newline no_close
skip_from-StandsBefore blank [] line column = Follows-here [] refl
skip_from-StandsBefore in_line [] line column = in_last_line [] refl
skip_from-StandsBefore opening s line column = tt
skip_from-StandsBefore in_block [] line column = in_open_block [] refl
skip_from-StandsBefore closing s line column = tt
skip_from-StandsBefore blank (c ∷ []) line column = elim (step_cases c 0) [
  | inl (w, e) ↦ rw (e, skip_from) (Follows-white c [] [] w (Follows-here [] refl))
  | inr (inl (_, n, _)) ↦ absurd (omega (arith, n))
  | inr (inr (inl (_, n, _))) ↦ absurd (omega (arith, n))
  | inr (inr (inr (w, d, b, e))) ↦ rw (e, skip_from) (Follows-here (c ∷ []) (not_begins c [] w d b))
]
skip_from-StandsBefore blank (c ∷ x ∷ s) line column = elim (step_cases c x) [
  | inl (w, e) ↦
      rw (e, skip_from) (Follows-white c (x ∷ s) _ w (skip_from-StandsBefore blank (x ∷ s) _ _))
  | inr (inl (ec, ex, _)) ↦
      at_both Follows blank c x b'-' b'-' s line column ec ex
        (Follows-line s _ (skip_from-StandsBefore in_line s _ _))
  | inr (inr (inl (ec, ex, _))) ↦
      at_both Follows blank c x b'/' b'*' s line column ec ex
        (Follows-block s _ (skip_from-StandsBefore in_block s _ _))
  | inr (inr (inr (w, d, b, e))) ↦
      rw (e, skip_from) (Follows-here (c ∷ x ∷ s) (not_begins c (x ∷ s) w d b))
]
skip_from-StandsBefore in_line (c ∷ s) line column = elim (Bool-cases (c == b'\n')) [
  | inl e ↦
      rw ((==_iff c b'\n').0 e, skip_from)
        (at_newline [] s _ refl (skip_from-StandsBefore blank s _ _))
  | inr e ↦
      rw (e, skip_from, skip_step)
        (FollowsLine-cons c s _ e (skip_from-StandsBefore in_line s line (column + 1)))
]
skip_from-StandsBefore in_block (c ∷ []) line column =
    alone (c == b'*') (if c == b'\n' then line + 1 else line) (if c == b'\n' then 1 else column + 1)
  where
    alone :
        (b : Bool) (line' column' : ℕ)
        → FollowsBlock
            (c ∷ [])
            (skip_from (if b && 0 == b'/' then closing else in_block) [] line' column').rest
    alone true line' column' = in_open_block (c ∷ []) refl
    alone false line' column' = in_open_block (c ∷ []) refl
skip_from-StandsBefore in_block (c ∷ x ∷ s) line column =
    elim (Bool-cases (c == b'*' && x == b'/')) [
      | inl e ↦
          let k = both_true c x b'*' b'/' e in
          at_both FollowsBlock in_block c x b'*' b'/' s line column k.0 k.1
            (at_close [] s _ refl (skip_from-StandsBefore blank s _ _))
      | inr e ↦
          rw (e, skip_from, skip_step)
            (FollowsBlock-cons c (x ∷ s) _ e (skip_from-StandsBefore in_block (x ∷ s) _ _))
    ]

-- What `skip_whitespace` leaves is what follows white space and comments, and begins with neither.
pub skip_from-Follows :
    (s : Bytes) (line column : ℕ) → Follows s (skip_from blank s line column).rest
unfolding StandsBefore
skip_from-Follows s line column = skip_from-StandsBefore blank s line column
