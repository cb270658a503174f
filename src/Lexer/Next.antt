-- ===== src/Lexer/Next.antt =====
-- `lexer_next_token` of src/parser/lexer.c as a whole.
use schema_compare_c.Base.{
  ℕ, ◌-◌, ◌<◌, ◌≡◌, ◌≢◌, ◌⊎◌, refl, sym, ap, subst, false, ◌∙◌, inl, inr, true, [], ◌∷◌, ◌++◌, some,
  arith, length, length-append, take, take-length,
}
use schema_compare_c.Text.{Bytes}
use schema_compare_c.Token.{Token, token_eof, token_error, token_type_value}
use schema_compare_c.Lexer.{
  Lexer, move_to, skip_whitespace, token_length, make_token, advance_cursor, advance, token_from,
  lexer_next_token,
}
use schema_compare_c.Lexer.Progress.{Leaves}
use schema_compare_c.Lexer.Blanks.{IsBlanks, begins_blank, Follows}
use schema_compare_c.Lexer.Skips.{skip_from-Follows}
use schema_compare_c.Lexer.Scans.{
  Moves-refl, advance-Moves, make_token-Scans, Scans, token_from-Scans,
}

-- What a call leaves behind: `blanks` and `text` are passed.
pub record IsNext (lexer : Lexer) (t : Token) (lexer' : Lexer) : Type 0 where
  pub blanks : Bytes
  pub text : Bytes
  pub passed : lexer.current ≡ blanks ++ (text ++ lexer'.current)
  pub are_blank : IsBlanks blanks (text ++ lexer'.current)
  pub ends : begins_blank (text ++ lexer'.current) ≡ false
  pub lexeme : t.type ≢ token_error → t.lexeme ≡ text
  pub counted : t.length ≡ length t.lexeme
  pub goes_on : (t.type ≡ token_eof) × (text ≡ []) × (lexer'.current ≡ []) ⊎ (0 < length text)

token-Leaves : (l : Lexer) (r : Token × Lexer) → Scans l r → Leaves l.current r.1.current
token-Leaves l r (inl s) = s.moves.leaves
token-Leaves l r (inr f) = f.leaves

proper_ne : (t : Token) → token_type_value t.type < 136 → t.type ≢ token_error
proper_ne t h e =
    let k : token_type_value t.type ≡ 136 = ap token_type_value e in absurd (omega (arith, h, k))

take_passed : (t u : Bytes) → take (length (t ++ u) - length u) (t ++ u) ≡ t
take_passed t u =
    let e : length (t ++ u) - length u ≡ length t =
      ap (λ n. n - length u) (length-append t u) ∙ omega arith in
    ap (λ n. take n (t ++ u)) e ∙ take-length t u

token_length-passed : (t u : Bytes) → length (t ++ u) - length u ≡ length t
token_length-passed t u = ap (λ n. n - length u) (length-append t u) ∙ omega arith

-- A token that is not an error is the text from `start` on.
token-text :
    (l : Lexer) (r : Token × Lexer) (text : Bytes)
    → Scans l r
    → l.start ≡ text ++ r.1.current
    → r.0.type ≢ token_error
    → r.0.lexeme ≡ text
unfolding make_token token_length
token-text l r text (inl s) e h =
    ap (λ (t : Token). t.lexeme) s.made
    ∙ ap (λ x. take (length x - length r.1.current) x) (s.moves.start ∙ e)
    ∙ take_passed text r.1.current
token-text l r text (inr f) e h = absurd (h f.type)

token-counted :
    (l : Lexer) (r : Token × Lexer) (text : Bytes)
    → Scans l r
    → l.start ≡ text ++ r.1.current
    → r.0.length ≡ length r.0.lexeme
unfolding make_token token_length
token-counted l r text (inl s) e =
    ap (λ (t : Token). t.length) s.made
    ∙ ap (λ x. length x - length r.1.current) (s.moves.start ∙ e)
    ∙ token_length-passed text r.1.current
    ∙ ap length (sym (token-text l r text (inl s) e (proper_ne r.0 s.proper)))
token-counted l r text (inr f) e = f.length

advance_current : (l : Lexer) (c : ℕ) (cs : Bytes) → l.current ≡ c ∷ cs → (advance l).current ≡ cs
unfolding advance move_to advance_cursor
advance_current l c cs e = ap (λ x. (advance_cursor x l.line l.column).rest) e

begun-IsNext :
    (lexer begun : Lexer) (rest : Bytes)
    → begun.start ≡ rest
    → begun.current ≡ rest
    → Follows lexer.current rest
    → (let r : Token × Lexer = elim rest [
      | [] ↦ (make_token begun token_eof, begun)
      | c ∷ _ ↦ token_from c (advance begun)
    ] in
        IsNext lexer r.0 r.1)
unfolding make_token token_length
begun-IsNext lexer begun [] e f before =
    let r : Token × Lexer = (make_token begun token_eof, begun) in
    let s : Scans begun r =
      make_token-Scans begun begun token_eof (omega arith) (Moves-refl begun) in
    record {
      blanks = before.passed;
      text = [];
      passed = before.split ∙ ap (λ x. before.passed ++ x) (sym f);
      are_blank = subst (IsBlanks before.passed) (sym f) before.are_blank;
      ends = ap begins_blank f ∙ before.ends;
      lexeme = token-text begun r [] s (e ∙ sym f);
      counted = token-counted begun r [] s (e ∙ sym f);
      goes_on = inl (refl, refl, f);
    }
begun-IsNext lexer begun (c ∷ cs) e f before =
    let r : Token × Lexer = token_from c (advance begun) in
    let s : Scans (advance begun) r = token_from-Scans c (advance begun) in
    let (u, k) = token-Leaves (advance begun) r s in
    let left : c ∷ cs ≡ (c ∷ u) ++ r.1.current =
      ap (λ x. c ∷ x) (sym (advance_current begun c cs f) ∙ k) in
    let from : (advance begun).start ≡ (c ∷ u) ++ r.1.current =
      (advance-Moves begun).start ∙ e ∙ left in
    record {
      blanks = before.passed;
      text = c ∷ u;
      passed = before.split ∙ ap (λ x. before.passed ++ x) left;
      are_blank = subst (IsBlanks before.passed) left before.are_blank;
      ends = ap begins_blank (sym left) ∙ before.ends;
      lexeme = token-text (advance begun) r (c ∷ u) s from;
      counted = token-counted (advance begun) r (c ∷ u) s from;
      goes_on = inr (omega arith);
    }

-- Each call of `lexer_next_token` passes white space and comments, as many as there are, and then the
-- text of one token, so that no character is lost or read twice. White space is a space, a tab, a
-- carriage return or a line feed; a comment runs from -- to the end of the line or from /* to the
-- first */ behind it, or to the end of the source; and what is read next begins with neither. The
-- lexeme is the text of the token, byte for byte, unless the token is an error, and the length of the
-- token is the length of its lexeme. The token is the end of the text when nothing is left, and any
-- other takes a character, so a loop over the tokens ends.
pub lexer_next_token-IsNext :
    (lexer : Lexer) → IsNext lexer (lexer_next_token lexer).0 (lexer_next_token lexer).1
unfolding lexer_next_token skip_whitespace move_to
lexer_next_token-IsNext lexer =
    begun-IsNext lexer _ (skip_whitespace lexer).current refl refl
      (skip_from-Follows lexer.current lexer.line lexer.column)

-- What the lexer knows of an error after a call, beside the token.
abbrev pub Reports : Lexer → Token → Lexer → Type 0
Reports lexer t lexer' =
    (t.type ≡ token_error) × (lexer'.had_error ≡ true) × (lexer'.error_message ≡ some t.lexeme)
    ⊎ (t.type ≢ token_error)
      × (lexer'.had_error ≡ lexer.had_error)
      × (lexer'.error_message ≡ lexer.error_message)

Scans-Reports : (l : Lexer) (r : Token × Lexer) → Scans l r → Reports l r.0 r.1
Scans-Reports l r (inl s) = inr (proper_ne r.0 s.proper, s.moves.had_error, s.moves.error_message)
Scans-Reports l r (inr f) = inl (f.type, f.had_error, f.error_message)

advance-Reports : (l : Lexer) (t : Token) (l' : Lexer) → Reports (advance l) t l' → Reports l t l'
advance-Reports l t l' (inl h) = inl h
advance-Reports l t l' (inr (n, e, f)) =
    inr (n, e ∙ (advance-Moves l).had_error, f ∙ (advance-Moves l).error_message)

begun-Reports :
    (begun : Lexer) (rest : Bytes)
    → (let r : Token × Lexer = elim rest [
      | [] ↦ (make_token begun token_eof, begun)
      | c ∷ _ ↦ token_from c (advance begun)
    ] in
        Reports begun r.0 r.1)
begun-Reports begun [] =
    Scans-Reports begun (make_token begun token_eof, begun)
      (make_token-Scans begun begun token_eof (omega arith) (Moves-refl begun))
begun-Reports begun (c ∷ cs) =
    let r : Token × Lexer = token_from c (advance begun) in
    advance-Reports begun r.0 r.1
      (Scans-Reports (advance begun) r (token_from-Scans c (advance begun)))

-- Each call of `lexer_next_token` either gives an error token, and then `had_error` is set and the
-- error message of the lexer is the lexeme of the token; or it gives another token and leaves
-- `had_error` and the error message as they were.
pub lexer_next_token-Reports :
    (lexer : Lexer) → Reports lexer (lexer_next_token lexer).0 (lexer_next_token lexer).1
unfolding lexer_next_token skip_whitespace move_to
lexer_next_token-Reports lexer = begun-Reports _ (skip_whitespace lexer).current
