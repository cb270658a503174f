-- ===== src/Parser/Progress.antt =====
-- The loops of src/parser/parser.c: how far `parser_advance` and `parser_synchronize` go.
use schema_compare_c.Base.{
  ℕ, zero, suc, ◌+◌, ◌≤◌, ◌<◌, ◌≡◌, ◌⊎◌, refl, sym, ap, ◌∙◌, inl, inr, Bool, true, false, not,
  Bool-cases, ◌||◌, [], ◌++◌, arith, if◌then◌else◌, length, length-append, to_nat,
}
use mathlib.Core.Bool.{true≢false}
use schema_compare_c.Text.{Bytes, codes}
use schema_compare_c.Token.{TokenType, same_type, token_eof, token_error, token_semicolon}
use schema_compare_c.Lexer.{Lexer, lexer_next_token}
use schema_compare_c.Lexer.Next.{IsNext, lexer_next_token-IsNext}
use schema_compare_c.Parser.{
  Parser, report, parser_error, parser_check, read_token, skip_errors, parser_advance, remaining,
  starts_statement, pass_statement, parser_synchronize,
}

-- A token is the end of the text, or takes some of it.
next-shorter :
    (l : Lexer)
    → (same_type (lexer_next_token l).0.type token_eof ≡ true)
        × (length (lexer_next_token l).1.current ≡ 0)
      ⊎ (length (lexer_next_token l).1.current < length l.current)
next-shorter l = by_case (lexer_next_token-IsNext l).goes_on
  where
    n : IsNext l (lexer_next_token l).0 (lexer_next_token l).1
    n = lexer_next_token-IsNext l

    sum :
        length l.current ≡ length n.blanks + (length n.text + length (lexer_next_token l).1.current)
    sum =
        ap length n.passed
        ∙ length-append n.blanks _
        ∙ ap (λ k. length n.blanks + k) (length-append n.text _)

    by_case :
        ((lexer_next_token l).0.type ≡ token_eof)
            × (n.text ≡ [])
            × ((lexer_next_token l).1.current ≡ [])
          ⊎ (0 < length n.text)
        → (same_type (lexer_next_token l).0.type token_eof ≡ true)
            × (length (lexer_next_token l).1.current ≡ 0)
          ⊎ (length (lexer_next_token l).1.current < length l.current)
    by_case (inl (e, _, f)) = inl (ap (λ t. same_type t token_eof) e, ap length f)
    by_case (inr h) = inr (omega (arith, h, sum))

pub parser_error-lexer : (message : Bytes) (p : Parser) → (parser_error message p).lexer ≡ p.lexer
unfolding parser_error report
parser_error-lexer message p = elim (Bool-cases p.panic_mode) [
  | inl e ↦ rw e refl
  | inr e ↦ rw e refl
]

parser_error-previous :
    (message : Bytes) (p : Parser) → (parser_error message p).previous ≡ p.previous
unfolding parser_error report
parser_error-previous message p = elim (Bool-cases p.panic_mode) [
  | inl e ↦ rw e refl
  | inr e ↦ rw e refl
]

read_token-previous : (p : Parser) → (read_token p).previous ≡ p.previous
unfolding read_token
read_token-previous p = refl

-- What reading tokens up to one that is not an error leaves behind.
pub record Settles (p q : Parser) : Type 0 where
  pub not_error : same_type q.current.type token_error ≡ false
  pub previous : q.previous ≡ p.previous
  pub fewer : remaining q ≤ length p.lexer.current

to_nat-le : (b : Bool) → to_nat b ≤ 1
to_nat-le true = omega arith
to_nat-le false = omega arith

not_both : (type : TokenType) → same_type type token_eof ≡ true → same_type type token_error ≡ false
not_both type e = ground arith

read_token-fewer : (p : Parser) → remaining (read_token p) ≤ length p.lexer.current
unfolding read_token remaining parser_check
read_token-fewer p = elim (next-shorter p.lexer) [
  | inl (e, f) ↦ rw (e, f) (omega arith)
  | inr h ↦
      let k : to_nat (not (same_type (lexer_next_token p.lexer).0.type token_eof)) ≤ 1 =
        to_nat-le _ in
      omega (arith, h, k)
]

-- An error is not the end, so it takes some of the text.
read_token-error :
    (p : Parser)
    → same_type (read_token p).current.type token_error ≡ true
    → length (read_token p).lexer.current < length p.lexer.current
unfolding read_token
read_token-error p e = elim (next-shorter p.lexer) [
  | inl (f, _) ↦ absurd (true≢false (sym e ∙ not_both (lexer_next_token p.lexer).0.type f))
  | inr h ↦ h
]

if_Settles :
    (p q more : Parser) (b : Bool)
    → (b ≡ true → Settles p more)
    → (b ≡ false → Settles p q)
    → Settles p (if b then more else q)
if_Settles p q more true f g = f refl
if_Settles p q more false f g = g refl

read_token-Settles :
    (p : Parser)
    → same_type (read_token p).current.type token_error ≡ false
    → Settles p (read_token p)
read_token-Settles p e = record {
  not_error = e;
  previous = read_token-previous p;
  fewer = read_token-fewer p;
}

skip_errors-Settles :
    (fuel : ℕ) (p : Parser) → length p.lexer.current < fuel → Settles p (skip_errors fuel p)
unfolding skip_errors
skip_errors-Settles zero p h = absurd (omega (arith, h))
skip_errors-Settles (suc fuel) p h =
    if_Settles p (read_token p) _ _
      (λ e.
        let q : Parser = read_token p in
        let m : Bytes = codes "Lexer error: " ++ q.current.lexeme in
        let k : length q.lexer.current < length p.lexer.current = read_token-error p e in
        let f : length (parser_error m q).lexer.current ≡ length q.lexer.current =
          ap (λ (l : Lexer). length l.current) (parser_error-lexer m q) in
        let s : Settles (parser_error m q) (skip_errors fuel (parser_error m q)) =
          skip_errors-Settles fuel (parser_error m q) (omega (arith, h, k, f)) in
        let w : remaining (skip_errors fuel (parser_error m q))
            ≤ length (parser_error m q).lexer.current =
          s.fewer in
        record {
          not_error = s.not_error;
          previous = s.previous ∙ parser_error-previous m q ∙ read_token-previous p;
          fewer = omega (arith, w, k, f);
        })
      (read_token-Settles p)

-- `parser_advance` comes to an end: its current token is then no error, the token that was current is
-- the previous one, and no more is left than the text that the lexer had before it.
pub parser_advance-Settles :
    (p : Parser) → Settles (record p { previous = p.current }) (parser_advance p)
unfolding parser_advance
parser_advance-Settles p =
    skip_errors-Settles (suc (length p.lexer.current)) (record p { previous = p.current })
      (omega arith)

remaining-suc :
    (p : Parser) → parser_check p token_eof ≡ false → remaining p ≡ length p.lexer.current + 1
unfolding remaining
remaining-suc p e = rw e refl

remaining-ge : (p : Parser) → length p.lexer.current ≤ remaining p
unfolding remaining
remaining-ge p = omega arith

-- A step past any token but the end leaves less.
pub parser_advance-shorter :
    (p : Parser) → parser_check p token_eof ≡ false → remaining (parser_advance p) < remaining p
parser_advance-shorter p e =
    let s : remaining (parser_advance p) ≤ length p.lexer.current =
      (parser_advance-Settles p).fewer in
    let k : remaining p ≡ length p.lexer.current + 1 = remaining-suc p e in omega (arith, s, k)

pub parser_advance-le : (p : Parser) → remaining (parser_advance p) ≤ remaining p
parser_advance-le p =
    let s : remaining (parser_advance p) ≤ length p.lexer.current =
      (parser_advance-Settles p).fewer in
    let k : length p.lexer.current ≤ remaining p = remaining-ge p in omega (arith, s, k)

-- Where `parser_synchronize` may stop.
abbrev pub Stops : Parser → Type 0
Stops p =
    (parser_check p token_eof ≡ true)
    ⊎ ((same_type p.previous.type token_semicolon || starts_statement p) ≡ true)

-- The parser stops there, and has not gone back.
abbrev pub StopsFrom : Parser → Parser → Type 0
StopsFrom p q = Stops q × (remaining q ≤ remaining p)

pass_statement-StopsFrom :
    (fuel : ℕ) (p : Parser) → remaining p < fuel → StopsFrom p (pass_statement fuel p)
unfolding pass_statement
pass_statement-StopsFrom zero p h = absurd (omega (arith, h))
pass_statement-StopsFrom (suc fuel) p h = elim (Bool-cases (parser_check p token_eof)) [
  | inl e ↦ rw (e, pass_statement) (inl e, omega arith)
  | inr e ↦ elim (Bool-cases (same_type p.previous.type token_semicolon || starts_statement p)) [
    | inl f ↦ rw (e, f, pass_statement) (inr f, omega arith)
    | inr f ↦
        let k : remaining (parser_advance p) < remaining p = parser_advance-shorter p e in
        let (s, w) = pass_statement-StopsFrom fuel (parser_advance p) (omega (arith, h, k)) in
        rw (e, f, pass_statement) (s, omega (arith, w, k))
  ]
]

-- `parser_synchronize` comes to an end: at the end of the text, behind a semicolon, or at CREATE,
-- ALTER or DROP, with no more left than before.
pub parser_synchronize-StopsFrom : (p : Parser) → StopsFrom p (parser_synchronize p)
unfolding parser_synchronize remaining parser_check
parser_synchronize-StopsFrom p =
    pass_statement-StopsFrom (suc (remaining p)) (record p { panic_mode = false }) (omega arith)
