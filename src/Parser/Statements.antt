-- ===== src/Parser/Statements.antt =====
-- The loop of `parse_all_statements` in src/parser/parse_schema.c, and its step back to CREATE.
use schema_compare_c.Base.{
  ℕ, zero, suc, ◌≡◌, refl, ap, ◌∙◌, Bool, true, false, Bool-cases, inl, inr, ◌||◌, [], ◌∷◌, some,
  if◌then◌else◌,
}
use mathlib.Core.Bool.{true≢false}
use schema_compare_c.Text.{Bytes, codes}
use schema_compare_c.Ddl.Types.{Schema}
use schema_compare_c.Token.{
  Token, same_type, token_create, token_table, token_eof, token_semicolon, token_global,
  token_local, token_temporary, token_temp, token_unlogged,
}
use schema_compare_c.Parser.{
  Parser, report, parser_check, parser_error, parser_advance, parser_synchronize, pass_statement,
  remaining, returns, runs_on, parser_match, parser_expect, choose,
}
use schema_compare_c.Parser.Progress.{parser_advance-Settles}
use schema_compare_c.Parser.Parts.{checks_any}
use schema_compare_c.Parser.CreateTable.{parser_parse_create_table}
use schema_compare_c.Parser.Schema.{
  step_back, table_starters, append_table, created, parser_parse_statement, skip_semicolons,
  recover, end_statement, statements_from,
}

-- The tokens of the second parser are those of the first.
abbrev Keeps : Parser → Parser → Type 0
Keeps p q = (q.current ≡ p.current) × (q.previous ≡ p.previous)

Keeps-trans : (p q r : Parser) → Keeps p q → Keeps q r → Keeps p r
Keeps-trans p q r (a, b) (c, d) = (c ∙ a, d ∙ b)

parser_error-Keeps : (message : Bytes) (p : Parser) → Keeps p (parser_error message p)
unfolding parser_error report
parser_error-Keeps message p = elim (Bool-cases p.panic_mode) [
  | inl e ↦ rw e (refl, refl)
  | inr e ↦ rw e (refl, refl)
]

-- Behind a semicolon.
abbrev Behind : Parser → Type 0
Behind p = same_type p.previous.type token_semicolon ≡ true

Keeps-Behind : (p q : Parser) → Keeps p q → Behind p → Behind q
Keeps-Behind p q (_, e) h = ap (λ (t : Token). same_type t.type token_semicolon) e ∙ h

pass_statement-Behind : (fuel : ℕ) (p : Parser) → Behind p → pass_statement (suc fuel) p ≡ p
unfolding pass_statement
pass_statement-Behind fuel p h = elim (Bool-cases (parser_check p token_eof)) [
  | inl e ↦ rw e refl
  | inr e ↦ rw (e, h) refl
]

synchronize-Keeps : (p : Parser) → Behind p → Keeps p (parser_synchronize p)
unfolding parser_synchronize
synchronize-Keeps p h =
    let e = pass_statement-Behind (remaining p) (record p { panic_mode = false }) h in
    (ap (λ (q : Parser). q.current) e, ap (λ (q : Parser). q.previous) e)

if_Keeps : (b : Bool) (p q r : Parser) → Keeps p q → Keeps p r → Keeps p (if b then q else r)
if_Keeps true p q r h k = h
if_Keeps false p q r h k = k

recover-Keeps : (p : Parser) → Behind p → Keeps p (recover p)
unfolding recover
recover-Keeps p h =
    if_Keeps p.had_error p (record (parser_synchronize p) { panic_mode = false }) p
      (synchronize-Keeps p h) (refl, refl)

end_statement-Keeps : (p : Parser) → Behind p → Keeps p (end_statement p)
unfolding end_statement
end_statement-Keeps p h =
    let q : Parser = parser_error (codes "Expected semicolon after statement") p in
    let k : Keeps p q = parser_error-Keeps (codes "Expected semicolon after statement") p in
    if_Keeps (parser_check p token_eof || parser_check p token_semicolon) p p (parser_synchronize q)
      (refl, refl)
      (Keeps-trans p q (parser_synchronize q) k (synchronize-Keeps q (Keeps-Behind p q k h)))

-- No statement, no semicolon and no end stands there.
abbrev pub Stray : Parser → Type 0
Stray p =
    (parser_check p token_create ≡ false)
    × (parser_check p token_eof ≡ false)
    × (parser_check p token_semicolon ≡ false)

Keeps-Stray : (p q : Parser) → Keeps p q → Stray p → Stray q
unfolding parser_check
Keeps-Stray p q (e, _) (a, b, c) = (
  ap (λ (t : Token). same_type t.type token_create) e ∙ a,
  ap (λ (t : Token). same_type t.type token_eof) e ∙ b,
  ap (λ (t : Token). same_type t.type token_semicolon) e ∙ c,
)

-- However long it runs, the loop over the statements of a schema does not end once it stands behind a
-- semicolon at a token that is neither CREATE nor a semicolon nor the end, as in `; SELECT 1`: the
-- statement fails, and `parser_synchronize` passes no token behind a semicolon.
pub statements_from-runs_on :
    (fuel : ℕ) (schema : Schema) (p : Parser)
    → same_type p.previous.type token_semicolon ≡ true
    → Stray p
    → statements_from fuel schema p ≡ runs_on
unfolding statements_from skip_semicolons parser_parse_statement
statements_from-runs_on zero schema p h s = refl
statements_from-runs_on (suc fuel) schema p h (a, b, c) =
    let q : Parser = parser_error (codes "Expected CREATE statement") p in
    let k : Keeps p q = parser_error-Keeps (codes "Expected CREATE statement") p in
    let r : Parser = recover q in
    let i : Keeps p r = Keeps-trans p q r k (recover-Keeps q (Keeps-Behind p q k h)) in
    let t : Parser = end_statement r in
    let l : Keeps p t = Keeps-trans p r t i (end_statement-Keeps r (Keeps-Behind p r i h)) in
    let rest =
      statements_from-runs_on fuel schema t (Keeps-Behind p t l h) (Keeps-Stray p t l (a, b, c)) in
    rw (b, c, b, a) rest

back-create :
    (p : Parser)
    → parser_check p token_create ≡ true
    → parser_check (step_back (parser_advance p)) token_create ≡ true
unfolding parser_check step_back
back-create p h =
    ap (λ (t : Token). same_type t.type token_create) (parser_advance-Settles p).previous ∙ h

or_parts : (a b : Bool) → (a || b) ≡ false → (a ≡ false) × (b ≡ false)
or_parts true b h = absurd (true≢false h)
or_parts false b h = (refl, h)

-- The step back to CREATE loses the token TABLE: unless a second TABLE or a modifier follows it, the
-- statement `CREATE TABLE …` of a schema adds no table, and ends with the error that TABLE is expected
-- at the token behind it.
pub parser_parse_statement_lem :
    (schema : Schema) (p : Parser)
    → parser_check p token_create ≡ true
    → parser_check (parser_advance p) token_table ≡ true
    → checks_any (parser_advance (step_back (parser_advance p))) table_starters ≡ false
    → parser_parse_statement schema p
      ≡ returns
          (some schema)
          (parser_error (codes "Expected TABLE") (parser_advance (step_back (parser_advance p))))
unfolding parser_parse_statement created append_table parser_parse_create_table parser_expect
    parser_match choose checks_any
parser_parse_statement_lem schema p h k s =
    let r : Parser = parser_advance (step_back (parser_advance p)) in
    let (t1, s1) =
      or_parts (parser_check r token_table)
        (checks_any r
          (token_temporary ∷ token_temp ∷ token_unlogged ∷ token_global ∷ token_local ∷ []))
        s in
    let (t2, s2) =
      or_parts (parser_check r token_temporary)
        (checks_any r (token_temp ∷ token_unlogged ∷ token_global ∷ token_local ∷ [])) s1 in
    let (t3, s3) =
      or_parts (parser_check r token_temp)
        (checks_any r (token_unlogged ∷ token_global ∷ token_local ∷ [])) s2 in
    let (t4, s4) =
      or_parts (parser_check r token_unlogged) (checks_any r (token_global ∷ token_local ∷ []))
        s3 in
    let (t5, s5) = or_parts (parser_check r token_global) (checks_any r (token_local ∷ [])) s4 in
    let (t6, _) = or_parts (parser_check r token_local) (checks_any r ([])) s5 in
    rw (h, k, back-create p h, t5, t6, t2, t3, t4, t1) refl
