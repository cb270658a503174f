-- ===== src/Parser/Stuck.antt =====
-- Where the loop of `parse_table_element_list` in src/parser/parse_table.c does not come to an end.
use schema_compare_c.Base.{
  ℕ, zero, suc, ◌≡◌, refl, sym, ap, subst, Bool, true, false, Bool-cases, inl, inr, ◌||◌, none,
  arith,
}
use schema_compare_c.Text.{Bytes, codes}
use schema_compare_c.Token.{
  Token, token_create, token_alter, token_drop, token_rparen, token_eof, token_like,
  token_identifier, token_comments, token_semicolon, same_type,
}
use schema_compare_c.Parser.{
  Parser, report, parser_check, parser_error, parser_synchronize, pass_statement, starts_statement,
  remaining, returns, runs_on, parser_match, choose,
}
use schema_compare_c.Parser.Parts.{checks_any}
use schema_compare_c.Parser.Tables.{column_def_name, parse_column_def}
use schema_compare_c.Parser.CreateTable.{
  table_constraint_starters, constraint_or_column, parse_table_element, elements_from,
}

parser_error-current : (message : Bytes) (p : Parser) → (parser_error message p).current ≡ p.current
unfolding parser_error report
parser_error-current message p = elim (Bool-cases p.panic_mode) [
  | inl e ↦ rw e refl
  | inr e ↦ rw e refl
]

starts-current :
    (p q : Parser) → q.current ≡ p.current → starts_statement p ≡ true → starts_statement q ≡ true
unfolding parser_check
starts-current p q e h =
    subst
      (λ (t : Token).
        (same_type t.type token_create
          || same_type t.type token_alter
          || same_type t.type token_drop)
        ≡ true)
      (sym e) h

or_right : (a b : Bool) → b ≡ true → (a || b) ≡ true
or_right true b h = refl
or_right false b h = h

-- At CREATE, ALTER or DROP nothing is passed.
pass_statement-starts :
    (fuel : ℕ) (p : Parser) → starts_statement p ≡ true → pass_statement (suc fuel) p ≡ p
unfolding pass_statement
pass_statement-starts fuel p h = elim (Bool-cases (parser_check p token_eof)) [
  | inl e ↦ rw e refl
  | inr e ↦ rw (e, or_right (same_type p.previous.type token_semicolon) (starts_statement p) h) refl
]

synchronize-starts :
    (p : Parser) → starts_statement p ≡ true → starts_statement (parser_synchronize p) ≡ true
unfolding parser_synchronize
synchronize-starts p h =
    let q : Parser = record p { panic_mode = false } in
    let k : starts_statement q ≡ true = starts-current p q refl h in
    starts-current q _ (ap (λ (r : Parser). r.current) (pass_statement-starts (remaining p) q k)) k

-- No table element begins there.
starts-not :
    (p : Parser)
    → starts_statement p ≡ true
    → ((parser_check p token_rparen || parser_check p token_eof) ≡ false)
      × (parser_check p token_like ≡ false)
      × (checks_any p table_constraint_starters ≡ false)
      × ((parser_check p token_identifier || parser_check p token_comments) ≡ false)
unfolding parser_check checks_any
starts-not p h = (ground arith, ground arith, ground arith, ground arith)

parse_table_element-fails :
    (p : Parser)
    → starts_statement p ≡ true
    → parse_table_element p ≡ returns none (parser_error (codes "Expected column name") p)
unfolding parse_table_element constraint_or_column parse_column_def column_def_name choose
    parser_match
parse_table_element-fails p h = let (a, b, c, d) = starts-not p h in rw (b, c, d) refl

-- However long it runs, the loop over the elements of a table does not end once it stands at CREATE,
-- ALTER or DROP, as after `(` in `CREATE TABLE t (create int)`: the element fails, and
-- `parser_synchronize` passes no token.
pub elements_from-runs_on :
    (fuel : ℕ) (p : Parser) → starts_statement p ≡ true → elements_from fuel p ≡ runs_on
unfolding elements_from
elements_from-runs_on zero p h = refl
elements_from-runs_on (suc fuel) p h =
    let (a, b, c, d) = starts-not p h in
    let e = parse_table_element-fails p h in
    let q : Parser = parser_error (codes "Expected column name") p in
    let k : starts_statement q ≡ true =
      starts-current p q (parser_error-current (codes "Expected column name") p) h in
    let rest = elements_from-runs_on fuel (parser_synchronize q) (synchronize-starts q k) in
    rw (a, e) rest
