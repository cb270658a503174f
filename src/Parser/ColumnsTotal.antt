-- ===== src/Parser/ColumnsTotal.antt =====
-- That `parse_data_type` and `parse_column_def` of src/parser/parse_column.c come to an end.
use schema_compare_c.Base.{
  ℕ, zero, suc, ◌+◌, ◌≤◌, ◌<◌, ◌≡◌, refl, sym, ap, ◌∙◌, inl, inr, Bool, true, false, Bool-cases,
  ◌||◌, List, [], ◌∷◌, Option, none, some, is_some, arith, to_nat,
}
use mathlib.Core.Bool.{true≢false}
use schema_compare_c.Text.{Bytes, codes}
use schema_compare_c.Ddl.Constraints.{ColumnConstraint, ColumnConstraintBody}
use schema_compare_c.Ddl.Tables.{ColumnDef}
use schema_compare_c.Token.{
  TokenType, token_constraint, token_identifier, token_eof, token_comments,
}
use schema_compare_c.Parser.{
  Parser, parser_check, parser_advance, remaining, Reply, returns, runs_on, Parsing, parser_match,
  give, choose, clause,
}
use schema_compare_c.Parser.Progress.{parser_advance-shorter}
use schema_compare_c.Parser.Ends.{
  Branches, Within, Ends, never, always, Within-le, and_then-Within, and_then-Within_to, then_Ends,
  passed_Ends, give-Ends, fail-Ends, takes-Ends, weaken_Ends, choose-Ends, or_null-Within,
  parser_error-remaining,
}
use schema_compare_c.Parser.Parts.{checks_any}
use schema_compare_c.Parser.Constraints.{column_branches, constraint_name, parse_column_constraint}
use schema_compare_c.Parser.TableConstraints.{parse_table_constraint}
use schema_compare_c.Parser.ConstraintsTotal.{
  column_branches-Ends, after_name-Ends, with_flags-Ends,
}
use schema_compare_c.Parser.Tables.{
  parse_data_type, or_fail, column_def_name, column_data_type, storage_type, constraint_starters,
  add_constraint, constraint_attribute, column_attribute, attributes_from, column_attributes,
  parse_column_def,
}
use schema_compare_c.Parser.DataTypesTotal.{parse_data_type-Ends}
use schema_compare_c.Parser.TablesTotal.{parse_table_constraint-Ends}

or_fail-Within {ℓ} :
    {A : Type ℓ} (n : ℕ) (message : Bytes) (r : Reply A)
    → Within never n r
    → Within never n (or_fail message r)
or_fail-Within n message (returns none q) w =
    let e = parser_error-remaining message q in omega (arith, e, w)
or_fail-Within n message (returns (some a) q) w = w
or_fail-Within n message runs_on w = w

column_data_type-Ends : Ends never column_data_type
column_data_type-Ends = record {
  within = λ p. or_fail-Within (remaining p) _ (parse_data_type p) (parse_data_type-Ends.within p);
}

storage_type-Ends : Ends never storage_type
unfolding storage_type
storage_type-Ends =
    choose-Ends _
      (
        refl,
        give-Ends,
        (refl, give-Ends, (refl, give-Ends, (refl, give-Ends, (refl, give-Ends, tt)))),
      )
      (fail-Ends _)

-- The tokens of the branches.
abbrev tokens : List (TokenType × Parsing ColumnConstraintBody) → List TokenType
tokens [] = []
tokens ((type, m) ∷ branches) = type ∷ tokens branches

-- Where one of the tokens stands there, it is passed.
choose-hit :
    (branches : List (TokenType × Parsing ColumnConstraintBody))
    (otherwise : Parsing ColumnConstraintBody) (p : Parser)
    → Branches branches
    → checks_any p (tokens branches) ≡ true
    → Within never (remaining (parser_advance p)) (choose branches otherwise p)
unfolding choose checks_any parser_match
choose-hit [] otherwise p b h = absurd (true≢false (sym h))
choose-hit ((type, m) ∷ branches) otherwise p (_, k, b) h =
    elim (Bool-cases (parser_check p type)) [
      | inl e ↦ rw e (k.within (parser_advance p))
      | inr e ↦ rw e (
          choose-hit branches otherwise p b
            (ap (λ x. x || checks_any p (tokens branches)) (sym e) ∙ h))
    ]

clause-hit {ℓ} :
    {A : Type ℓ} {s : A → Bool} (type : TokenType) (m : Parsing A) (p : Parser)
    → Ends s m
    → parser_check p type ≡ true
    → Within never (remaining (parser_advance p)) (clause type m p)
unfolding clause parser_match
clause-hit type m p h e =
    rw e ((then_Ends {s = never} (weaken_Ends h) (λ a. give-Ends)).within (parser_advance p))

clause-miss {ℓ} :
    {A : Type ℓ} (type : TokenType) (m : Parsing A) (p : Parser)
    → parser_check p type ≡ false
    → clause type m p ≡ returns (some none) p
unfolding clause parser_match
clause-miss type m p e = rw e refl

constraint-passes :
    (p : Parser)
    → checks_any p constraint_starters ≡ true
    → Within never (remaining (parser_advance p)) (parse_column_constraint p)
unfolding parse_column_constraint checks_any
constraint-passes p h = elim (Bool-cases (parser_check p token_constraint)) [
  | inl e ↦
      and_then-Within never never (remaining (parser_advance p)) (constraint_name p) _
        (clause-hit token_constraint _ p (takes-Ends token_identifier _ refl) e)
        (λ name q w.
          Within-le never (remaining q) (remaining (parser_advance p)) _ (omega (arith, w))
            ((after_name-Ends name (choose-Ends _ column_branches-Ends (fail-Ends _))).within q))
  | inr e ↦ rw (clause-miss token_constraint _ p e) (
      and_then-Within never never (remaining (parser_advance p)) (choose column_branches _ p) _
        (choose-hit column_branches _ p column_branches-Ends
          (ap (λ x. x || checks_any p (tokens column_branches)) (sym e) ∙ h))
        (λ body q w.
          Within-le never (remaining q) (remaining (parser_advance p)) _ (omega (arith, w))
            ((with_flags-Ends none body).within q)))
]

starters_not_eof :
    (p : Parser) → checks_any p constraint_starters ≡ true → parser_check p token_eof ≡ false
unfolding checks_any parser_check
starters_not_eof p h = ground arith

-- The attributes that may follow pass a token, if any stands there.
added-Within :
    (n : ℕ) (col : ColumnDef) (c : Option ColumnConstraint) (q : Parser)
    → remaining q < n
    → Within is_some n (returns (some (add_constraint col c)) q)
added-Within n col none q h = omega (arith, h)
added-Within n col (some c) q h = omega (arith, h)

constraint_attribute-Ends : (col : ColumnDef) → Ends is_some (constraint_attribute col)
unfolding constraint_attribute
constraint_attribute-Ends col = record {
  within = λ p.
      elim (Bool-cases (checks_any p constraint_starters))
        as (λ _. Within is_some (remaining p) (constraint_attribute col p)) [
          | inr e ↦ rw e (omega arith)
          | inl e ↦
              let k : remaining (parser_advance p) < remaining p =
                parser_advance-shorter p (starters_not_eof p e) in
              rw e (
                and_then-Within_to never is_some (remaining (parser_advance p)) (remaining p) _ _
                  (omega (arith, k))
                  (or_null-Within (remaining (parser_advance p)) (parse_column_constraint p)
                    (constraint-passes p e))
                  (λ c q w. added-Within (remaining p) col c q (omega (arith, w, k))))
        ];
}

column_attribute-Ends : (col : ColumnDef) → Ends is_some (column_attribute col)
unfolding column_attribute
column_attribute-Ends col =
    choose-Ends _
      (
        refl,
        passed_Ends (takes-Ends token_identifier _ refl) (λ _. give-Ends),
        (
          refl,
          then_Ends storage_type-Ends (λ _. give-Ends),
          (refl, passed_Ends (takes-Ends token_identifier _ refl) (λ _. give-Ends), tt),
        ),
      )
      (constraint_attribute-Ends col)

attributes_from-Within :
    (fuel : ℕ) (col : ColumnDef) (p : Parser)
    → remaining p < fuel
    → Within never (remaining p) (attributes_from fuel col p)
unfolding attributes_from
attributes_from-Within zero col p h = absurd (omega (arith, h))
attributes_from-Within (suc fuel) col p h =
    and_then-Within is_some never (remaining p) (column_attribute col p) _
      ((column_attribute-Ends col).within p) (by_attribute (attributes_from-Within fuel))
  where
    by_attribute :
        ((c : ColumnDef)
          → (q : Parser) → remaining q < fuel
          → Within never (remaining q) (attributes_from fuel c q))
        → (o : Option ColumnDef) (q : Parser) → to_nat (is_some o) + remaining q ≤ remaining p
        → Within never (remaining p) (
            (elim o as (λ _. Parsing ColumnDef) [
              | none ↦ give col
              | some c ↦ attributes_from fuel c
            ])
              q)
    by_attribute go none q w = omega (arith, w)
    by_attribute go (some c) q w =
        Within-le never (remaining q) (remaining p) _ (omega (arith, w))
          (go c q (omega (arith, w, h)))

column_attributes-Ends : (col : ColumnDef) → Ends never (column_attributes col)
column_attributes-Ends col = record {
  within = λ p. attributes_from-Within (suc (remaining p)) col p (omega arith);
}

name_not_eof :
    (p : Parser)
    → (parser_check p token_identifier || parser_check p token_comments) ≡ true
    → parser_check p token_eof ≡ false
unfolding parser_check
name_not_eof p h = ground arith

column_def_name-Ends : Ends always column_def_name
unfolding column_def_name
column_def_name-Ends = record {
  within = λ p.
      elim (Bool-cases (parser_check p token_identifier || parser_check p token_comments)) [
        | inr e ↦
            rw e ((fail-Ends {A = Bytes} {s = always} (codes "Expected column name")).within p)
        | inl e ↦
            let k : remaining (parser_advance p) < remaining p =
              parser_advance-shorter p (name_not_eof p e) in
            rw e (omega (arith, k))
      ];
}

parse_column_def-Ends : Ends always parse_column_def
unfolding parse_column_def
parse_column_def-Ends =
    passed_Ends column_def_name-Ends
      (λ _. then_Ends column_data_type-Ends (λ _. column_attributes-Ends _))

-- From any state of the parser `parse_column_def` and `parse_table_constraint` come to an end: they
-- return NULL with no more left to read than before, or a result with less left. So no loop of
-- theirs, and none of the functions that they call, runs out of its fuel.
pub parse_column_def-Within :
    (p : Parser)
    → Within always (remaining p) (parse_column_def p)
      × Within always (remaining p) (parse_table_constraint p)
parse_column_def-Within p = (parse_column_def-Ends.within p, parse_table_constraint-Ends.within p)
