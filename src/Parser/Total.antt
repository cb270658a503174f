-- ===== src/Parser/Total.antt =====
-- That the functions of src/parser/parse_constraint.c and src/parser/parse_column.c come to an end.
use schema_compare_c.Base.{
  ℕ, zero, suc, ◌<◌, ◌≡◌, refl, inl, inr, Bool, true, false, Bool-cases, ◌||◌, List, [], ◌∷◌, ◌++◌,
  Option, none, some, arith, if◌then◌else◌,
}
use schema_compare_c.Text.{Bytes, CString}
use schema_compare_c.Ddl.Constraints.{StorageParameter}
use schema_compare_c.Token.{
  token_eof, token_equal, token_identifier, token_lparen, token_rparen, token_with, token_using,
  token_tablespace,
}
use schema_compare_c.Parser.{Parser, parser_check, parser_advance, remaining, returns, Parsing}
use schema_compare_c.Parser.Progress.{parser_advance-shorter, parser_advance-le}
use schema_compare_c.Parser.Ends.{
  Within, Ends, never, always, Within-le, and_then-Within, then_Ends, passed_Ends, give-Ends,
  null-Ends, fail-Ends, expect_Ends, takes-Ends, weaken_Ends, optional-Ends, clause-Ends,
  separated-Ends, if_match_Ends,
}
use schema_compare_c.Parser.Parts.{
  ends_expression, depth_after, spaced, expression_from, expression_alloc, parse_expression,
  parameter_value, storage_parameter, parse_with_options, index_parameters, parse_index_parameters,
}

or_left : (a b : Bool) → (a || b) ≡ false → a ≡ false
or_left true b h = h
or_left false b h = refl

not_ended :
    (depth : ℕ) (p : Parser) → ends_expression depth p ≡ false → parser_check p token_eof ≡ false
unfolding ends_expression
not_ended depth p h = or_left _ _ h

expression_from-Within :
    (fuel depth : ℕ) (first : Bool) (text : Bytes) (p : Parser)
    → remaining p < fuel
    → Within never (remaining p) (expression_from fuel depth first text p)
unfolding expression_from
expression_from-Within zero depth first text p h = absurd (omega (arith, h))
expression_from-Within (suc fuel) depth first text p h =
    elim (Bool-cases (ends_expression depth p)) [
      | inl e ↦ rw e (omega arith)
      | inr e ↦
          let k : remaining (parser_advance p) < remaining p =
            parser_advance-shorter p (not_ended depth p e) in
          rw e (
            Within-le never (remaining (parser_advance p)) (remaining p) _ (omega (arith, k)) (
              expression_from-Within fuel (depth_after depth p) false (text ++ spaced first p)
                (parser_advance p) (omega (arith, h, k))))
    ]

expression_alloc-Ends : (text : Bytes) → Ends never (expression_alloc text)
expression_alloc-Ends [] = fail-Ends _
expression_alloc-Ends (c ∷ text) = give-Ends

pub parse_expression-Ends : Ends never parse_expression
unfolding parse_expression
parse_expression-Ends = record {
  within = λ p.
      and_then-Within never never (remaining p) _ expression_alloc
        (expression_from-Within (suc (remaining p)) 0 true [] p (omega arith))
        (λ text q w.
          Within-le never (remaining q) (remaining p) _ (omega (arith, w))
            ((expression_alloc-Ends text).within q));
}

-- `if (…) { strdup(parser->current.lexeme); parser_advance(parser); }` beside something else.
pub if_advance_Ends {ℓ} :
    {A : Type ℓ} (test : Parser → Bool) (value : Parser → A) {m : Parsing A}
    → Ends never m
    → Ends never (λ p. if test p then returns (some (value p)) (parser_advance p) else m p)
if_advance_Ends test value {m = m} h = record { within = λ p. by_test p (test p) (h.within p) }
  where
    by_test :
        (p : Parser) (b : Bool)
        → Within never (remaining p) (m p)
        → Within never
            (remaining p)
            (if b then returns (some (value p)) (parser_advance p) else m p)
    by_test p true w = let k = parser_advance-le p in omega (arith, k)
    by_test p false w = w

parameter_value-Ends : Ends never parameter_value
unfolding parameter_value
parameter_value-Ends = if_advance_Ends _ (λ p. p.current.lexeme) (fail-Ends _)

storage_parameter-Ends : Ends always storage_parameter
unfolding storage_parameter
storage_parameter-Ends = passed_Ends (takes-Ends token_identifier _ refl) (λ name.
    then_Ends (weaken_Ends (expect_Ends token_equal _ refl))
      (λ _. then_Ends parameter_value-Ends (λ value. give-Ends)))

pub parse_with_options-Ends : Ends never parse_with_options
unfolding parse_with_options
parse_with_options-Ends =
    if_match_Ends token_with refl
      (passed_Ends (expect_Ends token_lparen _ refl) (λ _.
        passed_Ends (separated-Ends storage_parameter-Ends)
          (λ parameters. passed_Ends (expect_Ends token_rparen _ refl) (λ _. give-Ends))))
      null-Ends

index_parameters-Ends :
    (w : Option (List StorageParameter)) (t : CString) → Ends never (index_parameters w t)
index_parameters-Ends none none = null-Ends
index_parameters-Ends none (some t) = give-Ends
index_parameters-Ends (some w) t = give-Ends

pub parse_index_parameters-Ends : Ends never parse_index_parameters
unfolding parse_index_parameters
parse_index_parameters-Ends =
    then_Ends (clause-Ends token_using refl (takes-Ends token_identifier _ refl)) (λ _.
      then_Ends (optional-Ends parse_with_options-Ends) (λ with_opts.
        then_Ends (clause-Ends token_tablespace refl (takes-Ends token_identifier _ refl))
          (λ t. index_parameters-Ends with_opts t)))
