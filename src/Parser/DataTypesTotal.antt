-- ===== src/Parser/DataTypesTotal.antt =====
-- That `parse_data_type` of src/parser/parse_column.c comes to an end.
use schema_compare_c.Base.{
  ℕ, zero, suc, ◌+◌, ◌≤◌, ◌<◌, refl, Bool, true, false, [], ◌∷◌, ◌++◌, arith, if◌then◌else◌, to_nat,
}
use schema_compare_c.Text.{Bytes, codes}
use schema_compare_c.Token.{
  TokenType, token_identifier, token_number, token_comma, token_dot, token_lparen, token_rparen,
  token_lbracket, token_rbracket,
}
use schema_compare_c.Parser.{Parser, remaining, parser_match, ◌>>=◌, ◌>>◌, parser_expect, give}
use schema_compare_c.Parser.Ends.{
  Within, Ends, never, always, Within-le, and_then-Within, then_Ends, passed_Ends, give-Ends,
  null-Ends, match_Ends, expect_Ends, takes-Ends, clause-Ends,
}
use schema_compare_c.Parser.Total.{if_advance_Ends}
use schema_compare_c.Parser.Tables.{
  type_name, lexeme_of, second_word, qualifier, type_modifier, arrays_from, array_notation,
  parse_data_type,
}

type_name-Ends : Ends never type_name
unfolding type_name
type_name-Ends = if_advance_Ends _ (λ p. p.current.lexeme) null-Ends

lexeme_of-Ends : (type : TokenType) → Ends never (lexeme_of type)
unfolding lexeme_of
lexeme_of-Ends type = if_advance_Ends _ (λ p. p.current.lexeme) (give-Ends {a = []})

second_word-Ends : (base : Bytes) → Ends never (second_word base)
unfolding second_word
second_word-Ends base = if_advance_Ends _ (λ p. b' ' ∷ p.current.lexeme) (give-Ends {a = []})

qualifier-Ends : Ends never qualifier
unfolding qualifier
qualifier-Ends =
    then_Ends (clause-Ends token_dot refl (takes-Ends token_identifier _ refl)) (λ _. give-Ends)

type_modifier-Ends : Ends never type_modifier
unfolding type_modifier
type_modifier-Ends =
    then_Ends
      (clause-Ends {s = always} token_lparen refl (
        passed_Ends (takes-Ends token_number _ refl) (λ _.
          then_Ends (clause-Ends token_comma refl (takes-Ends token_number _ refl))
            (λ _. passed_Ends (expect_Ends token_rparen _ refl) (λ _. give-Ends)))))
      (λ _. give-Ends)

arrays_from-Within :
    (fuel : ℕ) (p : Parser) → remaining p < fuel → Within never (remaining p) (arrays_from fuel p)
unfolding arrays_from
arrays_from-Within zero p h = absurd (omega (arith, h))
arrays_from-Within (suc fuel) p h =
    and_then-Within (λ b. b) never (remaining p) (parser_match token_lbracket p) _
      ((match_Ends token_lbracket refl).within p) (by_found (arrays_from-Within fuel))
  where
    by_found :
        ((q : Parser) → remaining q < fuel → Within never (remaining q) (arrays_from fuel q))
        → (b : Bool) (q : Parser) → to_nat b + remaining q ≤ remaining p
        → Within never (remaining p) (
            (if b
                then (lexeme_of token_number >>= (λ size.
                    parser_expect token_rbracket (codes "Expected ']' in array type")
                    >> (arrays_from fuel
                        >>= (λ rest. give (codes "[" ++ size ++ codes "]" ++ rest)))))
                else give [])
              q)
    by_found go false q w = omega (arith, w)
    by_found go true q w = Within-le never (remaining q) (remaining p) _ (omega (arith, w)) (
        and_then-Within never never (remaining q) (lexeme_of token_number q) _
          ((lexeme_of-Ends token_number).within q)
          (λ size r v.
            and_then-Within always never (remaining q)
              (parser_expect token_rbracket (codes "Expected ']' in array type") r) _
              (Within-le always (remaining r) (remaining q) _ (omega (arith, v))
                ((expect_Ends token_rbracket _ refl).within r))
              (λ _ t x.
                and_then-Within never never (remaining q) (arrays_from fuel t) _
                  (Within-le never (remaining t) (remaining q) _ (omega (arith, x))
                    (go t (omega (arith, x, w, h))))
                  (λ rest u y. omega (arith, y)))))

array_notation-Ends : Ends never array_notation
unfolding array_notation
array_notation-Ends = record {
  within = λ p. arrays_from-Within (suc (remaining p)) p (omega arith);
}

pub parse_data_type-Ends : Ends never parse_data_type
unfolding parse_data_type
parse_data_type-Ends = then_Ends type_name-Ends (λ base. then_Ends (second_word-Ends base) (λ _.
    then_Ends qualifier-Ends
      (λ _. then_Ends type_modifier-Ends (λ _. then_Ends array_notation-Ends (λ _. give-Ends)))))
