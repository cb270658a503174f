-- ===== src/Parser/Parts.antt =====
-- The parts of a constraint in src/parser/parse_constraint.c: expressions, storage parameters, index
-- parameters and sequence options. The text of a string builder is the list of its bytes here.
use schema_compare_c.Base.{
  ℕ, zero, suc, ◌+◌, ◌-◌, ◌*◌, Bool, true, false, not, ◌&&◌, ◌||◌, List, [], ◌∷◌, ◌++◌, Option,
  none, some, ltb, ◌==◌, if◌then◌else◌,
}
use schema_compare_c.Base.Int.{ℤ, pos}
use schema_compare_c.Text.{Bytes, CString, codes}
use schema_compare_c.Text.Ctype.{is_digit}
use schema_compare_c.Ddl.Constraints.{
  StorageParameter, Expression, IndexParameters, SequenceOptions,
}
use schema_compare_c.Token.{
  TokenType, same_type, token_eof, token_lparen, token_rparen, token_comma, token_semicolon,
  token_check, token_constraint, token_not, token_null, token_unique, token_primary,
  token_references, token_collate, token_no, token_deferrable, token_initially, token_enforced,
  token_identifier, token_number, token_string_literal, token_equal, token_with, token_using,
  token_tablespace, token_increment, token_by, token_start, token_minvalue, token_maxvalue,
  token_cycle, token_cache,
}
use schema_compare_c.Parser.{
  Parser, parser_check, parser_advance, parser_match, parser_expect, remaining, Parsing, returns,
  runs_on, ◌>>=◌, ◌>>◌, give, null, fail, optional, takes, choose, clause, separated,
}

-- The tokens at which an expression ends, outside of brackets.
abbrev pub delimiters : List TokenType
delimiters =
    token_comma ∷ token_semicolon ∷ token_rparen ∷ token_check ∷ token_constraint ∷ token_not
    ∷ token_null ∷ token_unique ∷ token_primary ∷ token_references ∷ token_collate ∷ token_no
    ∷ token_deferrable ∷ token_initially ∷ token_enforced ∷ []

unfoldable pub checks_any : Parser → List TokenType → Bool
checks_any p [] = false
checks_any p (type ∷ types) = parser_check p type || checks_any p types

-- The test of an unmatched `)` is left out: such a token is one of the delimiters.
unfoldable pub ends_expression : ℕ → Parser → Bool
ends_expression depth p = parser_check p token_eof || depth == 0 && checks_any p delimiters

unfoldable pub depth_after : ℕ → Parser → ℕ
depth_after depth p =
    if parser_check p token_lparen
    then depth + 1
    else if parser_check p token_rparen
    then depth - 1
    else depth

-- The current token, behind a blank unless it is the first or next to a bracket.
unfoldable pub spaced : Bool → Parser → Bytes
spaced first p =
    if not first
      && not (parser_check p token_lparen)
      && not (parser_check p token_rparen)
      && not (same_type p.previous.type token_lparen)
    then b' ' ∷ p.current.lexeme
    else p.current.lexeme

unfoldable pub expression_from : ℕ → (depth : ℕ) → (first : Bool) → Bytes → Parsing Bytes
expression_from zero depth first text p = runs_on
expression_from (suc fuel) depth first text p =
    let more =
      expression_from fuel (depth_after depth p) false (text ++ spaced first p)
        (parser_advance p) in
    if ends_expression depth p then returns (some text) p else more

abbrev pub expression_alloc : Bytes → Parsing Expression
expression_alloc [] = fail (codes "Expected expression")
expression_alloc (c ∷ text) = give (record { expression = some (c ∷ text) })

unfoldable pub parse_expression : Parsing Expression
parse_expression p = (expression_from (suc (remaining p)) 0 true [] >>= expression_alloc) p

unfoldable pub parameter_value : Parsing Bytes
parameter_value p =
    if parser_check p token_identifier
      || parser_check p token_number
      || parser_check p token_string_literal
    then returns (some p.current.lexeme) (parser_advance p)
    else fail (codes "Expected parameter value") p

unfoldable pub storage_parameter : Parsing StorageParameter
storage_parameter = do
  name ← takes token_identifier (codes "Expected storage parameter name")
  parser_expect token_equal (codes "Expected '=' after parameter name")
  value ← parameter_value
  give (record { name = some name; value = some value })

unfoldable pub parse_with_options : Parsing (List StorageParameter)
parse_with_options = do
  found ← parser_match token_with
  if found
      then (do
        parser_expect token_lparen (codes "Expected '(' after WITH")
        parameters ← separated storage_parameter
        parser_expect token_rparen (codes "Expected ')' after WITH options")
        give parameters)
      else null

-- NULL unless there is something to store.
abbrev pub index_parameters : Option (List StorageParameter) → CString → Parsing IndexParameters
index_parameters none none = null
index_parameters with_options tablespace_name =
    give (record { include = none; with_options = with_options; tablespace_name = tablespace_name })

unfoldable pub parse_index_parameters : Parsing IndexParameters
parse_index_parameters = do
  _ ← clause token_using (takes token_identifier (codes "Expected index method after USING"))
  with_opts ← optional parse_with_options
  tablespace ←
      clause token_tablespace
        (takes token_identifier (codes "Expected tablespace name after TABLESPACE"))
  index_parameters with_opts tablespace

-- The digits at the front of the text, as a number.
unfoldable pub digits_value : ℕ → Bytes → ℕ
digits_value n [] = n
digits_value n (c ∷ text) =
    let more = digits_value (n * 10 + (c - b'0')) text in if is_digit c then more else n

-- The lexeme of a number has no sign. Past the range of a `long`, glibc gives its greatest value.
unfoldable pub atol : Bytes → ℤ
atol text =
    let n = digits_value 0 text in
    pos (if ltb n 9223372036854775807 then n else 9223372036854775807)

unfoldable pub number_after : Bytes → Parsing ℤ
number_after message = do text ← takes token_number message; give (atol text)

abbrev no_options : SequenceOptions
no_options = record {
  has_increment = false;
  increment_by = pos 0;
  has_start = false;
  start_with = pos 0;
  has_minvalue = false;
  is_no_minvalue = false;
  minvalue = pos 0;
  has_maxvalue = false;
  is_no_maxvalue = false;
  maxvalue = pos 0;
  has_cache = false;
  cache = pos 0;
  has_cycle = false;
  cycle = false;
}

unfoldable pub no_option : SequenceOptions → Parsing (Option SequenceOptions)
no_option opts =
    choose
      ((token_minvalue, give (some (record opts { has_minvalue = false; is_no_minvalue = true })))
        ∷ (
          token_maxvalue,
          give (some (record opts { has_maxvalue = false; is_no_maxvalue = true })),
        )
        ∷ (token_cycle, give (some (record opts { has_cycle = true; cycle = false })))
        ∷ [])
      (fail (codes "Expected MINVALUE, MAXVALUE, or CYCLE after NO"))

unfoldable pub increment_option : SequenceOptions → Parsing (Option SequenceOptions)
increment_option opts =
    choose
      ((
        token_by,
        (do
          n ← number_after (codes "Expected number after INCREMENT BY")
          give (some (record opts { has_increment = true; increment_by = n }))),
      )
        ∷ [])
      (fail (codes "Expected BY after INCREMENT"))

unfoldable pub start_option : SequenceOptions → Parsing (Option SequenceOptions)
start_option opts =
    choose
      ((
        token_with,
        (do
          n ← number_after (codes "Expected number after START WITH")
          give (some (record opts { has_start = true; start_with = n }))),
      )
        ∷ [])
      (fail (codes "Expected WITH after START"))

-- One option; `none` where the loop breaks off.
unfoldable pub sequence_option : SequenceOptions → Parsing (Option SequenceOptions)
sequence_option opts =
    choose
      ((token_increment, increment_option opts)
        ∷ (token_start, start_option opts)
        ∷ (token_no, no_option opts)
        ∷ (
          token_minvalue,
          (do
            n ← number_after (codes "Expected number after MINVALUE")
            give
                (some (record opts { has_minvalue = true; is_no_minvalue = false; minvalue = n }))),
        )
        ∷ (
          token_maxvalue,
          (do
            n ← number_after (codes "Expected number after MAXVALUE")
            give
                (some (record opts { has_maxvalue = true; is_no_maxvalue = false; maxvalue = n }))),
        )
        ∷ (
          token_cache,
          (do
            n ← number_after (codes "Expected number after CACHE")
            give (some (record opts { has_cache = true; cache = n }))),
        )
        ∷ (token_cycle, give (some (record opts { has_cycle = true; cycle = true })))
        ∷ [])
      (give none)

unfoldable pub options_from : ℕ → SequenceOptions → Parsing SequenceOptions
options_from zero opts p = runs_on
options_from (suc fuel) opts p =
    if parser_check p token_rparen || parser_check p token_eof
    then returns (some opts) p
    else (sequence_option opts >>= λ o. elim o [
      | none ↦ give opts
      | some opts' ↦ options_from fuel opts'
    ])
        p

unfoldable pub parse_sequence_options : Parsing SequenceOptions
parse_sequence_options p = options_from (suc (remaining p)) no_options p
