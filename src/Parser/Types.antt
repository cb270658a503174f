-- ===== src/Parser/Types.antt =====
-- src/parser/parse_type.c: CREATE TYPE, with the types ENUM, COMPOSITE and RANGE.
use schema_compare_c.Base.{
  ℕ, zero, suc, ◌-◌, Bool, false, ◌&&◌, ◌||◌, List, [], ◌∷◌, ◌++◌, none, some, ltb, ◌==◌,
  if◌then◌else◌, is_some, length, take,
}
use schema_compare_c.Text.{Bytes, CString, codes}
use schema_compare_c.Text.Strings.{same}
use schema_compare_c.Ddl.Types.{CompositeAttribute, RangeTypeDef}
use schema_compare_c.Token.{
  TokenType, token_identifier, token_string_literal, token_lparen, token_rparen, token_comma,
  token_eof, token_equal, token_subtype, token_collate, token_canonical,
}
use schema_compare_c.Parser.{
  parser_check, parser_advance, parser_match, parser_expect, remaining, Parsing, returns, runs_on,
  ◌>>=◌, ◌>>◌, give, fail, takes, choose, clause,
}
use schema_compare_c.Parser.Parts.{checks_any}
use schema_compare_c.Parser.Tables.{parse_data_type}

-- The last character, for a text that has the first.
abbrev pub last : ℕ → Bytes → ℕ
last c [] = c
last c (d ∷ s) = last d s

abbrev pub is_quoted : ℕ → Bytes → Bool
is_quoted quote [] = false
is_quoted quote (c ∷ s) = c == quote && last c s == quote

-- The text without its first and last characters.
abbrev pub inner : Bytes → Bytes
inner [] = []
inner (_ ∷ s) = take (length s - 1) s

unfoldable pub strip_quotes : Bytes → Bytes
strip_quotes s =
    if ltb (length s) 2 then s else if is_quoted 39 s || is_quoted b'"' s then inner s else s

-- The lexeme of a token of one of these types, which is passed.
unfoldable pub takes_any : List TokenType → Bytes → Parsing Bytes
takes_any types message p =
    if checks_any p types
    then returns (some p.current.lexeme) (parser_advance p)
    else fail message p

-- `while (!check(')') && !check(EOF)) { … if (!match(',')) break; }`, where each round adds to what
-- has been parsed.
unfoldable pub parameters_from {ℓ} : {A : Type ℓ} → ℕ → (A → Parsing A) → A → Parsing A
parameters_from zero parameter a p = runs_on
parameters_from (suc fuel) parameter a p =
    if parser_check p token_rparen || parser_check p token_eof
    then returns (some a) p
    else (parameter a >>= λ a'. do
      more ← parser_match token_comma
      if more then parameters_from fuel parameter a' else give a')
        p

abbrev parameters {ℓ} : {A : Type ℓ} → (A → Parsing A) → A → Parsing A
parameters parameter a p = parameters_from (suc (remaining p)) parameter a p

-- The parameters in brackets.
abbrev pub in_parameters {ℓ} : {A : Type ℓ} → Bytes → (A → Parsing A) → A → Bytes → Parsing A
in_parameters opening parameter a closing = do
  parser_expect token_lparen opening
  a' ← parameters parameter a
  parser_expect token_rparen closing
  give a'

unfoldable pub enum_label : List CString → Parsing (List CString)
enum_label labels = do
  text ← takes token_string_literal (codes "Expected string literal for enum label")
  give (labels ++ some (strip_quotes text) ∷ [])

unfoldable pub parse_enum_type_def : Parsing (List CString)
parse_enum_type_def =
    in_parameters (codes "Expected '(' after ENUM") enum_label []
      (codes "Expected ')' after enum labels")

unfoldable pub composite_attribute : List CompositeAttribute → Parsing (List CompositeAttribute)
composite_attribute attributes = do
  name ← takes token_identifier (codes "Expected attribute name")
  type ← parse_data_type
  collation ←
      clause token_collate
        (takes_any (token_identifier ∷ token_string_literal ∷ []) (codes "Expected collation name"))
  give (
      attributes
      ++ record {
        attr_name = some name;
        data_type = some type;
        collation = elim collation [ none ↦ none | some text ↦ some (strip_quotes text) ];
      }
        ∷ [])

unfoldable pub parse_composite_type_def : Parsing (List CompositeAttribute)
parse_composite_type_def =
    in_parameters (codes "Expected '(' for composite type") composite_attribute []
      (codes "Expected ')' after composite type attributes")

-- `= value` behind the name of a parameter.
abbrev pub assigned {ℓ} : {A : Type ℓ} → Bytes → Parsing A → Parsing A
assigned message value = do parser_expect token_equal message; value

-- `if (check(IDENTIFIER) && strcmp(lexeme, word) == 0) { advance; … } else …`
unfoldable pub choose_word {ℓ} : {A : Type ℓ} → Bytes → Parsing A → Parsing A → Parsing A
choose_word word branch otherwise p =
    if parser_check p token_identifier && same p.current.lexeme word
    then branch (parser_advance p)
    else otherwise p

unfoldable pub range_parameter : RangeTypeDef → Parsing RangeTypeDef
range_parameter d =
    choose
      ((
        token_subtype,
        (do
          name ←
              assigned (codes "Expected '=' after SUBTYPE")
                (takes token_identifier (codes "Expected subtype name"))
          give (record d { subtype = some name })),
      )
        ∷ [])
      (choose_word (codes "subtype_opclass")
        (do
          name ←
              assigned (codes "Expected '=' after SUBTYPE_OPCLASS")
                (takes token_identifier (codes "Expected operator class name"))
          give (record d { subtype_opclass = some name }))
        (choose
          ((
            token_collate,
            (do
              name ← assigned (codes "Expected '=' after COLLATION") (
                  takes_any (token_identifier ∷ token_string_literal ∷ [])
                    (codes "Expected collation name"))
              give (record d { collation = some name })),
          )
            ∷ (
              token_canonical,
              (do
                name ←
                    assigned (codes "Expected '=' after CANONICAL")
                      (takes token_identifier (codes "Expected canonical function name"))
                give (record d { canonical_function = some name })),
            )
            ∷ [])
          (choose_word (codes "subtype_diff")
            (do
              name ←
                  assigned (codes "Expected '=' after SUBTYPE_DIFF")
                    (takes token_identifier (codes "Expected subtype diff function name"))
              give (record d { subtype_diff_function = some name }))
            (choose_word (codes "multirange_type_name")
              (do
                name ←
                    assigned (codes "Expected '=' after MULTIRANGE_TYPE_NAME")
                      (takes token_identifier (codes "Expected multirange type name"))
                give (record d { multirange_type_name = some name }))
              (fail (codes "Unknown RANGE parameter"))))))

abbrev empty_range : RangeTypeDef
empty_range = record {
  subtype = none;
  subtype_opclass = none;
  collation = none;
  canonical_function = none;
  subtype_diff_function = none;
  multirange_type_name = none;
}

unfoldable pub parse_range_type_def : Parsing RangeTypeDef
parse_range_type_def = do
  d ←
      in_parameters (codes "Expected '(' after RANGE") range_parameter empty_range
        (codes "Expected ')' after RANGE parameters")
  if is_some d.subtype then give d else fail (codes "RANGE type requires SUBTYPE parameter")
