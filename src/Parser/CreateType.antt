-- ===== src/Parser/CreateType.antt =====
-- src/parser/parse_type.c: the parameters of a base type, and the statement CREATE TYPE.
use schema_compare_c.Base.{true, false, ◌&&◌, [], ◌∷◌, ◌++◌, none, some, if◌then◌else◌, is_some}
use schema_compare_c.Base.Int.{pos}
use schema_compare_c.Text.{Bytes, codes}
use schema_compare_c.Ddl.Types.{
  BaseTypeDef, TypeDef, enum_def, composite_def, range_def, base_def, CreateTypeStmt,
}
use schema_compare_c.Token.{
  token_identifier, token_lparen, token_input, token_output, token_receive, token_send,
  token_typmod_in, token_typmod_out, token_analyze, token_dot, token_as, token_enum, token_range,
  token_create, token_type, token_if, token_not, token_exists,
}
use schema_compare_c.Parser.{
  parser_check, parser_expect, Parsing, ◌>>=◌, ◌>>◌, give, fail, takes, choose, clause,
}
use schema_compare_c.Parser.Types.{
  in_parameters, parse_enum_type_def, parse_composite_type_def, parse_range_type_def,
}
use schema_compare_c.Parser.BaseTypes.{identifier_after, layout_parameter}

unfoldable pub base_parameter : BaseTypeDef → Parsing BaseTypeDef
base_parameter d =
    choose
      ((
        token_input,
        (do
          name ←
              identifier_after (codes "Expected '=' after INPUT")
                (codes "Expected input function name")
          give (record d { input_function = name })),
      )
        ∷ (
          token_output,
          (do
            name ←
                identifier_after (codes "Expected '=' after OUTPUT")
                  (codes "Expected output function name")
            give (record d { output_function = name })),
        )
        ∷ (
          token_receive,
          (do
            name ←
                identifier_after (codes "Expected '=' after RECEIVE")
                  (codes "Expected receive function name")
            give (record d { receive_function = name })),
        )
        ∷ (
          token_send,
          (do
            name ←
                identifier_after (codes "Expected '=' after SEND")
                  (codes "Expected send function name")
            give (record d { send_function = name })),
        )
        ∷ (
          token_typmod_in,
          (do
            name ←
                identifier_after (codes "Expected '=' after TYPMOD_IN")
                  (codes "Expected typmod_in function name")
            give (record d { typmod_in_function = name })),
        )
        ∷ (
          token_typmod_out,
          (do
            name ←
                identifier_after (codes "Expected '=' after TYPMOD_OUT")
                  (codes "Expected typmod_out function name")
            give (record d { typmod_out_function = name })),
        )
        ∷ (
          token_analyze,
          (do
            name ←
                identifier_after (codes "Expected '=' after ANALYZE")
                  (codes "Expected analyze function name")
            give (record d { analyze_function = name })),
        )
        ∷ [])
      (layout_parameter d)

abbrev empty_base : BaseTypeDef
empty_base = record {
  input_function = none;
  output_function = none;
  receive_function = none;
  send_function = none;
  typmod_in_function = none;
  typmod_out_function = none;
  analyze_function = none;
  internallength = pos 0;
  is_variable_length = false;
  has_internallength = false;
  passedbyvalue = false;
  has_passedbyvalue = false;
  alignment = 0;
  has_alignment = false;
  storage = 0;
  has_storage = false;
  like_type = none;
  category = 0;
  has_category = false;
  preferred = false;
  has_preferred = false;
  default_value = none;
  element_type = none;
  delimiter = 0;
  has_delimiter = false;
  collatable = none;
}

unfoldable pub parse_base_type_def : Parsing BaseTypeDef
parse_base_type_def = do
  d ←
      in_parameters (codes "Expected '(' for BASE type") base_parameter empty_base
        (codes "Expected ')' after BASE type parameters")
  if is_some d.input_function && is_some d.output_function
      then give d
      else fail (codes "BASE type requires INPUT and OUTPUT functions")

-- A name, or `schema.name`.
unfoldable pub qualified_name : Parsing Bytes
qualified_name = do
  name ← takes token_identifier (codes "Expected type name")
  second ← clause token_dot (takes token_identifier (codes "Expected type name after '.'"))
  give (elim second [ none ↦ name | some s ↦ name ++ codes "." ++ s ])

unfoldable pub composite_or_error : Parsing TypeDef
composite_or_error p =
    if parser_check p token_lparen
    then (parse_composite_type_def >>= λ attributes. give (composite_def attributes)) p
    else fail (codes "Expected ENUM, RANGE, or '(' after AS") p

unfoldable pub base_or_error : Parsing TypeDef
base_or_error p =
    if parser_check p token_lparen
    then (parse_base_type_def >>= λ d. give (base_def d)) p
    else fail (codes "Expected AS or '(' after type name") p

unfoldable pub type_variant : Parsing TypeDef
type_variant =
    choose
      ((
        token_as,
        choose
            ((token_enum, (do labels ← parse_enum_type_def; give (enum_def labels)))
              ∷ (token_range, (do d ← parse_range_type_def; give (range_def d)))
              ∷ [])
            composite_or_error,
      )
        ∷ [])
      base_or_error

unfoldable pub parser_parse_create_type : Parsing CreateTypeStmt
parser_parse_create_type = do
  parser_expect token_create (codes "Expected CREATE")
  parser_expect token_type (codes "Expected TYPE")
  exists ← clause token_if (do
    parser_expect token_not (codes "Expected NOT after IF")
    parser_expect token_exists (codes "Expected EXISTS after IF NOT")
    give true)
  name ← qualified_name
  definition ← type_variant
  give (record { type_name = some name; if_not_exists = is_some exists; type_def = definition })
