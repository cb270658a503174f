-- ===== src/Parser/Schema.antt =====
-- src/parser/parse_schema.c: the statements of a schema.
use schema_compare_c.Base.{
  ℕ, zero, suc, false, ◌||◌, List, [], ◌∷◌, ◌++◌, none, some, if◌then◌else◌,
}
use schema_compare_c.Text.{codes}
use schema_compare_c.Ddl.Types.{Schema, CreateTypeStmt}
use schema_compare_c.Ddl.Tables.{CreateTableStmt}
use schema_compare_c.Token.{
  TokenType, token_create, token_table, token_temporary, token_temp, token_unlogged, token_global,
  token_local, token_type, token_error, token_eof, token_semicolon,
}
use schema_compare_c.Parser.{
  Parser, Reply, returns, runs_on, Parsing, parser_check, parser_error, parser_advance,
  parser_synchronize, remaining, and_then,
}
use schema_compare_c.Parser.Parts.{checks_any}
use schema_compare_c.Parser.CreateTable.{parser_parse_create_table}
use schema_compare_c.Parser.CreateType.{parser_parse_create_type}

-- Back to CREATE, which is the previous token; the lexer stays where it is. Both tokens have the one
-- lexeme then, which is freed with each of them: the model has no addresses.
unfoldable pub step_back : Parser → Parser
step_back p = record p {
  current = p.previous;
  previous = record (p.previous) { type = token_error };
}

abbrev pub table_starters : List TokenType
table_starters =
    token_table ∷ token_temporary ∷ token_temp ∷ token_unlogged ∷ token_global ∷ token_local ∷ []

-- What a statement adds to the schema, if it is not NULL.
unfoldable pub append_table : Schema → Reply CreateTableStmt → Reply Schema
append_table schema (returns none p) = returns (some schema) p
append_table schema (returns (some table) p) =
    returns (some (record schema { tables = schema.tables ++ table ∷ [] })) p
append_table schema runs_on = runs_on

unfoldable pub add_type : Schema → Reply CreateTypeStmt → Reply Schema
add_type schema (returns none p) = returns (some schema) p
add_type schema (returns (some type) p) =
    returns (some (record schema { types = schema.types ++ type ∷ [] })) p
add_type schema runs_on = runs_on

-- Behind CREATE.
unfoldable pub created : Schema → Parsing Schema
created schema p =
    if checks_any p table_starters
    then append_table schema (parser_parse_create_table (step_back p))
    else if parser_check p token_type
    then add_type schema (parser_parse_create_type (step_back p))
    else returns (some schema) (parser_error (codes "Unknown CREATE statement type") p)

unfoldable pub parser_parse_statement : Schema → Parsing Schema
parser_parse_statement schema p =
    if parser_check p token_create
    then created schema (parser_advance p)
    else returns (some schema) (parser_error (codes "Expected CREATE statement") p)

unfoldable pub skip_semicolons : ℕ → Parser → Parser
skip_semicolons zero p = p
skip_semicolons (suc fuel) p =
    let more = skip_semicolons fuel (parser_advance p) in
    if parser_check p token_semicolon then more else p

-- What follows a statement in the loop: after an error, and where no semicolon stands.
unfoldable pub recover : Parser → Parser
recover p = if p.had_error then record (parser_synchronize p) { panic_mode = false } else p

unfoldable pub end_statement : Parser → Parser
end_statement p =
    if parser_check p token_eof || parser_check p token_semicolon
    then p
    else parser_synchronize (parser_error (codes "Expected semicolon after statement") p)

unfoldable pub statements_from : ℕ → Schema → Parsing Schema
statements_from zero schema p = runs_on
statements_from (suc fuel) schema p =
    let q = skip_semicolons (suc (remaining p)) p in
    if parser_check p token_eof
    then returns (some schema) p
    else if parser_check q token_eof
    then returns (some schema) q
    else and_then (parser_parse_statement schema q)
        (λ schema' r. statements_from fuel schema' (end_statement (recover r)))

-- The fuel is a round for each character and token that is left.
unfoldable pub parse_all_statements : Parsing Schema
parse_all_statements p = statements_from (suc (remaining p)) (record { types = []; tables = [] }) p
