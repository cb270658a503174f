-- ===== src/Parser.antt =====
-- src/parser/parser.c and include/parser.h: the parser's state, its errors, and the steps that all
-- the parsing functions are made of. Memory is not short, and the log is not modelled.
pub mod Progress
pub mod Ends
pub mod Parts
pub mod Constraints
pub mod TableConstraints
pub mod Tables
pub mod Total
pub mod SequenceTotal
pub mod ConstraintsTotal
pub mod TablesTotal
pub mod DataTypesTotal
pub mod ColumnsTotal
pub mod Stuck
pub mod CreateTable
pub mod Types
pub mod BaseTypes
pub mod CreateType
pub mod Schema
pub mod Statements
use schema_compare_c.Base.{
  ℕ, zero, suc, ◌+◌, Bool, true, false, not, ◌&&◌, ◌||◌, List, [], ◌∷◌, ◌++◌, Option, none, some,
  if◌then◌else◌, length, take, to_nat,
}
use schema_compare_c.Base.Int.{ℤ, pos}
use schema_compare_c.Text.{Bytes, codes}
use schema_compare_c.Token.{
  TokenType, Token, same_type, token_eof, token_error, token_semicolon, token_comma, token_create,
  token_alter, token_drop,
}
use schema_compare_c.Lexer.{Lexer, lexer_init, lexer_next_token}

pub record ParseError : Type 0 where
  pub message : Bytes
  pub line : ℕ
  pub column : ℤ

-- `errors` has the latest error first.
pub record Parser : Type 0 where
  pub lexer : Lexer
  pub current : Token
  pub previous : Token
  pub errors : List ParseError
  pub had_error : Bool
  pub panic_mode : Bool

-- `previous` before the first token: its lexeme is NULL, which is never read.
abbrev no_token : Token
no_token = record { type = token_eof; lexeme = []; length = 0; line = 0; column = pos 0 }

unfoldable pub parser_create : Bytes → Parser
parser_create source =
    let (token, lexer) = lexer_next_token (lexer_init source) in
    record {
      lexer = lexer;
      current = token;
      previous = no_token;
      errors = [];
      had_error = false;
      panic_mode = false;
    }

-- The message is cut to the buffer of 512 bytes with its terminator.
unfoldable pub report : Bytes → Parser → Parser
report message p = record p {
  errors =
      record { message = take 511 message; line = p.current.line; column = p.current.column }
      ∷ p.errors;
  had_error = true;
  panic_mode = true;
}

-- Only the first error up to the next `parser_synchronize` is kept.
unfoldable pub parser_error : Bytes → Parser → Parser
parser_error message p = if p.panic_mode then p else report message p

unfoldable pub parser_check : Parser → TokenType → Bool
parser_check p type = same_type p.current.type type

-- `parser->current = lexer_next_token(&parser->lexer)`
unfoldable pub read_token : Parser → Parser
read_token p =
    let (token, lexer) = lexer_next_token p.lexer in record p { current = token; lexer = lexer }

-- The loop of `parser_advance`: it passes the errors of the lexer.
unfoldable pub skip_errors : ℕ → Parser → Parser
skip_errors zero p = p
skip_errors (suc fuel) p =
    let q = read_token p in
    let more = skip_errors fuel (parser_error (codes "Lexer error: " ++ q.current.lexeme) q) in
    if same_type q.current.type token_error then more else q

-- A token takes a character at least, or is the end of the text.
unfoldable pub parser_advance : Parser → Parser
parser_advance p = skip_errors (suc (length p.lexer.current)) (record p { previous = p.current })

-- What `remaining` measures is the text that the lexer has not read, and the current token unless
-- that is the end.
unfoldable pub remaining : Parser → ℕ
remaining p = length p.lexer.current + to_nat (not (parser_check p token_eof))

-- Where `parser_synchronize` stops.
abbrev pub starts_statement : Parser → Bool
starts_statement p =
    parser_check p token_create || parser_check p token_alter || parser_check p token_drop

-- The loop of `parser_synchronize`.
unfoldable pub pass_statement : ℕ → Parser → Parser
pass_statement zero p = p
pass_statement (suc fuel) p =
    let more = pass_statement fuel (parser_advance p) in
    if parser_check p token_eof
    then p
    else if same_type p.previous.type token_semicolon || starts_statement p
    then p
    else more

unfoldable pub parser_synchronize : Parser → Parser
parser_synchronize p = pass_statement (suc (remaining p)) (record p { panic_mode = false })

-- How a parsing function ends: with a result or NULL, or never, as far as the fuel of its loops goes.
pub data Reply {ℓ} (A : Type ℓ) : Type ℓ where
  returns : Option A → Parser → Reply A
  runs_on : Reply A

abbrev pub Parsing {ℓ} : Type ℓ → Type ℓ
Parsing A = Parser → Reply A

-- A function that gets NULL from a part of it returns NULL.
abbrev pub and_then {ℓ κ} : {A : Type ℓ} {B : Type κ} → Reply A → (A → Parsing B) → Reply B
and_then (returns none p) f = returns none p
and_then (returns (some a) p) f = f a p
and_then runs_on f = runs_on

infixl 5 ◌>>=◌ ◌>>◌
abbrev pub ◌>>=◌ {ℓ κ} : {A : Type ℓ} {B : Type κ} → Parsing A → (A → Parsing B) → Parsing B
◌>>=◌ m f p = and_then (m p) f

abbrev pub ◌>>◌ {ℓ} : {B : Type ℓ} → Parsing (Unit {0}) → Parsing B → Parsing B
m >> k = m >>= λ _. k

abbrev pub give {ℓ} : {A : Type ℓ} → A → Parsing A
give a p = returns (some a) p

-- `return NULL;`
abbrev pub null {ℓ} : {A : Type ℓ} → Parsing A
null p = returns none p

-- An error, and `return NULL;`.
abbrev pub fail {ℓ} : {A : Type ℓ} → Bytes → Parsing A
fail message p = returns none (parser_error message p)

-- The result of a call that may be NULL, for a caller that goes on all the same.
abbrev pub or_null {ℓ} : {A : Type ℓ} → Reply A → Reply (Option A)
or_null (returns a p) = returns (some a) p
or_null runs_on = runs_on

abbrev pub optional {ℓ} : {A : Type ℓ} → Parsing A → Parsing (Option A)
optional m p = or_null (m p)

abbrev pub checks : TokenType → Parsing Bool
checks type p = returns (some (parser_check p type)) p

abbrev pub advances : Parsing (Unit {0})
advances p = returns (some tt) (parser_advance p)

unfoldable pub parser_match : TokenType → Parsing Bool
parser_match type p =
    if parser_check p type then returns (some true) (parser_advance p) else returns (some false) p

-- Its callers return NULL when it returns false.
unfoldable pub parser_expect : TokenType → Bytes → Parsing (Unit {0})
parser_expect type message p =
    if parser_check p type
    then returns (some tt) (parser_advance p)
    else returns none (parser_error message p)

-- `if (!parser_check(parser, type)) { error; return NULL; }`, and the lexeme, which is passed.
unfoldable pub takes : TokenType → Bytes → Parsing Bytes
takes type message p =
    if parser_check p type
    then returns (some p.current.lexeme) (parser_advance p)
    else returns none (parser_error message p)

-- `if (parser_match(parser, type)) … else if …`: the first of these whose token stands there, which
-- is passed; else the last.
unfoldable pub choose {ℓ} : {A : Type ℓ} → List (TokenType × Parsing A) → Parsing A → Parsing A
choose [] otherwise = otherwise
choose ((type, branch) ∷ branches) otherwise = do
  found ← parser_match type
  if found then branch else choose branches otherwise

-- `if (parser_match(parser, type)) { … }` around a part that gives a value.
unfoldable pub clause {ℓ} : {A : Type ℓ} → TokenType → Parsing A → Parsing (Option A)
clause type m = do
  found ← parser_match type
  if found then m >>= (λ a. give (some a)) else give none

-- `do { … } while (parser_match(parser, TOKEN_COMMA));`, where each round gives an item.
unfoldable pub items_from {ℓ} : {A : Type ℓ} → ℕ → Parsing A → Parsing (List A)
items_from zero item = λ p. runs_on
items_from (suc fuel) item = do
  a ← item
  more ← parser_match token_comma
  if more then items_from fuel item >>= (λ rest. give (a ∷ rest)) else give (a ∷ [])

unfoldable pub separated {ℓ} : {A : Type ℓ} → Parsing A → Parsing (List A)
separated item p = items_from (suc (remaining p)) item p
