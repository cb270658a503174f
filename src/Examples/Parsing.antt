-- ===== src/Examples/Parsing.antt =====
-- Runs of src/parser on small texts, and its theorems at them.
use schema_compare_c.Base.{◌≡◌, refl, [], map}
use schema_compare_c.Base.Int.{pos}
use schema_compare_c.Text.{codes}
use schema_compare_c.Text.Ctype.{to_lower, is_alpha, is_digit}
use schema_compare_c.Token.{token_create}
use schema_compare_c.Token.Keywords.{keywords, is_keyword}
use schema_compare_c.Token.Keywords.Search.{find_keyword, is_keyword-find_keyword}
use schema_compare_c.Lexer.{
  Lexer, lexer_init, lexer_next_token, skip_whitespace, move_to, skip_from, skip_step, token_from,
  symbol_token, punctuation, other_token, string_literal, pass_literal, close_quoted, advance,
  advance_cursor, make_token, token_length,
}
use schema_compare_c.Lexer.Next.{IsNext, lexer_next_token-IsNext, Reports, lexer_next_token-Reports}
use schema_compare_c.Parser.{
  Parser, runs_on, parser_create, parser_check, parser_advance, parser_synchronize, remaining,
}
use schema_compare_c.Parser.Progress.{StopsFrom, parser_synchronize-StopsFrom}
use schema_compare_c.Parser.Tables.{parse_column_def}
use schema_compare_c.Parser.TableConstraints.{parse_table_constraint}
use schema_compare_c.Parser.Ends.{Within, always}
use schema_compare_c.Parser.ColumnsTotal.{parse_column_def-Within}
use schema_compare_c.Parser.CreateTable.{elements_from}
use schema_compare_c.Ddl.Types.{Schema}
use schema_compare_c.Base.{true, false, some}
use schema_compare_c.Text.Strings.{strcmp}
use schema_compare_c.Text.Ctype.{is_alnum}
use schema_compare_c.Token.{token_table, token_semicolon, token_identifier}
use schema_compare_c.Token.Keywords.{search_from}
use schema_compare_c.Lexer.{identifier, advance_while, pass_while}
use schema_compare_c.Parser.{returns, parser_error, skip_errors, read_token, report}
use schema_compare_c.Parser.Parts.{checks_any}
use schema_compare_c.Parser.Schema.{
  step_back, table_starters, parser_parse_statement, statements_from,
}
use schema_compare_c.Parser.Statements.{parser_parse_statement_lem, statements_from-runs_on}
use schema_compare_c.Parser.Stuck.{elements_from-runs_on}

is_keyword-find_keyword_example :
    is_keyword (codes "Table") ≡ find_keyword (map to_lower (codes "Table")) keywords
is_keyword-find_keyword_example = is_keyword-find_keyword (codes "Table")

abbrev two_names : Lexer
two_names = lexer_init (codes " id, -- the key\n x1")

lexer_next_token-IsNext_example :
    IsNext two_names (lexer_next_token two_names).0 (lexer_next_token two_names).1
lexer_next_token-IsNext_example = lexer_next_token-IsNext two_names

abbrev open_literal : Lexer
open_literal = lexer_init (codes "'abc")

lexer_next_token-Reports_example :
    Reports open_literal (lexer_next_token open_literal).0 (lexer_next_token open_literal).1
lexer_next_token-Reports_example = lexer_next_token-Reports open_literal

abbrev column_text : Parser
column_text = parser_create (codes "id INTEGER > NOT NULL DEFAULT (a); x")

parser_synchronize-StopsFrom_example : StopsFrom column_text (parser_synchronize column_text)
parser_synchronize-StopsFrom_example = parser_synchronize-StopsFrom column_text

parse_column_def-Within_example :
    Within always (remaining column_text) (parse_column_def column_text)
    × Within always (remaining column_text) (parse_table_constraint column_text)
parse_column_def-Within_example = parse_column_def-Within column_text

-- Behind the bracket of `CREATE TABLE t (create`.
abbrev at_create : Parser
at_create = record (parser_create []) {
  current = record {
    type = token_create;
    lexeme = codes "create";
    length = 6;
    line = 1;
    column = pos 17;
  };
}

elements_from-runs_on_example : elements_from 1000 at_create ≡ runs_on
unfolding parser_check
elements_from-runs_on_example = elements_from-runs_on 1000 at_create refl

-- An empty literal takes what follows, up to the quote of the next one.
empty_literal : (lexer_next_token (lexer_init (codes "'', 'b'"))).0.lexeme ≡ codes "'', '"
unfolding lexer_next_token skip_whitespace move_to skip_from skip_step token_from symbol_token
    punctuation other_token string_literal pass_literal close_quoted advance advance_cursor
    make_token token_length lexer_init is_alpha is_digit
empty_literal = refl

-- At CREATE, before ` TABLE t (`.
abbrev before_table : Parser
before_table = record at_create { lexer = lexer_init (codes " TABLE t (") }

abbrev empty_schema : Schema
empty_schema = record { types = []; tables = [] }

table_follows : parser_check (parser_advance before_table) token_table ≡ true
unfolding parser_check parser_advance skip_errors read_token parser_error report lexer_next_token
    skip_whitespace move_to skip_from skip_step token_from identifier advance advance_cursor
    advance_while pass_while make_token token_length is_keyword search_from strcmp lexer_init
    is_alpha is_alnum is_digit to_lower
table_follows = refl

name_follows :
    checks_any (parser_advance (step_back (parser_advance before_table))) table_starters ≡ false
unfolding step_back checks_any parser_check parser_advance skip_errors read_token parser_error
    report lexer_next_token skip_whitespace move_to skip_from skip_step token_from identifier
    advance advance_cursor advance_while pass_while make_token token_length is_keyword search_from
    strcmp lexer_init is_alpha is_alnum is_digit to_lower
name_follows = refl

parser_parse_statement_lem_example :
    parser_parse_statement empty_schema before_table
    ≡ returns (some empty_schema) (
        parser_error
          (codes "Expected TABLE")
          (parser_advance (step_back (parser_advance before_table))))
unfolding parser_check
parser_parse_statement_lem_example =
    parser_parse_statement_lem empty_schema before_table refl table_follows name_follows

-- Behind the semicolon of `; x`.
abbrev at_stray : Parser
at_stray = record at_create {
  previous = record {
    type = token_semicolon;
    lexeme = codes ";";
    length = 1;
    line = 1;
    column = pos 1;
  };
  current = record {
    type = token_identifier;
    lexeme = codes "x";
    length = 1;
    line = 1;
    column = pos 3;
  };
}

statements_from-runs_on_example : statements_from 1000 empty_schema at_stray ≡ runs_on
unfolding parser_check
statements_from-runs_on_example =
    statements_from-runs_on 1000 empty_schema at_stray refl (refl, refl, refl)
