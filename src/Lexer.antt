-- ===== src/Lexer.antt =====
-- src/parser/lexer.c: from the text of a schema to tokens. The pointers `start` and `current` into
-- the source are the texts from there on, so their distance is the difference of two lengths, and at
-- the end of the source `*current` is the terminator, which is 0. A string holds no other 0.

pub mod Progress
pub mod Blanks
pub mod Skips
pub mod Scans
pub mod Next
use schema_compare_c.Base.{
  ℕ, zero, suc, ◌+◌, ◌-◌, Bool, true, false, not, ◌&&◌, ◌||◌, List, [], ◌∷◌, ◌++◌, Option, none,
  some, ◌==◌, if◌then◌else◌, length, take,
}
use schema_compare_c.Base.Int.{pos, sub_ℕ}
use schema_compare_c.Text.{Bytes, CString, codes}
use schema_compare_c.Text.Ctype.{is_alnum, is_alpha, is_digit}
use schema_compare_c.Token.{
  TokenType, Token, token_identifier, token_string_literal, token_number, token_lparen,
  token_rparen, token_comma, token_semicolon, token_dot, token_equal, token_coloncolon,
  token_lbracket, token_rbracket, token_eof, token_error,
}
use schema_compare_c.Token.Keywords.{is_keyword}

pub record Lexer : Type 0 where
  pub source : Bytes
  pub start : Bytes
  pub current : Bytes
  pub line : ℕ
  pub column : ℕ
  pub had_error : Bool
  pub error_message : CString

unfoldable pub lexer_init : Bytes → Lexer
lexer_init source = record {
  source = source;
  start = source;
  current = source;
  line = 1;
  column = 1;
  had_error = false;
  error_message = none;
}

-- `*lexer->current`, for a text from `current` on.
abbrev pub peek : Bytes → ℕ
peek [] = 0
peek (c ∷ _) = c

-- Where a loop stands: the text from `current` on, the line and the column.
pub record Cursor : Type 0 where
  pub rest : Bytes
  pub line : ℕ
  pub column : ℕ

-- The loops of `skip_whitespace`: the outer one, the one for a comment to the end of the line, and
-- the one for a comment in `/*` and `*/`, before its `*` and before its last `/` as well.
pub data Skip : Type 0 where
  blank in_line opening in_block closing : Skip

-- What the loop does at the character `c` with `next` behind it: `none` to return, or else the loop
-- that goes on when `c` is passed.
unfoldable pub skip_step : Skip → (c : ℕ) → (next : ℕ) → Option Skip
skip_step blank c next =
    if c == 32 || c == b'\r' || c == b'\t' || c == b'\n'
    then some blank
    else if c == b'-' && next == b'-'
    then some in_line
    else if c == b'/' && next == b'*'
    then some opening
    else none
skip_step in_line c next = some (if c == b'\n' then blank else in_line)
skip_step opening c next = some in_block
skip_step in_block c next = some (if c == b'*' && next == b'/' then closing else in_block)
skip_step closing c next = some blank

unfoldable pub skip_from : Skip → Bytes → (line : ℕ) → (column : ℕ) → Cursor
skip_from mode [] line column = record { rest = []; line = line; column = column }
skip_from mode (c ∷ rest) line column = elim (skip_step mode c (peek rest)) [
  | none ↦ record { rest = c ∷ rest; line = line; column = column }
  | some mode' ↦
      let line' = if c == b'\n' then line + 1 else line in
      let column' = if c == b'\n' then 1 else column + 1 in skip_from mode' rest line' column'
]

unfoldable pub move_to : Lexer → Cursor → Lexer
move_to lexer at = record lexer { current = at.rest; line = at.line; column = at.column }

unfoldable pub skip_whitespace : Lexer → Lexer
skip_whitespace lexer = move_to lexer (skip_from blank lexer.current lexer.line lexer.column)

-- `lexer->current - lexer->start`
unfoldable pub token_length : Lexer → ℕ
token_length lexer = length lexer.start - length lexer.current

unfoldable pub make_token : Lexer → TokenType → Token
make_token lexer type = record {
  type = type;
  lexeme = take (token_length lexer) lexer.start;
  length = token_length lexer;
  line = lexer.line;
  column = sub_ℕ lexer.column (token_length lexer);
}

unfoldable pub error_token : Lexer → Bytes → Token × Lexer
error_token lexer message = (
  record {
    type = token_error;
    lexeme = message;
    length = length message;
    line = lexer.line;
    column = pos lexer.column;
  },
  record lexer { had_error = true; error_message = some message },
)

-- At the end nothing changes.
unfoldable pub advance_cursor : Bytes → (line : ℕ) → (column : ℕ) → Cursor
advance_cursor [] line column = record { rest = []; line = line; column = column }
advance_cursor (_ ∷ rest) line column = record { rest = rest; line = line; column = column + 1 }

unfoldable pub advance : Lexer → Lexer
advance lexer = move_to lexer (advance_cursor lexer.current lexer.line lexer.column)

-- `while (p(peek(lexer))) advance(lexer);`, for a `p` that is false of the terminator.
unfoldable pub pass_while : (ℕ → Bool) → Bytes → (line : ℕ) → (column : ℕ) → Cursor
pass_while p [] line column = record { rest = []; line = line; column = column }
pass_while p (c ∷ rest) line column =
    let more = pass_while p rest line (column + 1) in
    if p c then more else record { rest = c ∷ rest; line = line; column = column }

unfoldable pub advance_while : (ℕ → Bool) → Lexer → Lexer
advance_while p lexer = move_to lexer (pass_while p lexer.current lexer.line lexer.column)

abbrev pub is_word : ℕ → Bool
is_word c = is_alnum c || c == b'_'

-- A word that is not a keyword is an identifier.
abbrev pub word_type : Option TokenType → TokenType
word_type none = token_identifier
word_type (some type) = type

unfoldable pub identifier : Lexer → Token × Lexer
identifier lexer =
    let after = advance_while is_word lexer in
    let text = take (token_length after) after.start in
    (make_token after (word_type (is_keyword text)), after)

-- The loop of `quoted_identifier`, up to the next quote. Its branch for two quotes stands behind the
-- loop's condition, which has failed at the first of them, so it is never taken.
unfoldable pub pass_quoted : Bytes → (line : ℕ) → (column : ℕ) → Cursor
pass_quoted [] line column = record { rest = []; line = line; column = column }
pass_quoted (c ∷ rest) line column =
    let line' = if c == b'\n' then line + 1 else line in
    let column' = if c == b'\n' then 1 else column + 1 in
    let more = pass_quoted rest line' column' in
    if c == b'"' then record { rest = c ∷ rest; line = line; column = column } else more

-- The loop of `string_literal`, where `escaped` says that a backslash has just been passed. Its
-- branch for two quotes is never taken, as above.
unfoldable pub pass_literal : (escaped : Bool) → Bytes → (line : ℕ) → (column : ℕ) → Cursor
pass_literal escaped [] line column = record { rest = []; line = line; column = column }
pass_literal true (c ∷ rest) line column = pass_literal false rest line (column + 1)
pass_literal false (c ∷ rest) line column =
    let line' = if c == b'\n' then line + 1 else line in
    let column' = if c == b'\n' then 1 else column + 1 in
    let more = pass_literal (c == b'\\') rest line' column' in
    if c == 39 then record { rest = c ∷ rest; line = line; column = column } else more

-- The end of a quoted token: an error if there is no closing quote, which is passed otherwise.
unfoldable pub close_quoted : TokenType → Bytes → Lexer → Token × Lexer
close_quoted type message lexer = elim lexer.current [
  | [] ↦ error_token lexer message
  | _ ∷ _ ↦ (make_token (advance lexer) type, advance lexer)
]

-- The opening quote is passed already when these are called, so the first `advance` passes the first
-- character between the quotes, whatever it is.
unfoldable pub quoted_identifier : Lexer → Token × Lexer
quoted_identifier lexer =
    let opened = advance lexer in
    close_quoted token_identifier (codes "Unterminated quoted identifier")
      (move_to opened (pass_quoted opened.current opened.line opened.column))

unfoldable pub string_literal : Lexer → Token × Lexer
string_literal lexer =
    let opened = advance lexer in
    close_quoted token_string_literal (codes "Unterminated string literal")
      (move_to opened (pass_literal false opened.current opened.line opened.column))

-- `peek_next`
abbrev pub peek_next : Bytes → ℕ
peek_next [] = 0
peek_next (_ ∷ rest) = peek rest

unfoldable pub decimal_part : Lexer → Lexer
decimal_part lexer =
    if peek lexer.current == b'.' && is_digit (peek_next lexer.current)
    then advance_while is_digit (advance lexer)
    else lexer

unfoldable pub exponent_sign : Lexer → Lexer
exponent_sign lexer =
    if peek lexer.current == b'+' || peek lexer.current == b'-' then advance lexer else lexer

unfoldable pub exponent_part : Lexer → Lexer
exponent_part lexer =
    if peek lexer.current == b'e' || peek lexer.current == b'E'
    then advance_while is_digit (exponent_sign (advance lexer))
    else lexer

unfoldable pub number : Lexer → Token × Lexer
number lexer =
    let after = exponent_part (decimal_part (advance_while is_digit lexer)) in
    (make_token after token_number, after)

-- The tokens of one character.
unfoldable pub punctuation : ℕ → Option TokenType
punctuation c =
    if c == b'('
    then some token_lparen
    else if c == b')'
    then some token_rparen
    else if c == b','
    then some token_comma
    else if c == b';'
    then some token_semicolon
    else if c == b'.'
    then some token_dot
    else if c == b'='
    then some token_equal
    else if c == b'['
    then some token_lbracket
    else if c == b']'
    then some token_rbracket
    else none

unfoldable pub colons : Lexer → Token × Lexer
colons lexer =
    if peek lexer.current == b':'
    then (make_token (advance lexer) token_coloncolon, advance lexer)
    else error_token lexer (codes "Unexpected character ':'")

-- The rest of the `switch`, and what follows it.
unfoldable pub other_token : ℕ → Lexer → Token × Lexer
other_token c lexer =
    if c == b':'
    then colons lexer
    else if c == b'"'
    then quoted_identifier lexer
    else if c == 39
    then string_literal lexer
    else error_token lexer (codes "Unexpected character '" ++ c ∷ codes "'")

unfoldable pub symbol_token : ℕ → Lexer → Token × Lexer
symbol_token c lexer = elim (punctuation c) [
  | some type ↦ (make_token lexer type, lexer)
  | none ↦ other_token c lexer
]

-- The token that starts with the character `c`, which is passed.
unfoldable pub token_from : ℕ → Lexer → Token × Lexer
token_from c lexer =
    if is_alpha c || c == b'_'
    then identifier lexer
    else if is_digit c
    then number lexer
    else symbol_token c lexer

unfoldable pub lexer_next_token : Lexer → Token × Lexer
lexer_next_token lexer =
    let skipped = skip_whitespace lexer in
    let begun = record skipped { start = skipped.current } in
    elim begun.current [
      | [] ↦ (make_token begun token_eof, begun)
      | c ∷ _ ↦ token_from c (advance begun)
    ]
