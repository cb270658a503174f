-- ===== src/Lexer/Scans.antt =====
-- What each function for a token in src/parser/lexer.c does with the lexer: what it passes, and
-- whether it reports an error.
use schema_compare_c.Base.{
  ℕ, ◌<◌, ◌≡◌, ◌⊎◌, refl, ◌∙◌, inl, inr, Bool, true, Bool-cases, ◌&&◌, ◌||◌, List, [], ◌∷◌, Option,
  none, some, Option-cases, arith, ◌==◌, length, map, ltb, if◌then◌else◌, subst, false, Ordering,
}
use mathlib.Core.Option.{some-injective, none-ne-some}
use schema_compare_c.Text.{Bytes}
use schema_compare_c.Text.Ctype.{is_alpha, is_digit, to_lower}
use schema_compare_c.Token.{
  TokenType, Token, token_type_value, token_error, token_lparen, token_rparen, token_comma,
  token_semicolon, token_dot, token_equal, token_lbracket, token_rbracket,
}
use schema_compare_c.Token.Keywords.{KeywordMap, keywords, is_keyword}
use schema_compare_c.Token.Keywords.Search.{find_keyword, is_keyword-find_keyword}
use schema_compare_c.Lexer.{
  Lexer, Cursor, peek, peek_next, move_to, make_token, error_token, advance_cursor, advance,
  advance_while, is_word, word_type, identifier, close_quoted, quoted_identifier, string_literal,
  decimal_part, exponent_sign, exponent_part, number, punctuation, colons, other_token,
  symbol_token, token_from,
}
use schema_compare_c.Lexer.Progress.{
  Leaves, Leaves-refl, Leaves-trans, pass_while-Leaves, pass_quoted-Leaves, pass_literal-Leaves,
}
use schema_compare_c.Text.Strings.{strcmp}

-- The lexer goes on in the text, and neither begins a token nor reports an error.
pub record Moves (lexer lexer' : Lexer) : Type 0 where
  pub start : lexer'.start ≡ lexer.start
  pub leaves : Leaves lexer.current lexer'.current
  pub had_error : lexer'.had_error ≡ lexer.had_error
  pub error_message : lexer'.error_message ≡ lexer.error_message

pub Moves-refl : (l : Lexer) → Moves l l
Moves-refl l = record {
  start = refl;
  leaves = Leaves-refl l.current;
  had_error = refl;
  error_message = refl;
}

Moves-trans : (a b c : Lexer) → Moves a b → Moves b c → Moves a c
Moves-trans a b c m n = record {
  start = n.start ∙ m.start;
  leaves = Leaves-trans a.current b.current c.current m.leaves n.leaves;
  had_error = n.had_error ∙ m.had_error;
  error_message = n.error_message ∙ m.error_message;
}

pub move_to-Moves : (l : Lexer) (at : Cursor) → Leaves l.current at.rest → Moves l (move_to l at)
unfolding move_to
move_to-Moves l at e = record { start = refl; leaves = e; had_error = refl; error_message = refl }

advance_cursor-Leaves : (s : Bytes) (line column : ℕ) → Leaves s (advance_cursor s line column).rest
unfolding advance_cursor
advance_cursor-Leaves [] line column = ([], refl)
advance_cursor-Leaves (c ∷ s) line column = (c ∷ [], refl)

pub advance-Moves : (l : Lexer) → Moves l (advance l)
unfolding advance
advance-Moves l = move_to-Moves l _ (advance_cursor-Leaves l.current l.line l.column)

advance_while-Moves : (p : ℕ → Bool) (l : Lexer) → Moves l (advance_while p l)
unfolding advance_while
advance_while-Moves p l = move_to-Moves l _ (pass_while-Leaves p l.current l.line l.column)

-- The token is what has been passed, of a type that is not the one for errors.
pub record Succeeds (lexer : Lexer) (t : Token) (lexer' : Lexer) : Type 0 where
  pub moves : Moves lexer lexer'
  pub made : t ≡ make_token lexer' t.type
  pub proper : token_type_value t.type < token_type_value token_error

-- The token is a message, which the lexer has as well.
pub record Fails (lexer : Lexer) (t : Token) (lexer' : Lexer) : Type 0 where
  pub leaves : Leaves lexer.current lexer'.current
  pub type : t.type ≡ token_error
  pub length : t.length ≡ length t.lexeme
  pub had_error : lexer'.had_error ≡ true
  pub error_message : lexer'.error_message ≡ some t.lexeme

abbrev pub Scans : Lexer → Token × Lexer → Type 0
Scans lexer (t, lexer') = Succeeds lexer t lexer' ⊎ Fails lexer t lexer'

pub make_token-Scans :
    (l l' : Lexer) (type : TokenType)
    → token_type_value type < 136
    → Moves l l'
    → Scans l (make_token l' type, l')
unfolding make_token
make_token-Scans l l' type h m = inl (record { moves = m; made = refl; proper = h })

error_token-Scans :
    (l l' : Lexer) (message : Bytes)
    → Leaves l.current l'.current
    → Scans l (error_token l' message)
unfolding error_token
error_token-Scans l l' message e =
    inr (record { leaves = e; type = refl; length = refl; had_error = refl; error_message = refl })

-- No keyword stands for the end of the text or for an error.
abbrev all_proper : List KeywordMap → Bool
all_proper [] = true
all_proper (k ∷ ks) = ltb (token_type_value k.type) 136 && all_proper ks

&&-parts : (a b : Bool) → (a && b) ≡ true → (a ≡ true) × (b ≡ true)
&&-parts true b h = (refl, h)
&&-parts false b h = cc

find_keyword-proper :
    (lower : Bytes) (ks : List KeywordMap)
    → all_proper ks ≡ true
    → token_type_value (word_type (find_keyword lower ks)) < 136
unfolding find_keyword
find_keyword-proper lower [] a = omega arith
find_keyword-proper lower (k ∷ ks) a =
    by_order (find_keyword-proper lower ks parts.1) (strcmp lower k.keyword)
  where
    parts : (ltb (token_type_value k.type) 136 ≡ true) × (all_proper ks ≡ true)
    parts = &&-parts _ _ a

    by_order :
        token_type_value (word_type (find_keyword lower ks)) < 136
        → (o : Ordering)
        → token_type_value
            (word_type (elim o [ Ordering.eq ↦ some k.type | _ ↦ find_keyword lower ks ]))
          < 136
    by_order h Ordering.eq = let e = parts.0 in ground arith
    by_order h Ordering.lt = h
    by_order h Ordering.gt = h

is_keyword-proper : (text : Bytes) → token_type_value (word_type (is_keyword text)) < 136
is_keyword-proper text =
    rw is_keyword-find_keyword (find_keyword-proper (map to_lower text) keywords refl)

identifier-Scans : (l : Lexer) → Scans l (identifier l)
unfolding identifier
identifier-Scans l = make_token-Scans l _ _ (is_keyword-proper _) (advance_while-Moves is_word l)

close_quoted-Scans :
    (l l' : Lexer) (type : TokenType) (message : Bytes)
    → token_type_value type < 136
    → Moves l l'
    → Scans l (close_quoted type message l')
unfolding close_quoted
close_quoted-Scans l l' type message h m = by_rest l'.current
  where
    by_rest :
        (rest : Bytes)
        → Scans l (elim rest as (λ _. Token × Lexer) [
          | [] ↦ error_token l' message
          | _ ∷ _ ↦ (make_token (advance l') type, advance l')
        ])
    by_rest [] = error_token-Scans l l' message m.leaves
    by_rest (_ ∷ _) = make_token-Scans l _ type h (Moves-trans l l' _ m (advance-Moves l'))

quoted_identifier-Scans : (l : Lexer) → Scans l (quoted_identifier l)
unfolding quoted_identifier
quoted_identifier-Scans l =
    let opened = advance l in
    close_quoted-Scans l _ _ _ (omega arith) (
      Moves-trans l opened _ (advance-Moves l)
        (move_to-Moves opened _ (pass_quoted-Leaves opened.current opened.line opened.column)))

string_literal-Scans : (l : Lexer) → Scans l (string_literal l)
unfolding string_literal
string_literal-Scans l =
    let opened = advance l in
    close_quoted-Scans l _ _ _ (omega arith) (
      Moves-trans l opened _ (advance-Moves l) (
        move_to-Moves opened _
          (pass_literal-Leaves false opened.current opened.line opened.column)))

decimal_part-Moves : (l : Lexer) → Moves l (decimal_part l)
unfolding decimal_part
decimal_part-Moves l =
    elim (Bool-cases (peek l.current == b'.' && is_digit (peek_next l.current))) [
      | inl e ↦
          rw (e, decimal_part)
            (Moves-trans l _ _ (advance-Moves l) (advance_while-Moves is_digit (advance l)))
      | inr e ↦ rw (e, decimal_part) (Moves-refl l)
    ]

exponent_sign-Moves : (l : Lexer) → Moves l (exponent_sign l)
unfolding exponent_sign
exponent_sign-Moves l = elim (Bool-cases (peek l.current == b'+' || peek l.current == b'-')) [
  | inl e ↦ rw (e, exponent_sign) (advance-Moves l)
  | inr e ↦ rw (e, exponent_sign) (Moves-refl l)
]

exponent_part-Moves : (l : Lexer) → Moves l (exponent_part l)
unfolding exponent_part
exponent_part-Moves l = elim (Bool-cases (peek l.current == b'e' || peek l.current == b'E')) [
  | inl e ↦
      rw (e, exponent_part)
        (Moves-trans l _ _ (advance-Moves l)
          (Moves-trans _ _ _ (exponent_sign-Moves (advance l)) (advance_while-Moves is_digit _)))
  | inr e ↦ rw (e, exponent_part) (Moves-refl l)
]

number-Scans : (l : Lexer) → Scans l (number l)
unfolding number
number-Scans l = make_token-Scans l _ _ (omega arith) (
    Moves-trans l _ _ (advance_while-Moves is_digit l)
      (Moves-trans _ _ _ (decimal_part-Moves _) (exponent_part-Moves _)))

colons-Scans : (l : Lexer) → Scans l (colons l)
unfolding colons
colons-Scans l = elim (Bool-cases (peek l.current == b':')) [
  | inl e ↦ rw (e, colons) (make_token-Scans l _ _ (omega arith) (advance-Moves l))
  | inr e ↦ rw (e, colons) (error_token-Scans l l _ (Leaves-refl l.current))
]

other_token-Scans : (c : ℕ) (l : Lexer) → Scans l (other_token c l)
unfolding other_token
other_token-Scans c l = elim (Bool-cases (c == b':')) [
  | inl e ↦ rw (e, other_token) (colons-Scans l)
  | inr e ↦ elim (Bool-cases (c == b'"')) [
    | inl f ↦ rw (e, f, other_token) (quoted_identifier-Scans l)
    | inr f ↦ elim (Bool-cases (c == 39)) [
      | inl g ↦ rw (e, f, g, other_token) (string_literal-Scans l)
      | inr g ↦ rw (e, f, g, other_token) (error_token-Scans l l _ (Leaves-refl l.current))
    ]
  ]
]

-- Every type that the test gives is proper.
abbrev AreProper : Option TokenType → Type 0
AreProper o = (type : TokenType) → o ≡ some type → token_type_value type < 136

none-AreProper : AreProper none
none-AreProper = λ type e. absurd (none-ne-some type e)

if_AreProper :
    (b : Bool) (t : TokenType) (o : Option TokenType)
    → token_type_value t < 136
    → AreProper o
    → AreProper (if b then some t else o)
if_AreProper true t o h k =
    λ type e. subst (λ u. token_type_value u < 136) (some-injective t type e) h
if_AreProper false t o h k = k

punctuation-AreProper : (c : ℕ) → AreProper (punctuation c)
unfolding punctuation
punctuation-AreProper c = if_AreProper _ token_lparen _ (omega arith) (
    if_AreProper _ token_rparen _ (omega arith) (
      if_AreProper _ token_comma _ (omega arith) (
        if_AreProper _ token_semicolon _ (omega arith) (
          if_AreProper _ token_dot _ (omega arith) (
            if_AreProper _ token_equal _ (omega arith) (
              if_AreProper _ token_lbracket _ (omega arith)
                (if_AreProper _ token_rbracket _ (omega arith) none-AreProper)))))))

symbol_token-Scans : (c : ℕ) (l : Lexer) → Scans l (symbol_token c l)
unfolding symbol_token
symbol_token-Scans c l = elim (Option-cases (punctuation c)) [
  | inl e ↦ rw (e, symbol_token) (other_token-Scans c l)
  | inr (type, e) ↦
      rw (e, symbol_token)
        (make_token-Scans l l type (punctuation-AreProper c type e) (Moves-refl l))
]

pub token_from-Scans : (c : ℕ) (l : Lexer) → Scans l (token_from c l)
unfolding token_from
token_from-Scans c l = elim (Bool-cases (is_alpha c || c == b'_')) [
  | inl e ↦ rw (e, token_from) (identifier-Scans l)
  | inr e ↦ elim (Bool-cases (is_digit c)) [
    | inl f ↦ rw (e, f, token_from) (number-Scans l)
    | inr f ↦ rw (e, f, token_from) (symbol_token-Scans c l)
  ]
]
