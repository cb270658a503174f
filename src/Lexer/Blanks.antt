-- ===== src/Lexer/Blanks.antt =====
-- What `skip_whitespace` of src/parser/lexer.c passes, said without its loops.
use schema_compare_c.Base.{ℕ, ◌≡◌, Bool, true, false, not, ◌&&◌, ◌||◌, [], ◌∷◌, ◌++◌, ◌==◌}
use schema_compare_c.Text.{Bytes}

-- A space, a tab, a carriage return or a line feed.
unfoldable pub is_white : ℕ → Bool
is_white c = c == b' ' || c == b'\t' || c == b'\r' || c == b'\n'

unfoldable pub no_newline : Bytes → Bool
no_newline [] = true
no_newline (c ∷ text) = not (c == b'\n') && no_newline text

-- The text has no */ in it.
unfoldable pub no_close : Bytes → Bool
no_close [] = true
no_close (c ∷ []) = true
no_close (c ∷ d ∷ text) = not (c == b'*' && d == b'/') && no_close (d ∷ text)

-- White space and comments, with the text that follows them: a comment runs from -- to the end of the
-- line or from /* to the first */ behind it, or to the end of the source.
pub data IsBlanks : Bytes → Bytes → Type 0 where
  no_blanks : (rest : Bytes) → IsBlanks [] rest
  white : (c : ℕ) (p rest : Bytes) → is_white c ≡ true → IsBlanks p rest → IsBlanks (c ∷ p) rest
  line_comment :
      (text p rest : Bytes)
      → no_newline text ≡ true
      → IsBlanks p rest
      → IsBlanks (b'-' ∷ b'-' ∷ (text ++ b'\n' ∷ p)) rest
  last_line : (text : Bytes) → no_newline text ≡ true → IsBlanks (b'-' ∷ b'-' ∷ text) []
  block_comment :
      (text p rest : Bytes)
      → no_close text ≡ true
      → IsBlanks p rest
      → IsBlanks (b'/' ∷ b'*' ∷ (text ++ b'*' ∷ b'/' ∷ p)) rest
  open_block : (text : Bytes) → no_close text ≡ true → IsBlanks (b'/' ∷ b'*' ∷ text) []

-- The text begins with white space or a comment.
unfoldable pub begins_blank : Bytes → Bool
unfolding is_white
begins_blank [] = false
begins_blank (c ∷ []) = is_white c
begins_blank (c ∷ d ∷ rest) = is_white c || (c == b'-' && d == b'-') || (c == b'/' && d == b'*')

-- The second text is what is left of the first behind its white space and comments.
pub record Follows (s r : Bytes) : Type 0 where
  pub passed : Bytes
  pub split : s ≡ passed ++ r
  pub are_blank : IsBlanks passed r
  pub ends : begins_blank r ≡ false
