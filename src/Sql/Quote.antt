-- ===== src/Sql/Quote.antt =====
-- src/output/sql_generator_util.c: identifiers and literals of SQL, appended to a string builder.
pub mod Plain
pub mod ReadBack
use schema_compare_c.Base.{
  ℕ, Bool, true, false, not, ◌||◌, ◌&&◌, List, [], ◌∷◌, map, Option, none, some, ◌==◌, leb,
  if◌then◌else◌, length,
}
use schema_compare_c.Text.{Bytes, CString, codes}
use schema_compare_c.Text.Ctype.{is_alnum, is_digit, to_lower}
use schema_compare_c.Text.Strings.{same}
use schema_compare_c.StringUtils.Builder.{StringBuilder, sb_append, sb_append_char}

abbrev pub keywords : List Bytes
keywords = map codes (
    "select" ∷ "from" ∷ "where" ∷ "insert" ∷ "update" ∷ "delete" ∷ "create" ∷ "drop" ∷ "alter"
    ∷ "table" ∷ "index" ∷ "view" ∷ "user" ∷ "group" ∷ "order" ∷ "by" ∷ "limit" ∷ "offset" ∷ "union"
    ∷ "join" ∷ "left" ∷ "right" ∷ "inner" ∷ "outer" ∷ "on" ∷ "as" ∷ "and" ∷ "or" ∷ "not" ∷ "null"
    ∷ "true" ∷ "false" ∷ "default" ∷ "primary" ∷ "foreign" ∷ "key" ∷ "references" ∷ "constraint"
    ∷ "unique" ∷ "check" ∷ "exists" ∷ "like" ∷ [])

unfoldable pub is_among : Bytes → List Bytes → Bool
is_among lower [] = false
is_among lower (k ∷ ks) = same lower k || is_among lower ks

-- The buffer for the lower case holds 255 characters.
unfoldable pub is_reserved_keyword : Bytes → Bool
is_reserved_keyword identifier =
    if leb 256 (length identifier) then false else is_among (map to_lower identifier) keywords

-- Some character is neither alphanumeric nor an underscore.
unfoldable pub has_special : Bytes → Bool
has_special [] = false
has_special (c ∷ rest) = (not (is_alnum c) && not (c == b'_')) || has_special rest

unfoldable pub starts_with_digit : Bytes → Bool
starts_with_digit [] = false
starts_with_digit (c ∷ _) = is_digit c

unfoldable pub needs_quote : Bytes → Bool
needs_quote identifier =
    is_reserved_keyword identifier || has_special identifier || starts_with_digit identifier

module _ (realloc_succeeds : ℕ → Bool) where
  -- One character of a quoted text: the quote itself is doubled.
  unfoldable pub append_escaped_char : ℕ → StringBuilder → ℕ → Option StringBuilder
  append_escaped_char quote sb c =
      if c == quote
      then sb_append realloc_succeeds sb (some (quote ∷ quote ∷ []))
      else sb_append_char realloc_succeeds sb c

  unfoldable pub append_escaped : ℕ → Bytes → Option StringBuilder → Option StringBuilder
  append_escaped quote src none = none
  append_escaped quote [] (some sb) = some sb
  append_escaped quote (c ∷ src) (some sb) =
      append_escaped quote src (append_escaped_char quote sb c)

  unfoldable pub append_quote : ℕ → Option StringBuilder → Option StringBuilder
  append_quote quote none = none
  append_quote quote (some sb) = sb_append realloc_succeeds sb (some (quote ∷ []))

  -- The quote, the escaped text, the quote.
  unfoldable pub append_quoted : ℕ → StringBuilder → Bytes → Option StringBuilder
  append_quoted quote sb text =
      append_quote quote (append_escaped quote text (append_quote quote (some sb)))

  unfoldable pub sb_append_identifier : StringBuilder → CString → Option StringBuilder
  sb_append_identifier sb none = some sb
  sb_append_identifier sb (some identifier) =
      if needs_quote identifier
      then append_quoted b'"' sb identifier
      else sb_append realloc_succeeds sb (some identifier)

  unfoldable pub sb_append_literal : StringBuilder → CString → Option StringBuilder
  sb_append_literal sb none = sb_append realloc_succeeds sb (some (codes "NULL"))
  sb_append_literal sb (some literal) = append_quoted 39 sb literal

unfoldable pub format_data_type : CString → CString
format_data_type type = type
