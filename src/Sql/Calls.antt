-- ===== src/Sql/Calls.antt =====
-- How src/output/ writes: a generating function is a list of calls of the string builder, in the
-- order in which it makes them. None of these calls returns a value that the function looks at.
-- `vsnprintf` stands for what the C library makes of a format and its arguments, none if it fails.
pub mod Calm
pub mod Written
use Prim.Native.String.{String}
use schema_compare_c.Base.{ℕ, Bool, true, false, List, [], ◌∷◌, Option, none, some}
use schema_compare_c.Text.{Bytes, CString, codes}
use schema_compare_c.StringUtils.Builder.{StringBuilder, sb_append, sb_append_fmt}
use schema_compare_c.Sql.Quote.{sb_append_identifier}

pub data Argument : Type 0 where
  string : CString → Argument
  int : ℕ → Argument

-- `sb_append` of a constant of the code and of a string of the input, `sb_append_identifier` and
-- `sb_append_fmt`.
pub data Call : Type 0 where
  literal : Bytes → Call
  append : CString → Call
  identifier : CString → Call
  format : Bytes → List Argument → Call

abbrev pub text : String → Call
text s = literal (codes s)

abbrev pub calls_if : Bool → List Call → List Call
calls_if true calls = calls
calls_if false calls = []

-- `s ? s : otherwise`.
abbrev pub append_or : CString → String → Call
append_or none otherwise = text otherwise
append_or (some s) otherwise = append (some s)

abbrev pub string_or : CString → String → Argument
string_or none otherwise = string (some (codes otherwise))
string_or (some s) otherwise = string (some s)

module _ (vsnprintf : Bytes → List Argument → Option Bytes) (realloc_succeeds : ℕ → Bool) where
  unfoldable pub make : Call → StringBuilder → Option StringBuilder
  make (literal s) sb = sb_append realloc_succeeds sb (some s)
  make (append s) sb = sb_append realloc_succeeds sb s
  make (identifier s) sb = sb_append_identifier realloc_succeeds sb s
  make (format f arguments) sb = sb_append_fmt realloc_succeeds sb (vsnprintf f arguments)

  unfoldable pub make_all : List Call → StringBuilder → Option StringBuilder
  make_all [] sb = some sb
  make_all (call ∷ calls) sb = elim (make call sb) [ none ↦ none | some sb' ↦ make_all calls sb' ]
