-- ===== src/Text.antt =====
-- C strings. A `char *` is the list of its bytes before the terminator, and a pointer that the
-- code tests against NULL is an `Option`. The functions of <string.h>, <strings.h> and <ctype.h>
-- that the sources call are those of the C locale, in which a byte above 127 is in no class.
pub mod Ctype
pub mod Strings
pub mod Search
pub mod Ordered
use Prim.Native.Char.{code}
use Prim.Native.String.{String}
use schema_compare_c.Base.{ℕ, List, [], ◌∷◌, Option}

abbrev pub Bytes : Type 0
Bytes = List ℕ

-- A `char *` that may be NULL.
abbrev pub CString : Type 0
CString = Option Bytes

-- The bytes of a literal.
abbrev pub codes : String → Bytes
codes String.[] = []
codes (String.◌∷◌ c s) = code c ∷ codes s
