-- ===== src/StringUtils/Builder.antt =====
-- The string builder of src/utils/string_utils.c. `contents` are the bytes before the final NUL, so
-- the field `length` of the code is their number; `allocated` is how many bytes the buffer has, which
-- the code does not store: it is the capacity unless `realloc` has failed. `none` stands for a loop
-- that does not end; the loop that doubles the capacity has fuel for 64 turns, after which a
-- `size_t` that is doubled is 0 and stays so.
pub mod Growth
use schema_compare_c.Base.{
  ℕ, zero, suc, ◌+◌, ◌*◌, ◌%◌, ◌^◌, Bool, true, false, List, [], ◌∷◌, ◌++◌, Option, none, some, leb,
  if◌then◌else◌, length,
}
use schema_compare_c.Text.{Bytes, CString}

pub record StringBuilder : Type 0 where
  pub contents : Bytes
  pub allocated : ℕ
  pub capacity : ℕ

unfoldable pub sb_create : StringBuilder
sb_create = record { contents = []; allocated = 256; capacity = 256 }

-- `while (sb->capacity < required) sb->capacity *= 2;`
unfoldable pub double_until : ℕ → ℕ → ℕ → Option ℕ
double_until zero capacity required = none
double_until (suc fuel) capacity required =
    let rest = double_until fuel (capacity * 2 % 2 ^ 64) required in
    if leb required capacity then some capacity else rest

unfoldable pub sb_to_string : Option StringBuilder → CString
sb_to_string none = none
sb_to_string (some sb) = some sb.contents

-- Whether `realloc` gives that many bytes.
module _ (realloc_succeeds : ℕ → Bool) where
  unfoldable pub reallocate : StringBuilder → ℕ → StringBuilder
  reallocate sb capacity =
      if realloc_succeeds capacity
      then record sb { allocated = capacity; capacity = capacity }
      else record sb { capacity = capacity }

  unfoldable pub sb_ensure_capacity : StringBuilder → ℕ → Option StringBuilder
  sb_ensure_capacity sb additional =
      let required = (length sb.contents + additional + 1) % 2 ^ 64 in
      if leb required sb.capacity then some sb else elim (double_until 64 sb.capacity required) [
        | none ↦ none
        | some capacity ↦ some (reallocate sb capacity)
      ]

  -- The copy of the bytes and the new NUL.
  unfoldable pub write : Bytes → Option StringBuilder → Option StringBuilder
  write str none = none
  write str (some sb) = some (record sb { contents = sb.contents ++ str })

  unfoldable pub sb_append : StringBuilder → CString → Option StringBuilder
  sb_append sb none = some sb
  sb_append sb (some str) = write str (sb_ensure_capacity sb (length str))

  unfoldable pub sb_append_char : StringBuilder → ℕ → Option StringBuilder
  sb_append_char sb c = write (c ∷ []) (sb_ensure_capacity sb 1)

  -- What `vsnprintf` makes of the format and the arguments is given; `none` if it fails.
  unfoldable pub sb_append_fmt : StringBuilder → Option Bytes → Option StringBuilder
  sb_append_fmt sb none = some sb
  sb_append_fmt sb (some formatted) = write formatted (sb_ensure_capacity sb (length formatted))
