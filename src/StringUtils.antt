-- ===== src/StringUtils.antt =====
-- src/utils/string_utils.c, the functions on whole strings. A result that only a failed allocation
-- makes NULL is returned as a string.
pub mod Split
pub mod Builder
use mathlib.Core.List.{reverse}
use schema_compare_c.Base.{
  ℕ, zero, suc, Bool, true, false, not, List, [], ◌∷◌, ◌++◌, map, Option, none, some, ◌==◌,
  if◌then◌else◌,
}
use schema_compare_c.Text.{Bytes, CString}
use schema_compare_c.Text.Ctype.{is_space, to_lower, to_upper}

unfoldable pub skip_spaces : Bytes → Bytes
skip_spaces [] = []
skip_spaces (c ∷ str) = let rest = skip_spaces str in if is_space c then rest else c ∷ str

-- From the front, and then from the end of what is left.
unfoldable pub trim : Bytes → Bytes
unfolding skip_spaces
trim str = reverse (skip_spaces (reverse (skip_spaces str)))

unfoldable pub str_trim : CString → CString
unfolding trim
str_trim none = none
str_trim (some str) = some (trim str)

unfoldable pub remove_whitespace : Bytes → Bytes
remove_whitespace [] = []
remove_whitespace (c ∷ str) =
    let rest = remove_whitespace str in if is_space c then rest else c ∷ rest

unfoldable pub str_remove_whitespace : CString → CString
unfolding remove_whitespace
str_remove_whitespace none = none
str_remove_whitespace (some str) = some (remove_whitespace str)

unfoldable pub str_to_upper : CString → CString
str_to_upper none = none
str_to_upper (some str) = some (map to_upper str)

unfoldable pub str_to_lower : CString → CString
str_to_lower none = none
str_to_lower (some str) = some (map to_lower str)

-- The loop of `str_equals_ignore_case`, and the test of the two bytes at which it stops.
unfoldable pub equals_from : Bytes → Bytes → Bool
equals_from [] [] = true
equals_from [] (d ∷ t) = d == 0
equals_from (c ∷ s) [] = c == 0
equals_from (c ∷ s) (d ∷ t) = if to_lower c == to_lower d then equals_from s t else false

unfoldable pub str_equals_ignore_case : CString → CString → Bool
unfolding equals_from
str_equals_ignore_case (some s) (some t) = equals_from s t
str_equals_ignore_case none none = true
str_equals_ignore_case none (some _) = false
str_equals_ignore_case (some _) none = false

unfoldable pub str_concat : CString → CString → CString
str_concat none t = t
str_concat (some s) none = some s
str_concat (some s) (some t) = some (s ++ t)

-- The loop of `str_split` from a part that has begun.
unfoldable pub split_from : ℕ → Bytes → Bytes → List Bytes
split_from delimiter part [] = part ∷ []
split_from delimiter part (c ∷ rest) = elim (c == delimiter) [
  | true ↦ part ∷ split_from delimiter [] rest
  | false ↦ split_from delimiter (part ++ c ∷ []) rest
]

-- The parts and, as the length of the list, their count; a NULL string has none.
unfoldable pub str_split : CString → ℕ → Option (List Bytes)
unfolding split_from
str_split none delimiter = none
str_split (some str) delimiter = some (split_from delimiter [] str)
