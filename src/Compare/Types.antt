-- ===== src/Compare/Types.antt =====
-- `normalize_type_name` and `data_types_equal` of src/compare/compare.c.
pub mod Normal
use schema_compare_c.Base.{
  ◌+◌, Bool, true, false, ◌||◌, List, [], ◌∷◌, ◌++◌, map, Option, none, some, ltb, ◌==◌,
  if◌then◌else◌, length,
}
use schema_compare_c.Text.{Bytes, CString, codes}
use schema_compare_c.Text.Ctype.{is_alpha, to_lower}
use schema_compare_c.Text.Strings.{same, split_at, before}
use schema_compare_c.Compare.Options.{CompareOptions}

abbrev pub type_map : List (Bytes × Bytes)
type_map =
    (codes "int2", codes "smallint")
    ∷ (codes "int4", codes "integer")
    ∷ (codes "int8", codes "bigint")
    ∷ (codes "float4", codes "real")
    ∷ (codes "float8", codes "double precision")
    ∷ (codes "bool", codes "boolean")
    ∷ (codes "varchar", codes "character varying")
    ∷ (codes "char", codes "character")
    ∷ []

-- The search of the alias table: the canonical name, or the name itself.
unfoldable pub resolve_alias : List (Bytes × Bytes) → Bytes → Bytes
resolve_alias [] name = name
resolve_alias ((alias, canonical) ∷ rest) name =
    if same name alias then canonical else resolve_alias rest name

-- The scan for a schema name before the dot.
unfoldable pub is_schema : Bytes → Bool
is_schema [] = true
is_schema (c ∷ s) = if is_alpha c || c == b'_' then is_schema s else false

unfoldable pub strip_schema : Bytes → Bytes
unfolding is_schema
strip_schema normalized = elim (split_at b'.' normalized) [
  | none ↦ normalized
  | some (schema, type_name) ↦ if is_schema schema then type_name else normalized
]

unfoldable pub strip_without_tz : Bytes → Bytes
strip_without_tz normalized = elim (before (codes " without time zone") normalized) [
  | none ↦ normalized
  | some prefix ↦ prefix
]

-- The rewriting of " with time zone", of which `prefix` is what precedes it. A precision in
-- parentheses is looked for in the prefix, and kept if it fits the buffer of 32 bytes.
unfoldable pub rewrite_with_tz : Bytes → Bytes → Bytes
rewrite_with_tz normalized prefix = elim (split_at b'(' prefix) [
  | none ↦ codes "timestamptz"
  | some (_, opened) ↦ elim (split_at b')' opened) [
    | none ↦ normalized
    | some (precision, _) ↦
        if ltb (length precision + 2) 32
        then codes "timestamptz(" ++ (precision ++ codes ")")
        else normalized
  ]
]

unfoldable pub fold_with_tz : Bytes → Bytes
unfolding rewrite_with_tz
fold_with_tz normalized = elim (before (codes " with time zone") normalized) [
  | none ↦ normalized
  | some prefix ↦ rewrite_with_tz normalized prefix
]

-- What the buffer holds before the aliases are looked up.
unfoldable pub normalize_in_place : Bytes → Bytes
unfolding strip_schema strip_without_tz fold_with_tz
normalize_in_place type_name =
    fold_with_tz (strip_without_tz (strip_schema (map to_lower type_name)))

unfoldable pub normalize_type_name : CString → CString
unfolding normalize_in_place resolve_alias
normalize_type_name none = none
normalize_type_name (some type_name) = some (resolve_alias type_map (normalize_in_place type_name))

-- `strcmp` of two normalized names; a NULL name has been answered before.
unfoldable pub same_names : CString → CString → Bool
same_names (some s) (some t) = same s t
same_names _ _ = false

unfoldable pub data_types_equal : CString → CString → Option CompareOptions → Bool
unfolding same_names normalize_type_name
data_types_equal none none opts = true
data_types_equal none (some _) opts = false
data_types_equal (some _) none opts = false
data_types_equal (some type1) (some type2) none = same type1 type2
data_types_equal (some type1) (some type2) (some opts) =
    if opts.normalize_types
    then same_names (normalize_type_name (some type1)) (normalize_type_name (some type2))
    else same type1 type2
