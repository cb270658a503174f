-- ===== src/Compare/Types/Normal.antt =====
-- The normal form of a type name, said without the buffer of `normalize_type_name`.
use schema_compare_c.Base.{
  ◌≡◌, refl, ap, ap₂, ◌∙◌, ℕ, ◌+◌, Bool, true, false, ◌||◌, ◌&&◌, inl, inr, Bool-cases, [], ◌∷◌,
  ◌++◌, map, Option, none, some, ltb, ◌==◌, if◌then◌else◌, length, arith,
}
use schema_compare_c.Text.{Bytes, codes}
use schema_compare_c.Text.Ctype.{is_alpha, is_upper, is_lower, to_lower}
use schema_compare_c.Text.Strings.{same, split_at, before}
use schema_compare_c.Text.Search.{value_or, up_to, before_or_all, occurs, before_occurs}
use schema_compare_c.Compare.Types.{
  type_map, resolve_alias, is_schema, strip_schema, strip_without_tz, rewrite_with_tz, fold_with_tz,
  normalize_in_place,
}

-- What follows the first dot, if there is one and only letters and underscores precede it.
unfoldable behind_schema : Bytes → Option Bytes
behind_schema [] = none
behind_schema (c ∷ s) =
    let rest = behind_schema s in
    if c == b'.'
    then some s
    else if (ltb 64 c && ltb c 91) || (ltb 96 c && ltb c 123) || c == 95
    then rest
    else none

letter_lem :
    (c : ℕ)
    → (is_alpha c || c == b'_') ≡ ((ltb 64 c && ltb c 91) || (ltb 96 c && ltb c 123) || c == 95)
unfolding is_alpha is_upper is_lower
letter_lem c = ground arith

-- What is behind the dot that a search has found.
unfoldable behind_found : Option (Bytes × Bytes) → Option Bytes
behind_found none = none
behind_found (some (schema, type_name)) = if is_schema schema then some type_name else none

unfoldable past : ℕ → Option (Bytes × Bytes) → Option (Bytes × Bytes)
past c none = none
past c (some (schema, type_name)) = some (c ∷ schema, type_name)

behind_past :
    (c : ℕ) (o : Option (Bytes × Bytes))
    → behind_found (past c o) ≡ (if is_alpha c || c == b'_' then behind_found o else none)
unfolding behind_found past is_schema
behind_past c none = elim (Bool-cases (is_alpha c || c == b'_')) [
  | inl e ↦ rw e refl
  | inr e ↦ rw e refl
]
behind_past c (some (schema, type_name)) = elim (Bool-cases (is_alpha c || c == b'_')) [
  | inl e ↦ rw (e, is_schema) refl
  | inr e ↦ rw (e, is_schema) refl
]

behind_found_lem : (s : Bytes) → behind_found (split_at b'.' s) ≡ behind_schema s
unfolding behind_found split_at behind_schema is_schema past
behind_found_lem [] = refl
behind_found_lem (c ∷ s) = elim (Bool-cases (c == b'.')) [
  | inl e ↦ rw (e, split_at, behind_schema) refl
  | inr e ↦
      rw (e, split_at, behind_schema)
        (after (split_at b'.' s)
          ∙ behind_past c (split_at b'.' s)
          ∙ ap₂ (λ b (x : Option Bytes). if b then x else none) (letter_lem c) (behind_found_lem s))
]
  where
    after :
        (o : Option (Bytes × Bytes))
        → behind_found (elim o [ none ↦ none | some (p, r) ↦ some (c ∷ p, r) ])
          ≡ behind_found (past c o)
    after none = refl
    after (some (p, r)) = refl

behind_schema_lem : (s : Bytes) → strip_schema s ≡ value_or s (behind_schema s)
unfolding strip_schema behind_found value_or
behind_schema_lem s = stripped (split_at b'.' s) ∙ ap (value_or s) (behind_found_lem s)
  where
    stripped :
        (o : Option (Bytes × Bytes))
        → (elim o [
          | none ↦ s
          | some (schema, type_name) ↦ if is_schema schema then type_name else s
        ])
          ≡ value_or s (behind_found o)
    stripped none = refl
    stripped (some (schema, type_name)) = elim (Bool-cases (is_schema schema)) [
      | inl e ↦ rw (e, behind_found) refl
      | inr e ↦ rw (e, behind_found) refl
    ]

without_zone_lem : (s : Bytes) → strip_without_tz s ≡ up_to (codes " without time zone") s
unfolding strip_without_tz value_or
without_zone_lem s =
    default (before (codes " without time zone") s)
    ∙ before_or_all b' ' (codes "without time zone") s
  where
    default : (o : Option Bytes) → (elim o [ none ↦ s | some prefix ↦ prefix ]) ≡ value_or s o
    default none = refl
    default (some prefix) = refl

-- The name of a type with a time zone, where `name` is what precedes that: the precision is what its
-- first parentheses hold. A name with an open one, or a longer precision, stays as it is.
unfoldable zoned : (whole : Bytes) → (name : Bytes) → Bytes
zoned whole name = elim (split_at b'(' name) [
  | none ↦ codes "timestamptz"
  | some (_, opened) ↦ elim (split_at b')' opened) [
    | none ↦ whole
    | some (precision, _) ↦
        if ltb (length precision) 30
        then codes "timestamptz(" ++ (precision ++ codes ")")
        else whole
  ]
]

unfoldable with_zone : Bytes → Bytes
unfolding zoned occurs up_to
with_zone s =
    if occurs (codes " with time zone") s then zoned s (up_to (codes " with time zone") s) else s

zoned_lem : (whole name : Bytes) → rewrite_with_tz whole name ≡ zoned whole name
unfolding rewrite_with_tz zoned
zoned_lem whole name = opened (split_at b'(' name)
  where
    fits : (n : ℕ) → ltb (n + 2) 32 ≡ ltb n 30
    fits n = ground arith

    closed :
        (o : Option (Bytes × Bytes))
        → (elim o [
          | none ↦ whole
          | some (precision, _) ↦
              if ltb (length precision + 2) 32
              then codes "timestamptz(" ++ (precision ++ codes ")")
              else whole
        ])
          ≡ (elim o [
            | none ↦ whole
            | some (precision, _) ↦
                if ltb (length precision) 30
                then codes "timestamptz(" ++ (precision ++ codes ")")
                else whole
          ])
    closed none = refl
    closed (some (precision, _)) = rw (fits (length precision)) refl

    opened :
        (o : Option (Bytes × Bytes))
        → (elim o [
          | none ↦ codes "timestamptz"
          | some (_, o') ↦ elim (split_at b')' o') [
            | none ↦ whole
            | some (precision, _) ↦
                if ltb (length precision + 2) 32
                then codes "timestamptz(" ++ (precision ++ codes ")")
                else whole
          ]
        ])
          ≡ (elim o [
            | none ↦ codes "timestamptz"
            | some (_, o') ↦ elim (split_at b')' o') [
              | none ↦ whole
              | some (precision, _) ↦
                  if ltb (length precision) 30
                  then codes "timestamptz(" ++ (precision ++ codes ")")
                  else whole
            ]
          ])
    opened none = refl
    opened (some (_, o')) = closed (split_at b')' o')

with_zone_lem : (s : Bytes) → fold_with_tz s ≡ with_zone s
unfolding fold_with_tz with_zone
with_zone_lem s =
    found (before (codes " with time zone") s) (occurs (codes " with time zone") s)
      (before_occurs b' ' (codes "with time zone") s)
  where
    found :
        (o : Option Bytes) (b : Bool)
        → o ≡ (if b then some (up_to (codes " with time zone") s) else none)
        → (elim o [ none ↦ s | some prefix ↦ rewrite_with_tz s prefix ])
          ≡ (if b then zoned s (up_to (codes " with time zone") s) else s)
    found o true e = rw e (zoned_lem s (up_to (codes " with time zone") s))
    found o false e = rw e refl

-- The longer of two names for a type.
unfoldable long_name : Bytes → Bytes
unfolding same
long_name s =
    if same s (codes "int2")
    then codes "smallint"
    else if same s (codes "int4")
    then codes "integer"
    else if same s (codes "int8")
    then codes "bigint"
    else if same s (codes "float4")
    then codes "real"
    else if same s (codes "float8")
    then codes "double precision"
    else if same s (codes "bool")
    then codes "boolean"
    else if same s (codes "varchar")
    then codes "character varying"
    else if same s (codes "char")
    then codes "character"
    else s

long_name_lem : (s : Bytes) → resolve_alias type_map s ≡ long_name s
unfolding resolve_alias long_name
long_name_lem s = refl

-- The normal form of a type name.
unfoldable pub canonical_type : Bytes → Bytes
unfolding value_or behind_schema up_to with_zone long_name
canonical_type name =
    let small = map to_lower name in
    long_name
      (with_zone (up_to (codes " without time zone") (value_or small (behind_schema small))))

pub canonical_type_lem :
    (name : Bytes) → resolve_alias type_map (normalize_in_place name) ≡ canonical_type name
unfolding normalize_in_place canonical_type
canonical_type_lem name =
    let small = map to_lower name in
    long_name_lem (fold_with_tz (strip_without_tz (strip_schema small)))
    ∙ ap long_name (
        with_zone_lem (strip_without_tz (strip_schema small))
        ∙ ap with_zone (
            without_zone_lem (strip_schema small)
            ∙ ap (up_to (codes " without time zone")) (behind_schema_lem small)))
