-- ===== src/Parser/BaseTypes.antt =====
-- src/parser/parse_type.c: base types, and the statement CREATE TYPE.
use schema_compare_c.Base.{
  ℕ, ◌-◌, ◌%◌, Bool, true, false, List, [], ◌∷◌, Option, none, some, ltb, if◌then◌else◌,
}
use schema_compare_c.Base.Int.{ℤ, pos, negsuc}
use schema_compare_c.Text.{Bytes, CString, codes}
use schema_compare_c.Text.Strings.{same}
use schema_compare_c.Ddl.Types.{BaseTypeDef}
use schema_compare_c.Token.{
  token_identifier, token_string_literal, token_number, token_equal, token_internallength,
  token_variable, token_passedbyvalue, token_alignment, token_storage, token_plain, token_external,
  token_extended, token_main, token_like, token_preferred, token_default, token_element,
  token_delimiter, token_collatable,
}
use schema_compare_c.Parser.{
  parser_check, parser_advance, Parsing, returns, ◌>>=◌, give, fail, takes, choose, clause,
}
use schema_compare_c.Parser.Parts.{digits_value}
use schema_compare_c.Parser.Types.{strip_quotes, takes_any, assigned, choose_word}

-- The value of a `long`, cut to the 32 bits of an `int`.
unfoldable pub atoi : Bytes → ℤ
atoi text =
    let n = digits_value 0 text in
    let long = if ltb n 9223372036854775807 then n else 9223372036854775807 in
    let low = long % 4294967296 in
    if ltb low 2147483648 then pos low else negsuc (4294967296 - low - 1)

-- The value that a word stands for. The word is passed when it is one of these.
unfoldable pub word_value {ℓ} : {A : Type ℓ} → List (Bytes × A) → Bytes → Option A
word_value [] text = none
word_value ((word, a) ∷ words) text = if same text word then some a else word_value words text

abbrev value_step {ℓ} : {A : Type ℓ} → Option A → Bytes → Parsing A
value_step none message p = fail message p
value_step (some a) message p = returns (some a) (parser_advance p)

unfoldable pub takes_word {ℓ} : {A : Type ℓ} → List (Bytes × A) → Bytes → Bytes → Parsing A
takes_word words missing unknown p =
    if parser_check p token_identifier
    then value_step (word_value words p.current.lexeme) unknown p
    else fail missing p

-- `[= true | = false]`, where nothing means true.
abbrev pub switch : Bytes → Parsing Bool
switch message = do
  value ←
      clause token_equal
        (takes_word ((codes "true", true) ∷ (codes "false", false) ∷ []) message message)
  give (elim value [ none ↦ true | some b ↦ b ])

abbrev pub identifier_after : Bytes → Bytes → Parsing CString
identifier_after equal missing = do
  name ← assigned equal (takes token_identifier missing)
  give (some name)

-- The number of bytes, or none for VARIABLE.
unfoldable pub internallength_value : Parsing (Option ℤ)
internallength_value = choose ((token_variable, give none) ∷ []) (do
  text ← takes token_number (codes "Expected VARIABLE or number for INTERNALLENGTH")
  give (some (atoi text)))

unfoldable pub storage_value : Parsing ℕ
storage_value =
    choose
      ((token_plain, give b'p')
        ∷ (token_external, give b'e')
        ∷ (token_extended, give b'x')
        ∷ (token_main, give b'm')
        ∷ [])
      (fail (codes "Expected PLAIN, EXTERNAL, EXTENDED, or MAIN for STORAGE"))

abbrev alignment_value : Parsing ℕ
alignment_value =
    takes_word
      ((codes "char", b'c')
        ∷ (codes "int2", b's')
        ∷ (codes "int4", b'i')
        ∷ (codes "double", b'd')
        ∷ [])
      (codes "Expected alignment value") (codes "Invalid alignment value")

-- The first character, if there is one, is stored.
abbrev set_category : BaseTypeDef → Bytes → BaseTypeDef
set_category d [] = d
set_category d (c ∷ _) = record d { category = c; has_category = true }

abbrev set_delimiter : BaseTypeDef → Bytes → BaseTypeDef
set_delimiter d [] = d
set_delimiter d (c ∷ _) = record d { delimiter = c; has_delimiter = true }

abbrev set_internallength : BaseTypeDef → Option ℤ → BaseTypeDef
set_internallength d none = record d {
  is_variable_length = true;
  internallength = negsuc 0;
  has_internallength = true;
}
set_internallength d (some n) = record d {
  is_variable_length = false;
  internallength = n;
  has_internallength = true;
}

-- From PREFERRED on.
unfoldable pub later_base_parameter : BaseTypeDef → Parsing BaseTypeDef
later_base_parameter d =
    choose
      ((
        token_preferred,
        (do
          b ← switch (codes "Expected true or false for PREFERRED")
          give (record d { preferred = b; has_preferred = true })),
      )
        ∷ (
          token_default,
          (do
            text ← assigned (codes "Expected '=' after DEFAULT") (
                takes_any (token_string_literal ∷ token_identifier ∷ token_number ∷ [])
                  (codes "Expected default value"))
            give (record d { default_value = some text })),
        )
        ∷ (
          token_element,
          (do
            name ←
                identifier_after (codes "Expected '=' after ELEMENT")
                  (codes "Expected element type name")
            give (record d { element_type = name })),
        )
        ∷ (
          token_delimiter,
          (do
            text ←
                assigned (codes "Expected '=' after DELIMITER")
                  (takes token_string_literal (codes "Expected string literal for DELIMITER"))
            give (set_delimiter d (strip_quotes text))),
        )
        ∷ (
          token_collatable,
          (do
            name ←
                identifier_after (codes "Expected '=' after COLLATABLE")
                  (codes "Expected true or false for COLLATABLE")
            give (record d { collatable = name })),
        )
        ∷ [])
      (fail (codes "Unknown BASE type parameter"))

unfoldable pub category_parameter : BaseTypeDef → Parsing BaseTypeDef
category_parameter d =
    choose_word (codes "category")
      (do
        text ← assigned (codes "Expected '=' after CATEGORY") (
            takes_any (token_string_literal ∷ token_identifier ∷ [])
              (codes "Expected category value"))
        give (set_category d (strip_quotes text)))
      (later_base_parameter d)

-- From INTERNALLENGTH on.
unfoldable pub layout_parameter : BaseTypeDef → Parsing BaseTypeDef
layout_parameter d =
    choose
      ((
        token_internallength,
        (do
          n ← assigned (codes "Expected '=' after INTERNALLENGTH") internallength_value
          give (set_internallength d n)),
      )
        ∷ (
          token_passedbyvalue,
          (do
            b ← switch (codes "Expected true or false for PASSEDBYVALUE")
            give (record d { passedbyvalue = b; has_passedbyvalue = true })),
        )
        ∷ (
          token_alignment,
          (do
            c ← assigned (codes "Expected '=' after ALIGNMENT") alignment_value
            give (record d { alignment = c; has_alignment = true })),
        )
        ∷ (
          token_storage,
          (do
            c ← assigned (codes "Expected '=' after STORAGE") storage_value
            give (record d { storage = c; has_storage = true })),
        )
        ∷ (
          token_like,
          (do
            name ←
                identifier_after (codes "Expected '=' after LIKE")
                  (codes "Expected type name for LIKE")
            give (record d { like_type = name })),
        )
        ∷ [])
      (category_parameter d)
