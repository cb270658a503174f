-- ===== src/Examples/Quoting.antt =====
-- Quoting at concrete inputs.
use schema_compare_c.Base.{◌++◌, ◌≡◌, refl, true, false, [], ◌∷◌, some, arith}
use schema_compare_c.Text.{Bytes, codes}
use schema_compare_c.Text.Ctype.{is_alnum, to_lower}
use schema_compare_c.Text.Strings.{same}
use schema_compare_c.StringUtils.Builder.{StringBuilder, sb_create}
use schema_compare_c.StringUtils.Builder.Growth.{IsSound, sb_create-IsSound}
use schema_compare_c.Sql.Quote.{
  is_reserved_keyword, is_among, has_special, starts_with_digit, needs_quote, sb_append_identifier,
  sb_append_literal,
}
use schema_compare_c.Sql.Quote.ReadBack.{
  read_quoted, sb_append_literal_lem, sb_append_identifier_lem,
}

sb_append_literal_lem_example :
    (sb' : StringBuilder) × (text : Bytes) × (sb_append_literal
        (λ _. true)
        sb_create
        (some (codes "it's"))
      ≡ some sb')
    × (sb'.contents ≡ sb_create.contents ++ 39 ∷ text)
    × (read_quoted 39 text ≡ some (codes "it's", []))
    × IsSound sb'
sb_append_literal_lem_example =
    sb_append_literal_lem (λ _. true) (λ _. refl) sb_create (codes "it's") sb_create-IsSound
      (unfold sb_create in omega arith)

order_is_reserved : needs_quote (codes "Order") ≡ true
unfolding needs_quote is_reserved_keyword is_among same to_lower
order_is_reserved = refl

sb_append_identifier_lem_example :
    (sb' : StringBuilder) × (text : Bytes) × (sb_append_identifier
        (λ _. true)
        sb_create
        (some (codes "Order"))
      ≡ some sb')
    × (sb'.contents ≡ sb_create.contents ++ b'"' ∷ text)
    × (read_quoted b'"' text ≡ some (codes "Order", []))
    × IsSound sb'
sb_append_identifier_lem_example =
    sb_append_identifier_lem (λ _. true) (λ _. refl) sb_create (codes "Order") sb_create-IsSound
      order_is_reserved (unfold sb_create in omega arith)

-- A name with an upper case letter is left without quotes, and PostgreSQL reads it in lower case.
mixed_case_unquoted : needs_quote (codes "Orders") ≡ false
unfolding needs_quote is_reserved_keyword is_among has_special starts_with_digit is_alnum same
    to_lower
mixed_case_unquoted = refl
