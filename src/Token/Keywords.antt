-- ===== src/Token/Keywords.antt =====
-- The keywords of src/parser/lexer.c: the sorted table, and its binary search.
pub mod Search
use schema_compare_c.Base.{
  ℕ, zero, suc, true, false, ◌+◌, ◌-◌, ◌/◌, List, [], ◌∷◌, map, Option, none, some, Ordering, ltb,
  if◌then◌else◌, get_elem?, length,
}
use schema_compare_c.Text.{Bytes, codes}
use schema_compare_c.Text.Ctype.{to_lower}
use schema_compare_c.Text.Strings.{strcmp}
use schema_compare_c.Token.{
  TokenType, token_action, token_alignment, token_all, token_alter, token_always, token_analyze,
  token_as, token_asc, token_by, token_cache, token_canonical, token_cascade, token_check,
  token_collatable, token_collate, token_comments, token_commit, token_compression,
  token_constraint, token_constraints, token_create, token_cycle, token_default, token_defaults,
  token_deferrable, token_deferred, token_delete, token_delimiter, token_desc, token_distinct,
  token_drop, token_element, token_enforced, token_enum, token_exclude, token_excluding,
  token_exists, token_extended, token_external, token_first, token_for, token_foreign, token_from,
  token_full, token_generated, token_global, token_hash, token_identity, token_if, token_immediate,
  token_in, token_include, token_including, token_increment, token_indexes, token_inherit,
  token_inherits, token_initially, token_input, token_internallength, token_key, token_last,
  token_like, token_list, token_local, token_main, token_match, token_maxvalue, token_minvalue,
  token_modulus, token_multirange, token_no, token_not, token_null, token_nulls, token_of,
  token_oids, token_on, token_output, token_overlaps, token_owned, token_partial, token_partition,
  token_passedbyvalue, token_period, token_plain, token_precision, token_preferred, token_preserve,
  token_primary, token_range, token_receive, token_references, token_remainder, token_restrict,
  token_rows, token_send, token_set, token_simple, token_start, token_statistics, token_storage,
  token_stored, token_subtype, token_table, token_tablespace, token_temp, token_temporary, token_to,
  token_type, token_typmod_in, token_typmod_out, token_unique, token_unlogged, token_update,
  token_using, token_values, token_variable, token_virtual, token_where, token_with, token_without,
}

pub record KeywordMap : Type 0 where
  pub keyword : Bytes
  pub type : TokenType

abbrev pub entry : Bytes → TokenType → KeywordMap
entry keyword type = record { keyword = keyword; type = type }

abbrev pub keywords : List KeywordMap
keywords =
    entry (codes "action") token_action
    ∷ entry (codes "alignment") token_alignment
    ∷ entry (codes "all") token_all
    ∷ entry (codes "alter") token_alter
    ∷ entry (codes "always") token_always
    ∷ entry (codes "analyze") token_analyze
    ∷ entry (codes "as") token_as
    ∷ entry (codes "asc") token_asc
    ∷ entry (codes "by") token_by
    ∷ entry (codes "cache") token_cache
    ∷ entry (codes "canonical") token_canonical
    ∷ entry (codes "cascade") token_cascade
    ∷ entry (codes "check") token_check
    ∷ entry (codes "collatable") token_collatable
    ∷ entry (codes "collate") token_collate
    ∷ entry (codes "comments") token_comments
    ∷ entry (codes "commit") token_commit
    ∷ entry (codes "compression") token_compression
    ∷ entry (codes "constraint") token_constraint
    ∷ entry (codes "constraints") token_constraints
    ∷ entry (codes "create") token_create
    ∷ entry (codes "cycle") token_cycle
    ∷ entry (codes "default") token_default
    ∷ entry (codes "defaults") token_defaults
    ∷ entry (codes "deferrable") token_deferrable
    ∷ entry (codes "deferred") token_deferred
    ∷ entry (codes "delete") token_delete
    ∷ entry (codes "delimiter") token_delimiter
    ∷ entry (codes "desc") token_desc
    ∷ entry (codes "distinct") token_distinct
    ∷ entry (codes "drop") token_drop
    ∷ entry (codes "element") token_element
    ∷ entry (codes "enforced") token_enforced
    ∷ entry (codes "enum") token_enum
    ∷ entry (codes "exclude") token_exclude
    ∷ entry (codes "excluding") token_excluding
    ∷ entry (codes "exists") token_exists
    ∷ entry (codes "extended") token_extended
    ∷ entry (codes "external") token_external
    ∷ entry (codes "first") token_first
    ∷ entry (codes "for") token_for
    ∷ entry (codes "foreign") token_foreign
    ∷ entry (codes "from") token_from
    ∷ entry (codes "full") token_full
    ∷ entry (codes "generated") token_generated
    ∷ entry (codes "global") token_global
    ∷ entry (codes "hash") token_hash
    ∷ entry (codes "identity") token_identity
    ∷ entry (codes "if") token_if
    ∷ entry (codes "immediate") token_immediate
    ∷ entry (codes "in") token_in
    ∷ entry (codes "include") token_include
    ∷ entry (codes "including") token_including
    ∷ entry (codes "increment") token_increment
    ∷ entry (codes "indexes") token_indexes
    ∷ entry (codes "inherit") token_inherit
    ∷ entry (codes "inherits") token_inherits
    ∷ entry (codes "initially") token_initially
    ∷ entry (codes "input") token_input
    ∷ entry (codes "internallength") token_internallength
    ∷ entry (codes "key") token_key
    ∷ entry (codes "last") token_last
    ∷ entry (codes "like") token_like
    ∷ entry (codes "list") token_list
    ∷ entry (codes "local") token_local
    ∷ entry (codes "main") token_main
    ∷ entry (codes "match") token_match
    ∷ entry (codes "maxvalue") token_maxvalue
    ∷ entry (codes "minvalue") token_minvalue
    ∷ entry (codes "modulus") token_modulus
    ∷ entry (codes "multirange") token_multirange
    ∷ entry (codes "no") token_no
    ∷ entry (codes "not") token_not
    ∷ entry (codes "null") token_null
    ∷ entry (codes "nulls") token_nulls
    ∷ entry (codes "of") token_of
    ∷ entry (codes "oids") token_oids
    ∷ entry (codes "on") token_on
    ∷ entry (codes "output") token_output
    ∷ entry (codes "overlaps") token_overlaps
    ∷ entry (codes "owned") token_owned
    ∷ entry (codes "partial") token_partial
    ∷ entry (codes "partition") token_partition
    ∷ entry (codes "passedbyvalue") token_passedbyvalue
    ∷ entry (codes "period") token_period
    ∷ entry (codes "plain") token_plain
    ∷ entry (codes "precision") token_precision
    ∷ entry (codes "preferred") token_preferred
    ∷ entry (codes "preserve") token_preserve
    ∷ entry (codes "primary") token_primary
    ∷ entry (codes "range") token_range
    ∷ entry (codes "receive") token_receive
    ∷ entry (codes "references") token_references
    ∷ entry (codes "remainder") token_remainder
    ∷ entry (codes "restrict") token_restrict
    ∷ entry (codes "rows") token_rows
    ∷ entry (codes "send") token_send
    ∷ entry (codes "set") token_set
    ∷ entry (codes "simple") token_simple
    ∷ entry (codes "start") token_start
    ∷ entry (codes "statistics") token_statistics
    ∷ entry (codes "storage") token_storage
    ∷ entry (codes "stored") token_stored
    ∷ entry (codes "subtype") token_subtype
    ∷ entry (codes "table") token_table
    ∷ entry (codes "tablespace") token_tablespace
    ∷ entry (codes "temp") token_temp
    ∷ entry (codes "temporary") token_temporary
    ∷ entry (codes "to") token_to
    ∷ entry (codes "type") token_type
    ∷ entry (codes "typmod_in") token_typmod_in
    ∷ entry (codes "typmod_out") token_typmod_out
    ∷ entry (codes "unique") token_unique
    ∷ entry (codes "unlogged") token_unlogged
    ∷ entry (codes "update") token_update
    ∷ entry (codes "using") token_using
    ∷ entry (codes "values") token_values
    ∷ entry (codes "variable") token_variable
    ∷ entry (codes "virtual") token_virtual
    ∷ entry (codes "where") token_where
    ∷ entry (codes "with") token_with
    ∷ entry (codes "without") token_without
    ∷ []

-- The loop of the search. `high` is `right + 1`, since `right` can be -1; `none` when it ends
-- without a hit.
unfoldable pub search_from :
    ℕ → List KeywordMap → Bytes → (left : ℕ) → (high : ℕ) → Option TokenType
search_from zero table lower left high = none
search_from (suc fuel) table lower left high =
    let mid = (left + high - 1) / 2 in
    let below = search_from fuel table lower left mid in
    let above = search_from fuel table lower (mid + 1) high in
    elim (ltb left high) [
      | false ↦ none
      | true ↦ elim (get_elem? table mid) [
        | none ↦ none
        | some k ↦ elim (strcmp lower k.keyword) [
          | Ordering.eq ↦ some k.type
          | Ordering.lt ↦ below
          | Ordering.gt ↦ above
        ]
      ]
    ]

-- `some` of the type that is stored, or `none` for `false`.
unfoldable pub is_keyword : Bytes → Option TokenType
is_keyword text =
    search_from (suc (length keywords)) keywords (map to_lower text) 0 (length keywords)
