-- ===== src/Parser/Tables.antt =====
-- src/parser/parse_column.c, src/parser/parse_partition.c and src/parser/parse_table.c: columns, table
-- elements and the statement CREATE TABLE.
use schema_compare_c.Base.{
  ℕ, zero, suc, true, false, ◌&&◌, ◌||◌, List, [], ◌∷◌, ◌++◌, map, Option, none, some, ◌==◌,
  if◌then◌else◌,
}
use schema_compare_c.Text.{Bytes, codes}
use schema_compare_c.Text.Ctype.{to_lower}
use schema_compare_c.Text.Strings.{same}
use schema_compare_c.Ddl.Enums.{StorageType, PartitionType}
use schema_compare_c.Ddl.Constraints.{ColumnConstraint}
use schema_compare_c.Ddl.Tables.{PartitionByClause, PartitionBoundSpec, default_bound, ColumnDef}
use schema_compare_c.Token.{
  TokenType, token_identifier, token_comments, token_precision, token_dot, token_lparen,
  token_rparen, token_number, token_comma, token_lbracket, token_rbracket, token_collate,
  token_storage, token_plain, token_external, token_extended, token_main, token_default,
  token_compression, token_constraint, token_not, token_null, token_check, token_generated,
  token_unique, token_primary, token_references, token_partition, token_by, token_range, token_list,
  token_hash, token_eof, token_in, token_from, token_with,
}
use schema_compare_c.Parser.{
  parser_check, parser_error, parser_advance, parser_match, parser_expect, remaining, Reply,
  Parsing, returns, runs_on, ◌>>=◌, ◌>>◌, give, null, fail, optional, takes, choose, clause,
}
use schema_compare_c.Parser.Parts.{checks_any, depth_after}
use schema_compare_c.Parser.Constraints.{value_or, parse_column_constraint}

-- NULL without an error if there is no name.
unfoldable pub type_name : Parsing Bytes
type_name p =
    if parser_check p token_identifier
    then returns (some p.current.lexeme) (parser_advance p)
    else returns none p

-- The lexeme of a token that may stand there, which is passed then.
unfoldable pub lexeme_of : TokenType → Parsing Bytes
lexeme_of type p =
    if parser_check p type
    then returns (some p.current.lexeme) (parser_advance p)
    else returns (some []) p

-- PRECISION after DOUBLE
unfoldable pub second_word : Bytes → Parsing Bytes
second_word base p =
    if same (map to_lower base) (codes "double") && parser_check p token_precision
    then returns (some (b' ' ∷ p.current.lexeme)) (parser_advance p)
    else returns (some []) p

unfoldable pub qualifier : Parsing Bytes
qualifier = do
  name ←
      clause token_dot (takes token_identifier (codes "Expected type name after schema qualifier"))
  give (elim name [ none ↦ [] | some n ↦ b'.' ∷ n ])

unfoldable pub type_modifier : Parsing Bytes
type_modifier = do
  modifier ← clause token_lparen (do
    first ← takes token_number (codes "Expected number in type modifier")
    second ←
        clause token_comma
          (takes token_number (codes "Expected number after comma in type modifier"))
    parser_expect token_rparen (codes "Expected ')' after type modifier")
    give (codes "(" ++ first ++ elim second [ none ↦ [] | some n ↦ b',' ∷ n ] ++ codes ")"))
  give (value_or [] modifier)

unfoldable pub arrays_from : ℕ → Parsing Bytes
arrays_from zero = λ p. runs_on
arrays_from (suc fuel) = do
  found ← parser_match token_lbracket
  if found
      then (do
        size ← lexeme_of token_number
        parser_expect token_rbracket (codes "Expected ']' in array type")
        rest ← arrays_from fuel
        give (codes "[" ++ size ++ codes "]" ++ rest))
      else give []

unfoldable pub array_notation : Parsing Bytes
array_notation p = arrays_from (suc (remaining p)) p

unfoldable pub parse_data_type : Parsing Bytes
parse_data_type = do
  base ← type_name
  word ← second_word base
  name ← qualifier
  modifier ← type_modifier
  arrays ← array_notation
  give (base ++ word ++ name ++ modifier ++ arrays)

-- An error where a part is NULL.
abbrev pub or_fail {ℓ} : {A : Type ℓ} → Bytes → Reply A → Reply A
or_fail message (returns none p) = returns none (parser_error message p)
or_fail message (returns (some a) p) = returns (some a) p
or_fail message runs_on = runs_on

unfoldable pub column_def_name : Parsing Bytes
column_def_name p =
    if parser_check p token_identifier || parser_check p token_comments
    then returns (some p.current.lexeme) (parser_advance p)
    else fail (codes "Expected column name") p

abbrev pub column_data_type : Parsing Bytes
column_data_type p = or_fail (codes "Expected data type after column name") (parse_data_type p)

unfoldable pub storage_type : Parsing StorageType
storage_type =
    choose
      ((token_plain, give StorageType.plain)
        ∷ (token_external, give StorageType.external)
        ∷ (token_extended, give StorageType.extended)
        ∷ (token_main, give StorageType.main)
        ∷ (token_default, give StorageType.default)
        ∷ [])
      (fail (codes "Expected storage type (PLAIN, EXTERNAL, EXTENDED, MAIN, DEFAULT)"))

abbrev pub constraint_starters : List TokenType
constraint_starters =
    token_constraint ∷ token_not ∷ token_null ∷ token_check ∷ token_default ∷ token_generated
    ∷ token_unique ∷ token_primary ∷ token_references ∷ []

-- The constraints are in the reverse of the order in which they are written.
abbrev pub add_constraint : ColumnDef → Option ColumnConstraint → Option ColumnDef
add_constraint col none = some col
add_constraint col (some c) = some (record col { constraints = c ∷ col.constraints })

unfoldable pub constraint_attribute : ColumnDef → Parsing (Option ColumnDef)
constraint_attribute col p =
    if checks_any p constraint_starters
    then (optional parse_column_constraint >>= (λ c. give (add_constraint col c))) p
    else returns (some none) p

-- One attribute; `none` when there are no more.
unfoldable pub column_attribute : ColumnDef → Parsing (Option ColumnDef)
column_attribute col =
    choose
      ((
        token_collate,
        (do
          name ← takes token_identifier (codes "Expected collation name after COLLATE")
          give (some (record col { collation = some name }))),
      )
        ∷ (
          token_storage,
          (do
            storage ← storage_type
            give (some (record col { has_storage = true; storage_type = storage }))),
        )
        ∷ (
          token_compression,
          (do
            method ← takes token_identifier (codes "Expected compression method after COMPRESSION")
            give (some (record col { compression_method = some method }))),
        )
        ∷ [])
      (constraint_attribute col)

unfoldable pub attributes_from : ℕ → ColumnDef → Parsing ColumnDef
attributes_from zero col = λ p. runs_on
attributes_from (suc fuel) col = do
  next ← column_attribute col
  elim next [ none ↦ give col | some col' ↦ attributes_from fuel col' ]

abbrev pub column_attributes : ColumnDef → Parsing ColumnDef
column_attributes col p = attributes_from (suc (remaining p)) col p

unfoldable pub parse_column_def : Parsing ColumnDef
parse_column_def = do
  name ← column_def_name
  type ← column_data_type
  column_attributes (record {
    column_name = some name;
    data_type = some type;
    storage_type = StorageType.plain;
    has_storage = false;
    compression_method = none;
    collation = none;
    constraints = [];
  })

-- The tokens up to the closing bracket, which are not looked at.
unfoldable pub skip_brackets : ℕ → (depth : ℕ) → Parsing (Unit {0})
skip_brackets zero depth p = runs_on
skip_brackets (suc fuel) depth p =
    let more = skip_brackets fuel (depth_after depth p) (parser_advance p) in
    if depth == 0 || parser_check p token_eof then returns (some tt) p else more

abbrev pub partition_type : Parsing PartitionType
partition_type =
    choose
      ((token_range, give PartitionType.range)
        ∷ (token_list, give PartitionType.list)
        ∷ (token_hash, give PartitionType.hash)
        ∷ [])
      (fail (codes "Expected RANGE, LIST, or HASH after PARTITION BY"))

abbrev pub skip_elements : Parsing (Unit {0})
skip_elements p = skip_brackets (suc (remaining p)) 1 p

unfoldable pub parse_partition_by : Parsing PartitionByClause
parse_partition_by = do
  found ← parser_match token_partition
  if found
      then (do
        parser_expect token_by (codes "Expected BY after PARTITION")
        type ← partition_type
        parser_expect token_lparen (codes "Expected '(' after partition type")
        skip_elements
        give (record { partition_type = type; elements = [] }))
      else null

unfoldable pub parse_partition_bound_spec : Parsing PartitionBoundSpec
parse_partition_bound_spec =
    choose
      ((token_in, fail (codes "IN partition bounds not fully implemented yet"))
        ∷ (token_from, fail (codes "RANGE partition bounds not fully implemented yet"))
        ∷ (token_with, fail (codes "HASH partition bounds not fully implemented yet"))
        ∷ (token_default, give default_bound)
        ∷ [])
      (fail (codes "Expected partition bound specification"))
