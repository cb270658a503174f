-- ===== src/Parser/CreateTable.antt =====
-- src/parser/parse_table.c: table elements and the statement CREATE TABLE.
use schema_compare_c.Base.{
  ℕ, zero, suc, Bool, true, false, ◌||◌, List, [], ◌∷◌, Option, none, some, if◌then◌else◌, is_some,
}
use schema_compare_c.Text.{Bytes, CString, codes}
use schema_compare_c.Ddl.Enums.{
  TableType, normal, temporary, unlogged, TempScope, none_scope, global, local, OnCommitAction,
  preserve_rows, delete_rows, LikeOptionType,
}
use schema_compare_c.Ddl.Constraints.{StorageParameter}
use schema_compare_c.Ddl.Tables.{LikeOption, LikeClause, TableElement, regular, CreateTableStmt}
use schema_compare_c.Token.{
  TokenType, token_identifier, token_comments, token_lparen, token_rparen, token_storage,
  token_compression, token_constraint, token_not, token_check, token_generated, token_unique,
  token_primary, token_partition, token_eof, token_comma, token_with, token_including,
  token_excluding, token_constraints, token_defaults, token_identity, token_indexes,
  token_statistics, token_all, token_like, token_foreign, token_exclude, token_create, token_global,
  token_local, token_temporary, token_temp, token_unlogged, token_table, token_if, token_exists,
  token_of, token_inherits, token_using, token_oids, token_without, token_on, token_commit,
  token_preserve, token_rows, token_delete, token_drop, token_tablespace, token_semicolon,
}
use schema_compare_c.Parser.{
  parser_check, parser_match, parser_expect, parser_synchronize, remaining, Parsing, returns,
  runs_on, ◌>>=◌, ◌>>◌, give, fail, optional, takes, choose, clause, separated,
}
use schema_compare_c.Parser.Parts.{checks_any, storage_parameter}
use schema_compare_c.Parser.Constraints.{value_or}
use schema_compare_c.Parser.TableConstraints.{parse_table_constraint}
use schema_compare_c.Parser.Tables.{parse_column_def, parse_partition_by}

unfoldable pub like_option_type : Parsing LikeOptionType
like_option_type =
    choose
      ((token_comments, give LikeOptionType.comments)
        ∷ (token_compression, give LikeOptionType.compression)
        ∷ (token_constraints, give LikeOptionType.constraints)
        ∷ (token_defaults, give LikeOptionType.defaults)
        ∷ (token_generated, give LikeOptionType.generated)
        ∷ (token_identity, give LikeOptionType.identity)
        ∷ (token_indexes, give LikeOptionType.indexes)
        ∷ (token_statistics, give LikeOptionType.statistics)
        ∷ (token_storage, give LikeOptionType.storage)
        ∷ (token_all, give LikeOptionType.all)
        ∷ [])
      (fail (codes "Expected LIKE option after INCLUDING/EXCLUDING"))

abbrev pub like_option : (including : Bool) → Parsing (Option LikeOption)
like_option including = do
  type ← like_option_type
  give (some (record { option = type; including = including }))

-- One round of the loop; `none` where it ends. The token that has been matched, which is `previous`
-- from then on, says whether the option is included.
unfoldable pub next_like_option : Parsing (Option LikeOption)
next_like_option =
    choose ((token_including, like_option true) ∷ (token_excluding, like_option false) ∷ [])
      (give none)

unfoldable pub like_options_from : ℕ → Parsing (List LikeOption)
like_options_from zero = λ p. runs_on
like_options_from (suc fuel) = do
  next ← next_like_option
  elim next [ none ↦ give [] | some o ↦ like_options_from fuel >>= (λ rest. give (o ∷ rest)) ]

abbrev pub like_options : Parsing (List LikeOption)
like_options p = like_options_from (suc (remaining p)) p

unfoldable pub parse_like_clause : Parsing LikeClause
parse_like_clause = do
  source ← takes token_identifier (codes "Expected table name after LIKE")
  options ← like_options
  give (record { source_table = some source; options = options })

abbrev pub table_constraint_starters : List TokenType
table_constraint_starters =
    token_constraint ∷ token_check ∷ token_unique ∷ token_primary ∷ token_foreign ∷ token_exclude
    ∷ []

unfoldable pub constraint_or_column : Parsing TableElement
constraint_or_column p =
    if checks_any p table_constraint_starters
    then (parse_table_constraint >>= (λ c. give (TableElement.table_constraint (some c)))) p
    else (parse_column_def >>= (λ col. give (TableElement.column col))) p

unfoldable pub parse_table_element : Parsing TableElement
parse_table_element =
    choose ((token_like, (do l ← parse_like_clause; give (TableElement.like l))) ∷ [])
      constraint_or_column

-- The loop of `parse_table_element_list`. After an error the fuel may not be enough.
unfoldable pub elements_from : ℕ → Parsing (List TableElement)
elements_from zero p = runs_on
elements_from (suc fuel) p =
    if parser_check p token_rparen || parser_check p token_eof
    then returns (some []) p
    else (optional parse_table_element >>= λ e. elim e [
      | none ↦ λ q. elements_from fuel (parser_synchronize q)
      | some element ↦ do
        more ← parser_match token_comma
        if more then elements_from fuel >>= (λ rest. give (element ∷ rest)) else give (element ∷ [])
    ])
        p

abbrev pub elements_in_table : Parsing (List TableElement)
elements_in_table p = elements_from (suc (remaining p)) p

unfoldable pub parse_table_element_list : Parsing (List TableElement)
parse_table_element_list = do
  parser_expect token_lparen (codes "Expected '(' after table name")
  elements ← elements_in_table
  parser_expect token_rparen (codes "Expected ')' after table elements")
  give elements

abbrev pub temp_scope : Parsing TempScope
temp_scope = choose ((token_global, give global) ∷ (token_local, give local) ∷ []) (give none_scope)

abbrev pub table_type : Parsing TableType
table_type =
    choose
      ((token_temporary, give temporary)
        ∷ (token_temp, give temporary)
        ∷ (token_unlogged, give unlogged)
        ∷ [])
      (give normal)

abbrev pub if_not_exists : Parsing (Option Bool)
if_not_exists = clause token_if (do
  parser_expect token_not (codes "Expected NOT after IF")
  parser_expect token_exists (codes "Expected EXISTS after IF NOT")
  give true)

abbrev pub inherited_table : Parsing CString
inherited_table = do
  name ← takes token_identifier (codes "Expected table name in INHERITS clause")
  give (some name)

unfoldable pub inherits_clause : Parsing (List CString)
inherits_clause = do
  names ← clause token_inherits (do
    parser_expect token_lparen (codes "Expected '(' after INHERITS")
    names ← separated inherited_table
    parser_expect token_rparen (codes "Expected ')' after INHERITS list")
    give names)
  give (value_or [] names)

unfoldable pub storage_options : Parsing (Option (List StorageParameter))
storage_options p =
    if parser_check p token_lparen
    then (do
      parser_expect token_lparen (codes "Expected '(' after WITH")
      parameters ← separated storage_parameter
      parser_expect token_rparen (codes "Expected ')' after WITH options")
      give (some parameters))
        p
    else fail (codes "Expected OIDS or '(' after WITH") p

-- The options of WITH, and whether WITHOUT OIDS stands there.
unfoldable pub with_or_without : Parsing (Option (List StorageParameter) × Bool)
with_or_without =
    choose
      ((
        token_with,
        (do options ← choose ((token_oids, give none) ∷ []) storage_options; give (options, false)),
      )
        ∷ (
          token_without,
          (do parser_expect token_oids (codes "Expected OIDS after WITHOUT"); give (none, true)),
        )
        ∷ [])
      (give (none, false))

unfoldable pub on_commit_clause : Parsing (Option OnCommitAction)
on_commit_clause = clause token_on (do
  parser_expect token_commit (codes "Expected COMMIT after ON")
  choose
      ((
        token_preserve,
        (do parser_expect token_rows (codes "Expected ROWS after PRESERVE"); give preserve_rows),
      )
        ∷ (
          token_delete,
          (do parser_expect token_rows (codes "Expected ROWS after DELETE"); give delete_rows),
        )
        ∷ (token_drop, give OnCommitAction.drop)
        ∷ [])
      (fail (codes "Expected PRESERVE ROWS, DELETE ROWS, or DROP after ON COMMIT")))

-- A regular table, behind its name; a list that is NULL for an error is an empty one.
unfoldable pub regular_table :
    TempScope → TableType → (if_not_exists : Bool) → Bytes → Parsing CreateTableStmt
regular_table scope type exists name = do
  elements ← optional parse_table_element_list
  inherits ← inherits_clause
  partition ← optional parse_partition_by
  using ←
      clause token_using (takes token_identifier (codes "Expected access method name after USING"))
  (options, without) ← with_or_without
  commit ← on_commit_clause
  tablespace ←
      clause token_tablespace
        (takes token_identifier (codes "Expected tablespace name after TABLESPACE"))
  _ ← parser_match token_semicolon
  give (record {
    temp_scope = scope;
    table_type = type;
    if_not_exists = exists;
    table_name = some name;
    table_def = regular (value_or [] elements) inherits;
    partition_by = partition;
    using_method = using;
    with_options = options;
    without_oids = without;
    on_commit = value_or preserve_rows commit;
    has_on_commit = is_some commit;
    tablespace_name = tablespace;
  })

unfoldable pub parser_parse_create_table : Parsing CreateTableStmt
parser_parse_create_table = do
  parser_expect token_create (codes "Expected CREATE")
  scope ← temp_scope
  type ← table_type
  parser_expect token_table (codes "Expected TABLE")
  exists ← if_not_exists
  name ← takes token_identifier (codes "Expected table name")
  choose
      ((token_of, fail (codes "OF TYPE tables not yet implemented"))
        ∷ (
          token_partition,
          (do
            parser_expect token_of (codes "Expected OF after PARTITION")
            fail (codes "PARTITION tables not yet implemented")),
        )
        ∷ [])
      (regular_table scope type (is_some exists) name)
