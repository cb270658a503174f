-- ===== src/Parser/Constraints.antt =====
-- src/parser/parse_constraint.c: the constraints of a column and of a table. What a constraint does
-- not say is zero, as `calloc` leaves it.
use schema_compare_c.Base.{Bool, true, false, List, [], ◌∷◌, Option, none, some, is_some}
use schema_compare_c.Text.{Bytes, CString, codes}
use schema_compare_c.Ddl.Enums.{
  stored, virtual, by_default, MatchType, full, partial, simple, ReferentialAction, no_action,
  restrict, cascade, set_null, set_default, NullsDistinct, distinct, not_distinct,
}
use schema_compare_c.Ddl.Constraints.{
  ColumnConstraint, ColumnConstraintBody, ConstraintFlags, SequenceOptions,
}
use schema_compare_c.Token.{
  TokenType, token_constraint, token_identifier, token_not, token_null, token_no, token_inherit,
  token_check, token_lparen, token_rparen, token_default, token_generated, token_always, token_as,
  token_stored, token_virtual, token_by, token_identity, token_unique, token_nulls, token_distinct,
  token_primary, token_key, token_references, token_match, token_full, token_partial, token_simple,
  token_on, token_delete, token_update, token_action, token_restrict, token_cascade, token_set,
  token_deferrable, token_initially, token_deferred, token_immediate, token_enforced,
}
use schema_compare_c.Parser.{
  parser_error, parser_match, parser_expect, Parsing, returns, ◌>>=◌, ◌>>◌, give, fail, optional,
  takes, choose, clause,
}
use schema_compare_c.Parser.Parts.{parse_expression, parse_index_parameters, parse_sequence_options}

abbrev pub value_or {ℓ} : {A : Type ℓ} → A → Option A → A
value_or d none = d
value_or d (some a) = a

-- `CONSTRAINT name`
abbrev pub constraint_name : Parsing CString
constraint_name =
    clause token_constraint
      (takes token_identifier (codes "Expected constraint name after CONSTRAINT"))

abbrev pub no_flags : ConstraintFlags
no_flags = record {
  deferrable = false;
  not_deferrable = false;
  initially_deferred = false;
  initially_immediate = false;
  enforced = false;
  not_enforced = false;
  has_deferrable = false;
  has_initially = false;
  has_enforced = false;
}

-- An error that leaves the constraint as it is so far.
abbrev pub initially_error : Parsing (Option Bool)
initially_error p =
    returns (some none) (parser_error (codes "Expected DEFERRED or IMMEDIATE after INITIALLY") p)

-- `some true` for DEFERRED, `some false` for IMMEDIATE.
unfoldable pub initially : Parsing (Option Bool)
initially =
    choose ((token_deferred, give (some true)) ∷ (token_immediate, give (some false)) ∷ [])
      initially_error

unfoldable pub initially_flags : Bool → Option (Option Bool) → ConstraintFlags
initially_flags deferrable none = record no_flags {
  deferrable = deferrable;
  has_deferrable = deferrable;
}
initially_flags deferrable (some at) = record no_flags {
  deferrable = deferrable;
  has_deferrable = deferrable;
  has_initially = true;
  initially_deferred = value_or false at;
  initially_immediate = elim at [ some false ↦ true | _ ↦ false ];
}

-- ENFORCED, which is not looked for after an error in INITIALLY.
unfoldable pub enforced_after : ConstraintFlags → Option (Option Bool) → Parsing ConstraintFlags
enforced_after flags (some none) = give flags
enforced_after flags _ = do
  enforced ← parser_match token_enforced
  give (record flags { enforced = enforced; has_enforced = enforced })

-- The flags that it sets; its caller does not look at what it returns.
unfoldable pub parse_constraint_attributes : Parsing ConstraintFlags
parse_constraint_attributes = do
  deferrable ← parser_match token_deferrable
  at ← clause token_initially initially
  enforced_after (initially_flags deferrable at) at

-- Up to the closing bracket of CHECK or of GENERATED ALWAYS AS.
abbrev pub in_brackets {ℓ} : {A : Type ℓ} → Bytes → Parsing A → Bytes → Parsing A
in_brackets opening m closing = do
  parser_expect token_lparen opening
  a ← m
  parser_expect token_rparen closing
  give a

unfoldable pub not_null_constraint : Parsing ColumnConstraintBody
not_null_constraint = do
  parser_expect token_null (codes "Expected NULL after NOT")
  no_inherit ←
      clause token_no
        (choose ((token_inherit, give true) ∷ []) (fail (codes "Expected INHERIT after NO")))
  give (ColumnConstraintBody.not_null (is_some no_inherit))

unfoldable pub check_constraint : Parsing ColumnConstraintBody
check_constraint = do
  expr ←
      in_brackets (codes "Expected '(' after CHECK") parse_expression
        (codes "Expected ')' after CHECK expression")
  no_inherit ← clause token_no (parser_match token_inherit)
  give (ColumnConstraintBody.check (some expr) (value_or false no_inherit))

unfoldable pub default_constraint : Parsing ColumnConstraintBody
default_constraint = do expr ← parse_expression; give (ColumnConstraintBody.default_val (some expr))

unfoldable pub generated_always_constraint : Parsing ColumnConstraintBody
generated_always_constraint = do
  parser_expect token_as (codes "Expected AS after GENERATED ALWAYS")
  expr ←
      in_brackets (codes "Expected '(' after AS") parse_expression
        (codes "Expected ')' after expression")
  storage ←
      choose ((token_stored, give (some stored)) ∷ (token_virtual, give (some virtual)) ∷ [])
        (give none)
  give (
      ColumnConstraintBody.generated_always (some expr) (value_or stored storage) (is_some storage))

abbrev pub sequence_in_brackets : Parsing (Option SequenceOptions)
sequence_in_brackets = clause token_lparen (do
  opts ← parse_sequence_options
  parser_expect token_rparen (codes "Expected ')' after sequence options")
  give opts)

unfoldable pub generated_by_default_constraint : Parsing ColumnConstraintBody
generated_by_default_constraint = do
  parser_expect token_default (codes "Expected DEFAULT after GENERATED BY")
  parser_expect token_as (codes "Expected AS after GENERATED BY DEFAULT")
  parser_expect token_identity (codes "Expected IDENTITY after AS")
  opts ← sequence_in_brackets
  give (ColumnConstraintBody.generated_identity by_default opts)

unfoldable pub generated_constraint : Parsing ColumnConstraintBody
generated_constraint =
    choose
      ((token_always, generated_always_constraint)
        ∷ (token_by, generated_by_default_constraint)
        ∷ [])
      (fail (codes "Expected ALWAYS or BY DEFAULT after GENERATED"))

-- `NULLS [NOT] DISTINCT`
unfoldable pub nulls_distinct_clause : Parsing (Option NullsDistinct)
nulls_distinct_clause = clause token_nulls (
    choose
      ((
        token_not,
        (do parser_expect token_distinct (codes "Expected DISTINCT after NOT"); give not_distinct),
      )
        ∷ (token_distinct, give distinct)
        ∷ [])
      (fail (codes "Expected DISTINCT or NOT DISTINCT after NULLS")))

unfoldable pub unique_constraint : Parsing ColumnConstraintBody
unique_constraint = do
  nulls ← nulls_distinct_clause
  index_params ← optional parse_index_parameters
  give (ColumnConstraintBody.unique (value_or distinct nulls) (is_some nulls) index_params)

unfoldable pub primary_key_constraint : Parsing ColumnConstraintBody
primary_key_constraint = do
  parser_expect token_key (codes "Expected KEY after PRIMARY")
  index_params ← optional parse_index_parameters
  give (ColumnConstraintBody.primary_key index_params)

unfoldable pub match_type : Parsing MatchType
match_type =
    choose
      ((token_full, give full) ∷ (token_partial, give partial) ∷ (token_simple, give simple) ∷ [])
      (fail (codes "Expected FULL, PARTIAL, or SIMPLE after MATCH"))

-- A referential action, with what is done when SET has nothing of its own behind it, and when there
-- is no action at all.
unfoldable pub action_or :
    Parsing ReferentialAction → Parsing ReferentialAction → Parsing ReferentialAction
action_or no_set no_action' =
    choose
      ((
        token_no,
        (do parser_expect token_action (codes "Expected ACTION after NO"); give no_action),
      )
        ∷ (token_restrict, give restrict)
        ∷ (token_cascade, give cascade)
        ∷ (
          token_set,
          choose ((token_null, give set_null) ∷ (token_default, give set_default) ∷ []) no_set,
        )
        ∷ [])
      no_action'

abbrev pub strict_action : Bytes → Parsing ReferentialAction
strict_action message = action_or (fail (codes "Expected NULL or DEFAULT after SET")) (fail message)

-- The action of ON UPDATE in a column's REFERENCES, which stays at zero without an error.
abbrev pub lenient_action : Parsing ReferentialAction
lenient_action = action_or (give no_action) (give no_action)

abbrev pub Actions : Type 0
Actions = Option ReferentialAction × Option ReferentialAction

-- `ON DELETE …`, which ON UPDATE may follow, or `ON UPDATE …` alone; ON is passed in any case.
unfoldable pub actions : Parsing ReferentialAction → Parsing Actions
actions update = do
  found ← clause token_on (
      choose
        ((
          token_delete,
          (do
            on_delete ← strict_action (codes "Expected referential action after ON DELETE")
            on_update ← clause token_on (clause token_update update)
            give (some on_delete, value_or none on_update)),
        )
          ∷ (token_update, (do on_update ← update; give (none, some on_update)))
          ∷ [])
        (give (none, none)))
  give (value_or (none, none) found)

unfoldable pub references_constraint : Parsing ColumnConstraintBody
references_constraint = do
  reftable ← takes token_identifier (codes "Expected table name after REFERENCES")
  refcolumn ← clause token_lparen (do
    name ← takes token_identifier (codes "Expected column name")
    parser_expect token_rparen (codes "Expected ')' after column name")
    give name)
  match ← clause token_match match_type
  (on_delete, on_update) ← actions lenient_action
  give (
      ColumnConstraintBody.references (record {
        reftable = some reftable;
        refcolumn = refcolumn;
        match_type = value_or full match;
        has_match_type = is_some match;
        on_delete = value_or no_action on_delete;
        has_on_delete = is_some on_delete;
        on_update = value_or no_action on_update;
        has_on_update = is_some on_update;
      }))

abbrev pub column_branches : List (TokenType × Parsing ColumnConstraintBody)
column_branches =
    (token_not, not_null_constraint)
    ∷ (token_null, give ColumnConstraintBody.null)
    ∷ (token_check, check_constraint)
    ∷ (token_default, default_constraint)
    ∷ (token_generated, generated_constraint)
    ∷ (token_unique, unique_constraint)
    ∷ (token_primary, primary_key_constraint)
    ∷ (token_references, references_constraint)
    ∷ []

unfoldable pub parse_column_constraint : Parsing ColumnConstraint
parse_column_constraint = do
  name ← constraint_name
  body ← choose column_branches (fail (codes "Expected constraint type"))
  flags ← parse_constraint_attributes
  give (record { constraint_name = name; constraint = body; flags = flags })
