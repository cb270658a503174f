-- ===== src/Parser/TableConstraints.antt =====
-- src/parser/parse_constraint.c: `parse_table_constraint`.
use schema_compare_c.Base.{false, List, [], ◌∷◌, none, some, is_some}
use schema_compare_c.Text.{Bytes, CString, codes}
use schema_compare_c.Ddl.Enums.{full, no_action, distinct}
use schema_compare_c.Ddl.Constraints.{TableConstraint, TableConstraintBody}
use schema_compare_c.Token.{
  token_identifier, token_check, token_lparen, token_rparen, token_unique, token_primary, token_key,
  token_references, token_foreign, token_exclude,
}
use schema_compare_c.Parser.{
  parser_expect, Parsing, ◌>>=◌, ◌>>◌, give, fail, optional, takes, choose, clause, separated,
}
use schema_compare_c.Parser.Parts.{parse_expression, parse_index_parameters}
use schema_compare_c.Parser.Constraints.{
  value_or, constraint_name, no_flags, in_brackets, nulls_distinct_clause, strict_action, actions,
}

unfoldable pub column_name : Parsing CString
column_name = do name ← takes token_identifier (codes "Expected column name"); give (some name)

abbrev pub column_list : Bytes → Bytes → Parsing (List CString)
column_list opening closing = in_brackets opening (separated column_name) closing

unfoldable pub table_check : Parsing TableConstraintBody
table_check = do
  expr ←
      in_brackets (codes "Expected '(' after CHECK") parse_expression
        (codes "Expected ')' after CHECK expression")
  give (TableConstraintBody.check (some expr) false)

unfoldable pub table_unique : Parsing TableConstraintBody
table_unique = do
  columns ← column_list (codes "Expected '(' after UNIQUE") (codes "Expected ')' after column list")
  nulls ← nulls_distinct_clause
  index_params ← optional parse_index_parameters
  give (
      TableConstraintBody.unique (record {
        columns = columns;
        without_overlaps_column = none;
        nulls_distinct = value_or distinct nulls;
        has_nulls_distinct = is_some nulls;
        index_params = index_params;
      }))

unfoldable pub table_primary_key : Parsing TableConstraintBody
table_primary_key = do
  parser_expect token_key (codes "Expected KEY after PRIMARY")
  columns ←
      column_list (codes "Expected '(' after PRIMARY KEY") (codes "Expected ')' after column list")
  give (
      TableConstraintBody.primary_key
        (record { columns = columns; without_overlaps_column = none; index_params = none }))

unfoldable pub table_foreign_key : Parsing TableConstraintBody
table_foreign_key = do
  parser_expect token_key (codes "Expected KEY after FOREIGN")
  columns ←
      column_list (codes "Expected '(' after FOREIGN KEY") (codes "Expected ')' after column list")
  parser_expect token_references (codes "Expected REFERENCES")
  reftable ← takes token_identifier (codes "Expected table name after REFERENCES")
  refcolumns ← clause token_lparen (do
    names ← separated column_name
    parser_expect token_rparen (codes "Expected ')' after referenced column list")
    give names)
  (on_delete, on_update) ←
      actions (strict_action (codes "Expected referential action after ON UPDATE"))
  give (
      TableConstraintBody.foreign_key (record {
        columns = columns;
        period_column = none;
        reftable = some reftable;
        refcolumns = value_or [] refcolumns;
        ref_period_column = none;
        match_type = full;
        has_match_type = false;
        on_delete = value_or no_action on_delete;
        has_on_delete = is_some on_delete;
        on_update = value_or no_action on_update;
        has_on_update = is_some on_update;
        on_delete_columns = [];
        on_update_columns = [];
      }))

unfoldable pub parse_table_constraint : Parsing TableConstraint
parse_table_constraint = do
  name ← constraint_name
  body ←
      choose
        ((token_check, table_check)
          ∷ (token_unique, table_unique)
          ∷ (token_primary, table_primary_key)
          ∷ (token_foreign, table_foreign_key)
          ∷ (token_exclude, fail (codes "EXCLUDE constraints not fully implemented yet"))
          ∷ [])
        (fail (codes "Expected table constraint type"))
  give (record { constraint_name = name; constraint = body; flags = no_flags })
