-- ===== src/Parser/TablesTotal.antt =====
-- That `parse_table_constraint` of src/parser/parse_constraint.c comes to an end.
use schema_compare_c.Base.{refl}
use schema_compare_c.Text.{Bytes}
use schema_compare_c.Token.{
  token_identifier, token_lparen, token_rparen, token_key, token_references,
}
use schema_compare_c.Parser.Ends.{
  Ends, never, always, then_Ends, passed_Ends, give-Ends, fail-Ends, expect_Ends, takes-Ends,
  weaken_Ends, choose-Ends, optional-Ends, clause-Ends, separated-Ends,
}
use schema_compare_c.Parser.Total.{parse_expression-Ends, parse_index_parameters-Ends}
use schema_compare_c.Parser.TableConstraints.{
  column_list, column_name, table_check, table_unique, table_primary_key, table_foreign_key,
  parse_table_constraint,
}
use schema_compare_c.Parser.ConstraintsTotal.{
  constraint_name-Ends, in_brackets-Ends, nulls_distinct_clause-Ends, action_or-Ends, actions-Ends,
}

column_name-Ends : Ends always column_name
unfolding column_name
column_name-Ends = passed_Ends (takes-Ends token_identifier _ refl) (λ _. give-Ends)

column_list-Ends : (opening closing : Bytes) → Ends always (column_list opening closing)
column_list-Ends opening closing =
    in_brackets-Ends opening closing (weaken_Ends (separated-Ends column_name-Ends))

table_unique-Ends : Ends never table_unique
unfolding table_unique
table_unique-Ends = passed_Ends (column_list-Ends _ _) (λ _.
    then_Ends nulls_distinct_clause-Ends
      (λ _. then_Ends (optional-Ends parse_index_parameters-Ends) (λ _. give-Ends)))

table_foreign_key-Ends : Ends never table_foreign_key
unfolding table_foreign_key
table_foreign_key-Ends = passed_Ends (expect_Ends token_key _ refl) (λ _.
    passed_Ends (column_list-Ends _ _) (λ _. passed_Ends (expect_Ends token_references _ refl) (λ _.
      passed_Ends (takes-Ends token_identifier _ refl) (λ _.
        then_Ends
          (clause-Ends token_lparen refl (
            passed_Ends {s = always} (separated-Ends column_name-Ends)
              (λ _. passed_Ends (expect_Ends token_rparen _ refl) (λ _. give-Ends))))
          (λ _.
            then_Ends (actions-Ends _ (action_or-Ends _ _ (fail-Ends _) (fail-Ends _)))
              (λ _. give-Ends))))))

pub parse_table_constraint-Ends : Ends always parse_table_constraint
unfolding parse_table_constraint table_check table_primary_key
parse_table_constraint-Ends = then_Ends constraint_name-Ends (λ name.
    passed_Ends
      (choose-Ends _
        (
          refl,
          passed_Ends (in_brackets-Ends _ _ parse_expression-Ends) (λ _. give-Ends),
          (
            refl,
            table_unique-Ends,
            (
              refl,
              passed_Ends (expect_Ends token_key _ refl)
                  (λ _. passed_Ends (column_list-Ends _ _) (λ _. give-Ends)),
              (refl, table_foreign_key-Ends, (refl, fail-Ends _, tt)),
            ),
          ),
        )
        (fail-Ends _))
      (λ _. give-Ends))
