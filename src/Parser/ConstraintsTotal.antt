-- ===== src/Parser/ConstraintsTotal.antt =====
-- That the functions of src/parser/parse_constraint.c for whole constraints come to an end.
use schema_compare_c.Base.{refl, Bool, Option, none, some, arith}
use schema_compare_c.Text.{Bytes, CString, codes}
use schema_compare_c.Ddl.Enums.{ReferentialAction}
use schema_compare_c.Ddl.Constraints.{ConstraintFlags, ColumnConstraint, ColumnConstraintBody}
use schema_compare_c.Token.{
  token_constraint, token_identifier, token_null, token_no, token_inherit, token_lparen,
  token_rparen, token_default, token_as, token_identity, token_nulls, token_distinct, token_key,
  token_match, token_on, token_update, token_action, token_deferrable, token_initially,
  token_enforced,
}
use schema_compare_c.Parser.{Parsing, give, ◌>>=◌}
use schema_compare_c.Parser.Ends.{
  Branches, Ends, never, always, then_Ends, passed_Ends, give-Ends, fail-Ends, match_Ends,
  expect_Ends, takes-Ends, weaken_Ends, choose-Ends, optional-Ends, clause-Ends,
  parser_error-remaining,
}
use schema_compare_c.Parser.Total.{parse_expression-Ends, parse_index_parameters-Ends}
use schema_compare_c.Parser.Constraints.{
  constraint_name, initially, enforced_after, parse_constraint_attributes, in_brackets,
  not_null_constraint, check_constraint, default_constraint, generated_always_constraint,
  generated_by_default_constraint, generated_constraint, nulls_distinct_clause, unique_constraint,
  primary_key_constraint, match_type, action_or, actions, references_constraint,
  parse_column_constraint, column_branches,
}
use schema_compare_c.Parser.SequenceTotal.{parse_sequence_options-Ends}

pub constraint_name-Ends : Ends never constraint_name
constraint_name-Ends = clause-Ends token_constraint refl (takes-Ends token_identifier _ refl)

pub in_brackets-Ends {ℓ} :
    {A : Type ℓ} (opening : Bytes) {m : Parsing A} (closing : Bytes)
    → Ends never m
    → Ends always (in_brackets opening m closing)
in_brackets-Ends opening closing h =
    passed_Ends (expect_Ends token_lparen _ refl)
      (λ _. then_Ends h (λ a. passed_Ends (expect_Ends token_rparen _ refl) (λ _. give-Ends)))

initially-Ends : Ends never initially
unfolding initially
initially-Ends =
    choose-Ends _ (refl, give-Ends, (refl, give-Ends, tt))
      (record {
        within = λ p.
            let e =
              parser_error-remaining (codes "Expected DEFERRED or IMMEDIATE after INITIALLY") p in
            omega (arith, e);
      })

enforced_after-Ends :
    (flags : ConstraintFlags) (at : Option (Option Bool)) → Ends never (enforced_after flags at)
unfolding enforced_after
enforced_after-Ends flags none =
    then_Ends (weaken_Ends (match_Ends token_enforced refl)) (λ _. give-Ends)
enforced_after-Ends flags (some none) = give-Ends
enforced_after-Ends flags (some (some _)) =
    then_Ends (weaken_Ends (match_Ends token_enforced refl)) (λ _. give-Ends)

parse_constraint_attributes-Ends : Ends never parse_constraint_attributes
unfolding parse_constraint_attributes
parse_constraint_attributes-Ends =
    then_Ends (weaken_Ends (match_Ends token_deferrable refl)) (λ deferrable.
      then_Ends (clause-Ends token_initially refl initially-Ends) (λ at. enforced_after-Ends _ at))

not_null_constraint-Ends : Ends never not_null_constraint
unfolding not_null_constraint
not_null_constraint-Ends = passed_Ends (expect_Ends token_null _ refl) (λ _.
    then_Ends
      (clause-Ends token_no refl (choose-Ends {s = never} _ (refl, give-Ends, tt) (fail-Ends _)))
      (λ _. give-Ends))

check_constraint-Ends : Ends never check_constraint
unfolding check_constraint
check_constraint-Ends =
    passed_Ends (in_brackets-Ends _ _ parse_expression-Ends)
      (λ _. then_Ends (clause-Ends token_no refl (match_Ends token_inherit refl)) (λ _. give-Ends))

generated_constraint-Ends : Ends never generated_constraint
unfolding generated_constraint generated_always_constraint generated_by_default_constraint
generated_constraint-Ends =
    choose-Ends _
      (
        refl,
        passed_Ends (expect_Ends token_as _ refl) (λ _.
            passed_Ends (in_brackets-Ends _ _ parse_expression-Ends) (λ _.
              then_Ends
                (choose-Ends {s = never} _ (refl, give-Ends, (refl, give-Ends, tt)) give-Ends)
                (λ _. give-Ends))),
        (
          refl,
          passed_Ends (expect_Ends token_default _ refl) (λ _.
              passed_Ends (expect_Ends token_as _ refl) (λ _.
                passed_Ends (expect_Ends token_identity _ refl) (λ _.
                  then_Ends
                    (clause-Ends {s = always} token_lparen refl (
                      then_Ends parse_sequence_options-Ends
                        (λ _. passed_Ends (expect_Ends token_rparen _ refl) (λ _. give-Ends))))
                    (λ _. give-Ends)))),
          tt,
        ),
      )
      (fail-Ends _)

pub nulls_distinct_clause-Ends : Ends never nulls_distinct_clause
unfolding nulls_distinct_clause
nulls_distinct_clause-Ends = clause-Ends {s = never} token_nulls refl (
    choose-Ends _
      (
        refl,
        passed_Ends (expect_Ends token_distinct _ refl) (λ _. give-Ends),
        (refl, give-Ends, tt),
      )
      (fail-Ends _))

unique_constraint-Ends : Ends never unique_constraint
unfolding unique_constraint
unique_constraint-Ends =
    then_Ends nulls_distinct_clause-Ends
      (λ _. then_Ends (optional-Ends parse_index_parameters-Ends) (λ _. give-Ends))

primary_key_constraint-Ends : Ends never primary_key_constraint
unfolding primary_key_constraint
primary_key_constraint-Ends =
    passed_Ends (expect_Ends token_key _ refl)
      (λ _. then_Ends (optional-Ends parse_index_parameters-Ends) (λ _. give-Ends))

match_type-Ends : Ends never match_type
unfolding match_type
match_type-Ends =
    choose-Ends _ (refl, give-Ends, (refl, give-Ends, (refl, give-Ends, tt))) (fail-Ends _)

pub action_or-Ends :
    (m n : Parsing ReferentialAction) → Ends never m → Ends never n → Ends never (action_or m n)
unfolding action_or
action_or-Ends m n h k =
    choose-Ends _
      (
        refl,
        passed_Ends (expect_Ends token_action _ refl) (λ _. give-Ends),
        (
          refl,
          give-Ends,
          (refl, give-Ends, (refl, choose-Ends _ (refl, give-Ends, (refl, give-Ends, tt)) h, tt)),
        ),
      )
      k

pub actions-Ends :
    (update : Parsing ReferentialAction) → Ends never update → Ends never (actions update)
unfolding actions
actions-Ends update h =
    then_Ends
      (clause-Ends {s = never} token_on refl (
        choose-Ends _
          (
            refl,
            then_Ends (action_or-Ends _ _ (fail-Ends _) (fail-Ends _)) (λ _.
                then_Ends (clause-Ends token_on refl (clause-Ends token_update refl h))
                  (λ _. give-Ends)),
            (refl, then_Ends h (λ _. give-Ends), tt),
          )
          give-Ends))
      (λ _. give-Ends)

references_constraint-Ends : Ends never references_constraint
unfolding references_constraint
references_constraint-Ends = passed_Ends (takes-Ends token_identifier _ refl) (λ _.
    then_Ends
      (clause-Ends token_lparen refl (
        passed_Ends {s = always} (takes-Ends token_identifier _ refl)
          (λ _. passed_Ends (expect_Ends token_rparen _ refl) (λ _. give-Ends))))
      (λ _. then_Ends (clause-Ends token_match refl match_type-Ends) (λ _.
        then_Ends (actions-Ends _ (action_or-Ends _ _ give-Ends give-Ends)) (λ _. give-Ends))))

-- The branches of `parse_column_constraint`.
pub column_branches-Ends : Branches column_branches
unfolding default_constraint
column_branches-Ends = (
  refl,
  not_null_constraint-Ends,
  (
    refl,
    give-Ends,
    (
      refl,
      check_constraint-Ends,
      (
        refl,
        then_Ends parse_expression-Ends (λ _. give-Ends),
        (
          refl,
          generated_constraint-Ends,
          (
            refl,
            unique_constraint-Ends,
            (refl, primary_key_constraint-Ends, (refl, references_constraint-Ends, tt)),
          ),
        ),
      ),
    ),
  ),
)

-- What follows the body of a constraint, and what follows its name.
pub with_flags-Ends :
    (name : CString) (body : ColumnConstraintBody)
    → Ends never (
        parse_constraint_attributes >>= (λ flags.
          give {A = ColumnConstraint}
            (record { constraint_name = name; constraint = body; flags = flags })))
with_flags-Ends name body = then_Ends parse_constraint_attributes-Ends (λ _. give-Ends)

pub after_name-Ends :
    {m : Parsing ColumnConstraintBody} (name : CString)
    → Ends never m
    → Ends never (
        m >>= (λ body. parse_constraint_attributes >>= (λ flags.
          give {A = ColumnConstraint}
            (record { constraint_name = name; constraint = body; flags = flags }))))
after_name-Ends name h = then_Ends h (with_flags-Ends name)

pub parse_column_constraint-Ends : Ends never parse_column_constraint
unfolding parse_column_constraint
parse_column_constraint-Ends =
    then_Ends constraint_name-Ends
      (λ name. after_name-Ends name (choose-Ends _ column_branches-Ends (fail-Ends _)))
