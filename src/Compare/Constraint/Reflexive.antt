-- ===== src/Compare/Constraint/Reflexive.antt =====
-- The equivalences of src/compare/compare_constraint.c at one constraint on both sides.
use schema_compare_c.Base.{
  ℕ, ◌≡◌, refl, Bool, true, false, List, [], ◌∷◌, Option, none, some, arith,
}
use schema_compare_c.Text.{CString}
use schema_compare_c.Ddl.Constraints.{
  Expression, OpclassSpec, ExcludeElement, ColumnConstraint, ColumnConstraintBody, TableConstraint,
  TableConstraintBody,
}
use schema_compare_c.Compare.Options.{CompareOptions, names_equal}
use schema_compare_c.Compare.Equality.{names_relation, expressions_relation}
use schema_compare_c.Compare.Constraint.{
  specified_equal, expression_pointers_equal, columns_equal, references_equivalent,
  column_bodies_equivalent, column_constraints_equivalent, uniques_equivalent,
  primary_keys_equivalent, foreign_keys_equivalent, opclasses_equal, exclude_elements_equal,
  next_operator, rest_operators, operators_equal, exclude_lists_equal, excludes_equivalent,
  bodies_equivalent, constraint_names_match, constraints_equivalent,
}

pub specified_equal_refl : (has : Bool) (value : ℕ) → specified_equal has value has value ≡ true
unfolding specified_equal
specified_equal_refl true value = ground arith
specified_equal_refl false value = refl

module _ (opts : Option CompareOptions) where
  pub names_refl : (a : CString) → names_equal a a opts ≡ true
  names_refl a = (names_relation opts).reflexive a

  pub expression_pointers_refl : (e : Option Expression) → expression_pointers_equal e e opts ≡ true
  unfolding expression_pointers_equal
  expression_pointers_refl none = refl
  expression_pointers_refl (some e) = (expressions_relation opts).reflexive e.expression

  pub columns_equal_refl : (cs : List CString) → columns_equal cs cs opts ≡ true
  unfolding columns_equal
  columns_equal_refl [] = refl
  columns_equal_refl (c ∷ cs) = rw (names_refl c) (columns_equal_refl cs)

  opclasses_equal_refl : (o : Option OpclassSpec) → opclasses_equal o o opts ≡ true
  unfolding opclasses_equal
  opclasses_equal_refl none = refl
  opclasses_equal_refl (some o) = names_refl o.opclass

  operators_equal_refl : (ops : Option (List CString)) → operators_equal ops ops opts ≡ true
  unfolding operators_equal
  operators_equal_refl none = refl
  operators_equal_refl (some ops) = names_refl (next_operator ops)

ruleset refl_laws = (
  names_refl, specified_equal_refl, expression_pointers_refl, columns_equal_refl,
  opclasses_equal_refl, operators_equal_refl,
)

module _ (opts : Option CompareOptions) where
  exclude_elements_equal_refl : (e : ExcludeElement) → exclude_elements_equal e e opts ≡ true
  unfolding exclude_elements_equal
  exclude_elements_equal_refl e = simp refl_laws

  exclude_lists_equal_refl :
      (es : List ExcludeElement) (ops : Option (List CString))
      → exclude_lists_equal es es ops ops opts ≡ true
  unfolding exclude_lists_equal
  exclude_lists_equal_refl [] ops = refl
  exclude_lists_equal_refl (e ∷ es) ops =
      simp
        (refl_laws, exclude_elements_equal_refl e, exclude_lists_equal_refl es (rest_operators ops))

  bodies_equivalent_refl : (b : TableConstraintBody) → bodies_equivalent b b opts ≡ true
  unfolding bodies_equivalent uniques_equivalent primary_keys_equivalent foreign_keys_equivalent
      excludes_equivalent
  bodies_equivalent_refl (TableConstraintBody.check e _) = expression_pointers_refl opts e
  bodies_equivalent_refl (TableConstraintBody.not_null n _) = names_refl opts n
  bodies_equivalent_refl (TableConstraintBody.unique u) = simp refl_laws
  bodies_equivalent_refl (TableConstraintBody.primary_key p) = simp refl_laws
  bodies_equivalent_refl (TableConstraintBody.exclude x) =
      simp (refl_laws, exclude_lists_equal_refl)
  bodies_equivalent_refl (TableConstraintBody.foreign_key f) = simp refl_laws

constraint_names_match_refl :
    (n : CString) (opts : Option CompareOptions) → constraint_names_match n n opts ≡ true
unfolding constraint_names_match
constraint_names_match_refl n none = refl
constraint_names_match_refl n (some opts) = ground (arith, names_refl (some opts) n)

-- Every table constraint is equivalent to itself, whatever the options.
pub constraints_equivalent_refl :
    (c : TableConstraint) (opts : Option CompareOptions) → constraints_equivalent c c opts ≡ true
unfolding constraints_equivalent
constraints_equivalent_refl c opts = simp (constraint_names_match_refl, bodies_equivalent_refl)

column_bodies_equivalent_refl :
    (b : ColumnConstraintBody) (opts : Option CompareOptions)
    → column_bodies_equivalent b b opts ≡ true
unfolding column_bodies_equivalent references_equivalent
column_bodies_equivalent_refl (ColumnConstraintBody.not_null _) opts = refl
column_bodies_equivalent_refl ColumnConstraintBody.null opts = refl
column_bodies_equivalent_refl (ColumnConstraintBody.check e _) opts =
    expression_pointers_refl opts e
column_bodies_equivalent_refl (ColumnConstraintBody.default_val e) opts =
    expression_pointers_refl opts e
column_bodies_equivalent_refl (ColumnConstraintBody.generated_always e _ _) opts =
    expression_pointers_refl opts e
column_bodies_equivalent_refl (ColumnConstraintBody.generated_identity t _) opts = ground arith
column_bodies_equivalent_refl (ColumnConstraintBody.unique _ _ _) opts = refl
column_bodies_equivalent_refl (ColumnConstraintBody.primary_key _) opts = refl
column_bodies_equivalent_refl (ColumnConstraintBody.references r) opts = simp refl_laws

-- Every column constraint is equivalent to itself, whatever the options.
pub column_constraints_equivalent_refl :
    (c : ColumnConstraint) (opts : Option CompareOptions)
    → column_constraints_equivalent c c opts ≡ true
unfolding column_constraints_equivalent
column_constraints_equivalent_refl c opts = column_bodies_equivalent_refl c.constraint opts
