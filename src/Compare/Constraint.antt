-- ===== src/Compare/Constraint.antt =====
-- When two constraints are one: `constraints_equivalent` and `column_constraints_equivalent` of
-- src/compare/compare_constraint.c. Two pointers to one constraint compare as two equal constraints
-- do, so the test of the pointers matters only for NULL, which no caller passes.
pub mod Reflexive
use schema_compare_c.Base.{
  ℕ, Bool, true, false, not, ◌&&◌, ◌||◌, List, [], ◌∷◌, Option, none, some, iff, ◌==◌,
  if◌then◌else◌,
}
use schema_compare_c.Text.{Bytes, CString}
use schema_compare_c.Ddl.Enums.{
  identity_type_value, match_type_value, referential_action_value, nulls_distinct_value,
  sort_order_value, nulls_order_value,
}
use schema_compare_c.Ddl.Constraints.{
  Expression, OpclassSpec, ExcludeElement, ReferencesConstraint, ColumnConstraint,
  ColumnConstraintBody, TableUniqueConstraint, TablePrimaryKeyConstraint, ExcludeConstraint,
  ForeignKeyConstraint, TableConstraint, TableConstraintBody,
}
use schema_compare_c.Compare.Options.{CompareOptions, names_equal}
use schema_compare_c.Compare.Expressions.{expressions_equal}

-- An option with its flag and value: equal if neither side has it, or both have the same value.
unfoldable pub specified_equal : Bool → ℕ → Bool → ℕ → Bool
specified_equal has1 value1 has2 value2 =
    if has1 || has2 then iff has1 has2 && value1 == value2 else true

-- Two expression pointers: both NULL, or two equal expressions.
unfoldable pub expression_pointers_equal :
    Option Expression → Option Expression → Option CompareOptions → Bool
expression_pointers_equal none none opts = true
expression_pointers_equal none (some _) opts = false
expression_pointers_equal (some _) none opts = false
expression_pointers_equal (some e1) (some e2) opts =
    expressions_equal e1.expression e2.expression opts

-- The test of the counts and the loop over two arrays of column names.
unfoldable pub columns_equal : List CString → List CString → Option CompareOptions → Bool
columns_equal [] [] opts = true
columns_equal [] (_ ∷ _) opts = false
columns_equal (_ ∷ _) [] opts = false
columns_equal (c1 ∷ cs1) (c2 ∷ cs2) opts = names_equal c1 c2 opts && columns_equal cs1 cs2 opts

unfoldable pub references_equivalent :
    ReferencesConstraint → ReferencesConstraint → Option CompareOptions → Bool
references_equivalent ref1 ref2 opts =
    names_equal ref1.reftable ref2.reftable opts
    && names_equal ref1.refcolumn ref2.refcolumn opts
    && specified_equal ref1.has_match_type (match_type_value ref1.match_type) ref2.has_match_type
        (match_type_value ref2.match_type)
    && specified_equal ref1.has_on_delete (referential_action_value ref1.on_delete)
        ref2.has_on_delete (referential_action_value ref2.on_delete)
    && specified_equal ref1.has_on_update (referential_action_value ref1.on_update)
        ref2.has_on_update (referential_action_value ref2.on_update)

-- The test of the tags and the `switch`.
unfoldable pub column_bodies_equivalent :
    ColumnConstraintBody → ColumnConstraintBody → Option CompareOptions → Bool
column_bodies_equivalent (ColumnConstraintBody.not_null _) (ColumnConstraintBody.not_null _) opts =
    true
column_bodies_equivalent ColumnConstraintBody.null ColumnConstraintBody.null opts = true
column_bodies_equivalent (ColumnConstraintBody.check e1 _) (ColumnConstraintBody.check e2 _) opts =
    expression_pointers_equal e1 e2 opts
column_bodies_equivalent (ColumnConstraintBody.default_val e1) (ColumnConstraintBody.default_val e2)
      opts =
    expression_pointers_equal e1 e2 opts
column_bodies_equivalent (ColumnConstraintBody.generated_identity t1 _)
      (ColumnConstraintBody.generated_identity t2 _) opts =
    identity_type_value t1 == identity_type_value t2
column_bodies_equivalent (ColumnConstraintBody.generated_always e1 _ _)
      (ColumnConstraintBody.generated_always e2 _ _) opts =
    expression_pointers_equal e1 e2 opts
column_bodies_equivalent (ColumnConstraintBody.unique _ _ _) (ColumnConstraintBody.unique _ _ _)
      opts =
    true
column_bodies_equivalent (ColumnConstraintBody.primary_key _) (ColumnConstraintBody.primary_key _)
      opts =
    true
column_bodies_equivalent (ColumnConstraintBody.references r1) (ColumnConstraintBody.references r2)
      opts =
    references_equivalent r1 r2 opts
column_bodies_equivalent _ _ opts = false

unfoldable pub column_constraints_equivalent :
    ColumnConstraint → ColumnConstraint → Option CompareOptions → Bool
column_constraints_equivalent c1 c2 opts = column_bodies_equivalent c1.constraint c2.constraint opts

unfoldable pub uniques_equivalent :
    TableUniqueConstraint → TableUniqueConstraint → Option CompareOptions → Bool
uniques_equivalent uniq1 uniq2 opts =
    columns_equal uniq1.columns uniq2.columns opts
    && names_equal uniq1.without_overlaps_column uniq2.without_overlaps_column opts
    && specified_equal uniq1.has_nulls_distinct (nulls_distinct_value uniq1.nulls_distinct)
        uniq2.has_nulls_distinct (nulls_distinct_value uniq2.nulls_distinct)

unfoldable pub primary_keys_equivalent :
    TablePrimaryKeyConstraint → TablePrimaryKeyConstraint → Option CompareOptions → Bool
primary_keys_equivalent pk1 pk2 opts =
    columns_equal pk1.columns pk2.columns opts
    && names_equal pk1.without_overlaps_column pk2.without_overlaps_column opts

unfoldable pub foreign_keys_equivalent :
    ForeignKeyConstraint → ForeignKeyConstraint → Option CompareOptions → Bool
foreign_keys_equivalent fk1 fk2 opts =
    names_equal fk1.reftable fk2.reftable opts
    && columns_equal fk1.columns fk2.columns opts
    && columns_equal fk1.refcolumns fk2.refcolumns opts
    && names_equal fk1.period_column fk2.period_column opts
    && names_equal fk1.ref_period_column fk2.ref_period_column opts
    && specified_equal fk1.has_match_type (match_type_value fk1.match_type) fk2.has_match_type
        (match_type_value fk2.match_type)
    && specified_equal fk1.has_on_delete (referential_action_value fk1.on_delete) fk2.has_on_delete
        (referential_action_value fk2.on_delete)
    && specified_equal fk1.has_on_update (referential_action_value fk1.on_update) fk2.has_on_update
        (referential_action_value fk2.on_update)
    && columns_equal fk1.on_delete_columns fk2.on_delete_columns opts
    && columns_equal fk1.on_update_columns fk2.on_update_columns opts

unfoldable pub opclasses_equal :
    Option OpclassSpec → Option OpclassSpec → Option CompareOptions → Bool
opclasses_equal none none opts = true
opclasses_equal none (some _) opts = false
opclasses_equal (some _) none opts = false
opclasses_equal (some o1) (some o2) opts = names_equal o1.opclass o2.opclass opts

-- One element, without its operator.
unfoldable pub exclude_elements_equal :
    ExcludeElement → ExcludeElement → Option CompareOptions → Bool
exclude_elements_equal elem1 elem2 opts =
    names_equal elem1.column_name elem2.column_name opts
    && expression_pointers_equal elem1.expression elem2.expression opts
    && names_equal elem1.collation elem2.collation opts
    && opclasses_equal elem1.opclass elem2.opclass opts
    && specified_equal elem1.has_sort_order (sort_order_value elem1.sort_order) elem2.has_sort_order
        (sort_order_value elem2.sort_order)
    && specified_equal elem1.has_nulls_order (nulls_order_value elem1.nulls_order)
        elem2.has_nulls_order (nulls_order_value elem2.nulls_order)

-- The operator of the next element. The arrays are as long as the elements; past the end, where C
-- would read beyond the array, it is NULL here.
unfoldable pub next_operator : List CString → CString
next_operator [] = none
next_operator (op ∷ _) = op

unfoldable pub rest_operators : Option (List CString) → Option (List CString)
rest_operators none = none
rest_operators (some []) = some []
rest_operators (some (_ ∷ ops)) = some ops

unfoldable pub operators_equal :
    Option (List CString) → Option (List CString) → Option CompareOptions → Bool
operators_equal none none opts = true
operators_equal none (some _) opts = false
operators_equal (some _) none opts = false
operators_equal (some ops1) (some ops2) opts =
    names_equal (next_operator ops1) (next_operator ops2) opts

-- The test of the counts and the loop over the elements with their operators.
unfoldable pub exclude_lists_equal :
    List ExcludeElement
    → List ExcludeElement
    → Option (List CString)
    → Option (List CString)
    → Option CompareOptions
    → Bool
exclude_lists_equal [] [] ops1 ops2 opts = true
exclude_lists_equal [] (_ ∷ _) ops1 ops2 opts = false
exclude_lists_equal (_ ∷ _) [] ops1 ops2 opts = false
exclude_lists_equal (e1 ∷ es1) (e2 ∷ es2) ops1 ops2 opts =
    exclude_elements_equal e1 e2 opts
    && operators_equal ops1 ops2 opts
    && exclude_lists_equal es1 es2 (rest_operators ops1) (rest_operators ops2) opts

unfoldable pub excludes_equivalent :
    ExcludeConstraint → ExcludeConstraint → Option CompareOptions → Bool
excludes_equivalent excl1 excl2 opts =
    names_equal excl1.index_method excl2.index_method opts
    && exclude_lists_equal excl1.elements excl2.elements excl1.operators excl2.operators opts
    && expression_pointers_equal excl1.where_predicate excl2.where_predicate opts

-- The test of the tags and the `switch`.
unfoldable pub bodies_equivalent :
    TableConstraintBody → TableConstraintBody → Option CompareOptions → Bool
bodies_equivalent (TableConstraintBody.check e1 _) (TableConstraintBody.check e2 _) opts =
    expression_pointers_equal e1 e2 opts
bodies_equivalent (TableConstraintBody.unique u1) (TableConstraintBody.unique u2) opts =
    uniques_equivalent u1 u2 opts
bodies_equivalent (TableConstraintBody.primary_key p1) (TableConstraintBody.primary_key p2) opts =
    primary_keys_equivalent p1 p2 opts
bodies_equivalent (TableConstraintBody.foreign_key f1) (TableConstraintBody.foreign_key f2) opts =
    foreign_keys_equivalent f1 f2 opts
bodies_equivalent (TableConstraintBody.exclude x1) (TableConstraintBody.exclude x2) opts =
    excludes_equivalent x1 x2 opts
bodies_equivalent (TableConstraintBody.not_null n1 _) (TableConstraintBody.not_null n2 _) opts =
    names_equal n1 n2 opts
bodies_equivalent _ _ opts = false

-- The names have to match if options are given that do not ignore them.
unfoldable pub constraint_names_match : CString → CString → Option CompareOptions → Bool
constraint_names_match n1 n2 none = true
constraint_names_match n1 n2 (some opts) =
    if opts.ignore_constraint_names then true else names_equal n1 n2 (some opts)

unfoldable pub constraints_equivalent :
    TableConstraint → TableConstraint → Option CompareOptions → Bool
constraints_equivalent c1 c2 opts =
    constraint_names_match c1.constraint_name c2.constraint_name opts
    && bodies_equivalent c1.constraint c2.constraint opts
