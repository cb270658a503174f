-- ===== src/Memory/Copies.antt =====
-- That the deep copies of src/memory/memory.c lose nothing.
use schema_compare_c.Base.{
  ◌≡◌, refl, sym, ap, ap₂, ◌∙◌, List, [], ◌∷◌, map, Option, none, some, length,
}
use schema_compare_c.Text.{CString}
use schema_compare_c.Ddl.Constraints.{
  StorageParameter, Expression, IndexParameters, OpclassSpec, ExcludeElement, ColumnConstraint,
  ColumnConstraintBody, TableConstraint, TableConstraintBody, ExcludeConstraint,
}
use schema_compare_c.Ddl.Tables.{
  TableElement, column, table_constraint, like, TypedTableElement, typed_column,
  typed_table_constraint,
}
use schema_compare_c.Memory.Clone.{
  unless_null, clone_expression, clone_sequence_options, clone_parameter,
  clone_storage_parameter_list, clone_opclass_spec, clone_index_parameters, clone_exclude_element,
  clone_column_body, clone_column_constraint, put, clone_operators, clone_exclude, clone_table_body,
  with_body, clone_table_constraint, clone_constraint_pointer, clone_table_element,
  clone_typed_table_element,
}

pub unless_null_same {ℓ} :
    {A : Type ℓ} (f : A → A) → ((a : A) → f a ≡ a) → (o : Option A) → unless_null f o ≡ o
unless_null_same f h none = refl
unless_null_same f h (some a) = ap (λ b. some b) (h a)

pub map_same {ℓ} : {A : Type ℓ} (f : A → A) → ((a : A) → f a ≡ a) → (s : List A) → map f s ≡ s
map_same f h [] = refl
map_same f h (a ∷ s) = ap₂ (λ b t. b ∷ t) (h a) (map_same f h s)

pub strings_same : (s : List CString) → map (λ c. c) s ≡ s
strings_same s = map_same (λ c. c) (λ c. refl) s

pub expression_same : (o : Option Expression) → unless_null clone_expression o ≡ o
unfolding clone_expression
expression_same o = unless_null_same clone_expression (λ e. refl) o

pub parameters_same : (s : List StorageParameter) → clone_storage_parameter_list s ≡ s
unfolding clone_storage_parameter_list clone_parameter
parameters_same s = map_same clone_parameter (λ p. refl) s

opclass_same : (src : OpclassSpec) → clone_opclass_spec src ≡ src
unfolding clone_opclass_spec clone_parameter
opclass_same src =
    let e = map_same clone_parameter (λ p. refl) src.parameters in
    λ i. record { opclass = src.opclass; parameters = e i }

index_parameters_same : (src : IndexParameters) → clone_index_parameters src ≡ src
unfolding clone_index_parameters
index_parameters_same src =
    let e = unless_null_same (map (λ c. c)) strings_same src.include in
    let f = unless_null_same clone_storage_parameter_list parameters_same src.with_options in
    λ i. record { include = e i; with_options = f i; tablespace_name = src.tablespace_name }

index_same : (o : Option IndexParameters) → unless_null clone_index_parameters o ≡ o
index_same o = unless_null_same clone_index_parameters index_parameters_same o

exclude_element_same : (src : ExcludeElement) → clone_exclude_element src ≡ src
unfolding clone_exclude_element
exclude_element_same src =
    let e = expression_same src.expression in
    let f = unless_null_same clone_opclass_spec opclass_same src.opclass in
    λ i. record src { expression = e i; opclass = f i }

column_body_same : (b : ColumnConstraintBody) → clone_column_body b ≡ b
unfolding clone_column_body clone_sequence_options
column_body_same (ColumnConstraintBody.not_null n) = refl
column_body_same ColumnConstraintBody.null = refl
column_body_same (ColumnConstraintBody.check e n) =
    ap (λ x. ColumnConstraintBody.check x n) (expression_same e)
column_body_same (ColumnConstraintBody.default_val e) =
    ap (λ x. ColumnConstraintBody.default_val x) (expression_same e)
column_body_same (ColumnConstraintBody.generated_always e s h) =
    ap (λ x. ColumnConstraintBody.generated_always x s h) (expression_same e)
column_body_same (ColumnConstraintBody.generated_identity t o) =
    ap (λ x. ColumnConstraintBody.generated_identity t x)
      (unless_null_same clone_sequence_options (λ s. refl) o)
column_body_same (ColumnConstraintBody.unique n h x) =
    ap (λ y. ColumnConstraintBody.unique n h y) (index_same x)
column_body_same (ColumnConstraintBody.primary_key x) =
    ap (λ y. ColumnConstraintBody.primary_key y) (index_same x)
column_body_same (ColumnConstraintBody.references r) = refl

column_constraint_same : (src : ColumnConstraint) → clone_column_constraint src ≡ src
unfolding clone_column_constraint
column_constraint_same src =
    let e = column_body_same src.constraint in λ i. record src { constraint = e i }

columns_same : (s : List ColumnConstraint) → map clone_column_constraint s ≡ s
columns_same s = map_same clone_column_constraint column_constraint_same s

-- An EXCLUDE constraint has an operator for each element.
abbrev pub BodyIsWhole : TableConstraintBody → Type 0
BodyIsWhole (TableConstraintBody.exclude x) =
    (operators : List CString) × (x.operators ≡ some operators)
    × (length operators ≡ length x.elements)
BodyIsWhole _ = Unit

operators_same :
    (operators : List CString)
    → clone_operators (length operators) (some operators) ≡ some operators
unfolding clone_operators
operators_same [] = refl
operators_same (o ∷ operators) = ap (λ x. put o x) (operators_same operators)

exclude_same :
    (x : ExcludeConstraint) (operators : List CString)
    → x.operators ≡ some operators
    → clone_exclude x (some operators) ≡ some (TableConstraintBody.exclude x)
unfolding clone_exclude
exclude_same x operators e =
    let elements = map_same clone_exclude_element exclude_element_same x.elements in
    let index = index_same x.index_params in
    let where' = expression_same x.where_predicate in
    λ i. some (
      TableConstraintBody.exclude (record x {
        elements = elements i;
        operators = sym e i;
        index_params = index i;
        where_predicate = where' i;
      }))

table_body_same : (b : TableConstraintBody) → BodyIsWhole b → clone_table_body b ≡ some b
unfolding clone_table_body
table_body_same (TableConstraintBody.check e n) w =
    ap (λ x. some (TableConstraintBody.check x n)) (expression_same e)
table_body_same (TableConstraintBody.not_null c n) w = refl
table_body_same (TableConstraintBody.unique u) w =
    let e = strings_same u.columns in
    let f = index_same u.index_params in
    λ i. some (TableConstraintBody.unique (record u { columns = e i; index_params = f i }))
table_body_same (TableConstraintBody.primary_key k) w =
    let e = strings_same k.columns in
    let f = index_same k.index_params in
    λ i. some (TableConstraintBody.primary_key (record k { columns = e i; index_params = f i }))
table_body_same (TableConstraintBody.exclude x) (operators, e, f) =
    ap₂ (λ n o. clone_exclude x (clone_operators n o)) (sym f) e
    ∙ ap (λ o. clone_exclude x o) (operators_same operators)
    ∙ exclude_same x operators e
table_body_same (TableConstraintBody.foreign_key f) w =
    let a = strings_same f.columns in
    let b = strings_same f.refcolumns in
    let c = strings_same f.on_delete_columns in
    let d = strings_same f.on_update_columns in
    λ i. some (
      TableConstraintBody.foreign_key (record f {
        columns = a i;
        refcolumns = b i;
        on_delete_columns = c i;
        on_update_columns = d i;
      }))

abbrev pub ConstraintIsWhole : Option TableConstraint → Type 0
ConstraintIsWhole none = Unit
ConstraintIsWhole (some c) = BodyIsWhole c.constraint

pub constraint_same :
    (c : Option TableConstraint) → ConstraintIsWhole c → clone_constraint_pointer c ≡ some c
unfolding clone_constraint_pointer clone_table_constraint
constraint_same none w = refl
constraint_same (some c) w =
    ap
      (λ b. elim (with_body c b) as (λ _. Option (Option TableConstraint)) [
        | none ↦ none
        | some d ↦ some (some d)
      ])
      (table_body_same c.constraint w)

abbrev pub ElementIsWhole : TableElement → Type 0
ElementIsWhole (table_constraint c) = ConstraintIsWhole c
ElementIsWhole _ = Unit

abbrev pub TypedIsWhole : TypedTableElement → Type 0
TypedIsWhole (typed_table_constraint c) = ConstraintIsWhole c
TypedIsWhole _ = Unit

pub element_same : (e : TableElement) → ElementIsWhole e → clone_table_element e ≡ some e
unfolding clone_table_element
element_same (column c) w =
    let e = columns_same c.constraints in λ i. some (column (record c { constraints = e i }))
element_same (table_constraint c) w =
    ap
      (λ d. elim d as (λ _. Option TableElement) [
        | none ↦ none
        | some x ↦ some (table_constraint x)
      ])
      (constraint_same c w)
element_same (like l) w = refl

pub typed_same : (e : TypedTableElement) → TypedIsWhole e → clone_typed_table_element e ≡ some e
unfolding clone_typed_table_element
typed_same (typed_column c) w =
    let e = columns_same c.constraints in λ i. some (typed_column (record c { constraints = e i }))
typed_same (typed_table_constraint c) w =
    ap
      (λ d. elim d as (λ _. Option TypedTableElement) [
        | none ↦ none
        | some x ↦ some (typed_table_constraint x)
      ])
      (constraint_same c w)
