-- ===== src/Memory/Statements.antt =====
-- That `clone_create_table_stmt` of src/memory/memory.c loses nothing of a statement.
use schema_compare_c.Base.{◌≡◌, refl, ap, ap₂, ◌∙◌, List, [], ◌∷◌, Option, some}
use schema_compare_c.Ddl.Tables.{
  PartitionElement, PartitionByClause, BoundValue, PartitionBoundSpec, in_bound, range_bound,
  hash_bound, default_bound, TableDef, regular, of_type, partition, CreateTableStmt,
}
use schema_compare_c.Memory.Clone.{
  unless_null, clone_expression, clone_storage_parameter_list, put, clone_partition_element,
  clone_partition_by_clause, clone_bound_value, clone_partition_bound_spec, clone_table_element,
  clone_typed_table_element, clone_each, clone_table_def, with_def, clone_create_table_stmt,
}
use schema_compare_c.Memory.Copies.{
  unless_null_same, map_same, strings_same, expression_same, parameters_same, ElementIsWhole,
  TypedIsWhole, element_same, typed_same,
}

-- Each of the elements has the property.
abbrev pub Each {ℓ} : {A : Type ℓ} → (A → Type 0) → List A → Type 0
Each P [] = Unit
Each P (a ∷ s) = P a × Each P s

clone_each_same {ℓ} :
    {A : Type ℓ} (P : A → Type 0) (clone : A → Option A)
    → ((a : A) → P a → clone a ≡ some a)
    → (s : List A) → Each P s
    → clone_each clone s ≡ some s
unfolding clone_each
clone_each_same P clone h [] w = refl
clone_each_same P clone h (a ∷ s) (p, w) =
    rw (h a p, clone_each) (ap (λ x. put a x) (clone_each_same P clone h s w))

partition_element_same : (src : PartitionElement) → clone_partition_element src ≡ src
unfolding clone_partition_element
partition_element_same src =
    let e = expression_same src.expression in λ i. record src { expression = e i }

partition_same : (src : PartitionByClause) → clone_partition_by_clause src ≡ src
unfolding clone_partition_by_clause
partition_same src =
    let e = map_same clone_partition_element partition_element_same src.elements in
    λ i. record src { elements = e i }

bound_value_same : (src : BoundValue) → clone_bound_value src ≡ src
unfolding clone_bound_value
bound_value_same src = let e = expression_same src.expr in λ i. record src { expr = e i }

bound_same : (src : PartitionBoundSpec) → clone_partition_bound_spec src ≡ src
unfolding clone_partition_bound_spec
bound_same (in_bound exprs) =
    ap (λ s. in_bound s) (map_same (unless_null clone_expression) expression_same exprs)
bound_same (range_bound f t) =
    ap₂ (λ x y. range_bound x y) (map_same clone_bound_value bound_value_same f)
      (map_same clone_bound_value bound_value_same t)
bound_same (hash_bound m r) = refl
bound_same default_bound = refl

-- Every EXCLUDE constraint of the table has an operator for each of its elements.
abbrev pub IsWhole : TableDef → Type 0
IsWhole (regular elements inherits) = Each ElementIsWhole elements
IsWhole (of_type type_name elements) = Each TypedIsWhole elements
IsWhole (partition parent elements bound is_default) = Each TypedIsWhole elements

table_def_same : (d : TableDef) → IsWhole d → clone_table_def d ≡ some d
unfolding clone_table_def
table_def_same (regular elements inherits) w =
    rw (clone_each_same ElementIsWhole clone_table_element element_same elements w, clone_table_def)
      (ap (λ s. some (regular elements s)) (strings_same inherits))
table_def_same (of_type type_name elements) w =
    rw
      (
        clone_each_same TypedIsWhole clone_typed_table_element typed_same elements w,
        clone_table_def,
      )
      refl
table_def_same (partition parent elements bound is_default) w =
    rw
      (
        clone_each_same TypedIsWhole clone_typed_table_element typed_same elements w,
        clone_table_def,
      )
      (ap (λ b. some (partition parent elements b is_default))
        (unless_null_same clone_partition_bound_spec bound_same bound))

-- If every EXCLUDE constraint of a statement has an operator for each of its elements, then
-- `clone_create_table_stmt` reads nothing out of bounds, and its copy holds what the statement holds.
pub clone_create_table_stmt_lem :
    (src : CreateTableStmt) → IsWhole src.table_def → clone_create_table_stmt src ≡ some src
unfolding clone_create_table_stmt
clone_create_table_stmt_lem src w =
    let p = unless_null_same clone_partition_by_clause partition_same src.partition_by in
    let o = unless_null_same clone_storage_parameter_list parameters_same src.with_options in
    ap (λ d. with_def src d) (table_def_same src.table_def w)
    ∙ (λ i. some (record src { partition_by = p i; with_options = o i }))
