-- ===== src/Memory/Clone.antt =====
-- The deep copies of src/memory/memory.c, by what they hold: a copied string is the same list of
-- bytes. None stands for a read through NULL or past the end of an array; memory is not short.
use schema_compare_c.Base.{ℕ, zero, suc, List, [], ◌∷◌, map, Option, none, some, length}
use schema_compare_c.Text.{CString}
use schema_compare_c.Ddl.Constraints.{
  StorageParameter, Expression, IndexParameters, OpclassSpec, ExcludeElement, SequenceOptions,
  ColumnConstraint, ColumnConstraintBody, TableConstraint, TableConstraintBody, ExcludeConstraint,
}
use schema_compare_c.Ddl.Tables.{
  PartitionElement, PartitionByClause, BoundValue, PartitionBoundSpec, in_bound, range_bound,
  hash_bound, default_bound, TableElement, column, table_constraint, like, TypedTableElement,
  typed_column, typed_table_constraint, TableDef, regular, of_type, partition, CreateTableStmt,
}

-- `if (!src) return NULL;`
abbrev pub unless_null {ℓ} : {A : Type ℓ} → (A → A) → Option A → Option A
unless_null clone none = none
unless_null clone (some a) = some (clone a)

unfoldable pub clone_expression : Expression → Expression
clone_expression src = record { expression = src.expression }

unfoldable pub clone_sequence_options : SequenceOptions → SequenceOptions
clone_sequence_options src = src

unfoldable pub clone_parameter : StorageParameter → StorageParameter
clone_parameter src = record { name = src.name; value = src.value }

unfoldable pub clone_storage_parameter_list : List StorageParameter → List StorageParameter
clone_storage_parameter_list src = map clone_parameter src

unfoldable pub clone_opclass_spec : OpclassSpec → OpclassSpec
clone_opclass_spec src = record {
  opclass = src.opclass;
  parameters = map clone_parameter src.parameters;
}

unfoldable pub clone_index_parameters : IndexParameters → IndexParameters
clone_index_parameters src = record {
  include = unless_null (map (λ c. c)) src.include;
  with_options = unless_null clone_storage_parameter_list src.with_options;
  tablespace_name = src.tablespace_name;
}

unfoldable pub clone_exclude_element : ExcludeElement → ExcludeElement
clone_exclude_element src = record {
  column_name = src.column_name;
  expression = unless_null clone_expression src.expression;
  collation = src.collation;
  opclass = unless_null clone_opclass_spec src.opclass;
  sort_order = src.sort_order;
  nulls_order = src.nulls_order;
  has_sort_order = src.has_sort_order;
  has_nulls_order = src.has_nulls_order;
}

unfoldable pub clone_column_body : ColumnConstraintBody → ColumnConstraintBody
clone_column_body (ColumnConstraintBody.not_null n) = ColumnConstraintBody.not_null n
clone_column_body ColumnConstraintBody.null = ColumnConstraintBody.null
clone_column_body (ColumnConstraintBody.check e n) =
    ColumnConstraintBody.check (unless_null clone_expression e) n
clone_column_body (ColumnConstraintBody.default_val e) =
    ColumnConstraintBody.default_val (unless_null clone_expression e)
clone_column_body (ColumnConstraintBody.generated_always e s h) =
    ColumnConstraintBody.generated_always (unless_null clone_expression e) s h
clone_column_body (ColumnConstraintBody.generated_identity t o) =
    ColumnConstraintBody.generated_identity t (unless_null clone_sequence_options o)
clone_column_body (ColumnConstraintBody.unique n h i) =
    ColumnConstraintBody.unique n h (unless_null clone_index_parameters i)
clone_column_body (ColumnConstraintBody.primary_key i) =
    ColumnConstraintBody.primary_key (unless_null clone_index_parameters i)
clone_column_body (ColumnConstraintBody.references r) = ColumnConstraintBody.references (record {
  reftable = r.reftable;
  refcolumn = r.refcolumn;
  match_type = r.match_type;
  has_match_type = r.has_match_type;
  on_delete = r.on_delete;
  has_on_delete = r.has_on_delete;
  on_update = r.on_update;
  has_on_update = r.has_on_update;
})

unfoldable pub clone_column_constraint : ColumnConstraint → ColumnConstraint
clone_column_constraint src = record {
  constraint_name = src.constraint_name;
  constraint = clone_column_body src.constraint;
  flags = src.flags;
}

abbrev pub put {ℓ} : {A : Type ℓ} → A → Option (List A) → Option (List A)
put a none = none
put a (some as') = some (a ∷ as')

-- The loop over `src->operators`, which runs to the number of elements.
unfoldable pub clone_operators : ℕ → Option (List CString) → Option (List CString)
clone_operators zero operators = some []
clone_operators (suc n) none = none
clone_operators (suc n) (some []) = none
clone_operators (suc n) (some (o ∷ operators)) = put o (clone_operators n (some operators))

unfoldable pub clone_exclude :
    ExcludeConstraint → Option (List CString) → Option TableConstraintBody
clone_exclude src none = none
clone_exclude src (some operators) = some (
    TableConstraintBody.exclude (record {
      index_method = src.index_method;
      elements = map clone_exclude_element src.elements;
      operators = some operators;
      index_params = unless_null clone_index_parameters src.index_params;
      where_predicate = unless_null clone_expression src.where_predicate;
    }))

unfoldable pub clone_table_body : TableConstraintBody → Option TableConstraintBody
clone_table_body (TableConstraintBody.check e n) =
    some (TableConstraintBody.check (unless_null clone_expression e) n)
clone_table_body (TableConstraintBody.not_null c n) = some (TableConstraintBody.not_null c n)
clone_table_body (TableConstraintBody.unique u) = some (
    TableConstraintBody.unique (record {
      columns = map (λ c. c) u.columns;
      without_overlaps_column = u.without_overlaps_column;
      nulls_distinct = u.nulls_distinct;
      has_nulls_distinct = u.has_nulls_distinct;
      index_params = unless_null clone_index_parameters u.index_params;
    }))
clone_table_body (TableConstraintBody.primary_key k) = some (
    TableConstraintBody.primary_key (record {
      columns = map (λ c. c) k.columns;
      without_overlaps_column = k.without_overlaps_column;
      index_params = unless_null clone_index_parameters k.index_params;
    }))
clone_table_body (TableConstraintBody.exclude x) =
    clone_exclude x (clone_operators (length x.elements) x.operators)
clone_table_body (TableConstraintBody.foreign_key f) = some (
    TableConstraintBody.foreign_key (record {
      columns = map (λ c. c) f.columns;
      period_column = f.period_column;
      reftable = f.reftable;
      refcolumns = map (λ c. c) f.refcolumns;
      ref_period_column = f.ref_period_column;
      match_type = f.match_type;
      has_match_type = f.has_match_type;
      on_delete = f.on_delete;
      has_on_delete = f.has_on_delete;
      on_update = f.on_update;
      has_on_update = f.has_on_update;
      on_delete_columns = map (λ c. c) f.on_delete_columns;
      on_update_columns = map (λ c. c) f.on_update_columns;
    }))

abbrev pub with_body : TableConstraint → Option TableConstraintBody → Option TableConstraint
with_body src none = none
with_body src (some body) =
    some (record { constraint_name = src.constraint_name; constraint = body; flags = src.flags })

unfoldable pub clone_table_constraint : TableConstraint → Option TableConstraint
clone_table_constraint src = with_body src (clone_table_body src.constraint)

-- A pointer to a table constraint: NULL gives NULL.
unfoldable pub clone_constraint_pointer : Option TableConstraint → Option (Option TableConstraint)
clone_constraint_pointer none = some none
clone_constraint_pointer (some src) = elim (clone_table_constraint src) [
  | none ↦ none
  | some c ↦ some (some c)
]

unfoldable pub clone_partition_element : PartitionElement → PartitionElement
clone_partition_element src = record {
  column_name = src.column_name;
  expression = unless_null clone_expression src.expression;
  collation = src.collation;
  opclass = src.opclass;
}

unfoldable pub clone_partition_by_clause : PartitionByClause → PartitionByClause
clone_partition_by_clause src = record {
  partition_type = src.partition_type;
  elements = map clone_partition_element src.elements;
}

unfoldable pub clone_bound_value : BoundValue → BoundValue
clone_bound_value src = record {
  is_minvalue = src.is_minvalue;
  is_maxvalue = src.is_maxvalue;
  expr = unless_null clone_expression src.expr;
}

unfoldable pub clone_partition_bound_spec : PartitionBoundSpec → PartitionBoundSpec
clone_partition_bound_spec (in_bound exprs) = in_bound (map (unless_null clone_expression) exprs)
clone_partition_bound_spec (range_bound from_values to_values) =
    range_bound (map clone_bound_value from_values) (map clone_bound_value to_values)
clone_partition_bound_spec (hash_bound modulus remainder) = hash_bound modulus remainder
clone_partition_bound_spec default_bound = default_bound

unfoldable pub clone_table_element : TableElement → Option TableElement
clone_table_element (column c) = some (
    column (record {
      column_name = c.column_name;
      data_type = c.data_type;
      storage_type = c.storage_type;
      has_storage = c.has_storage;
      compression_method = c.compression_method;
      collation = c.collation;
      constraints = map clone_column_constraint c.constraints;
    }))
clone_table_element (table_constraint c) = elim (clone_constraint_pointer c) [
  | none ↦ none
  | some d ↦ some (table_constraint d)
]
clone_table_element (like l) =
    some (like (record { source_table = l.source_table; options = l.options }))

unfoldable pub clone_typed_table_element : TypedTableElement → Option TypedTableElement
clone_typed_table_element (typed_column c) = some (
    typed_column (record {
      column_name = c.column_name;
      with_options = c.with_options;
      constraints = map clone_column_constraint c.constraints;
    }))
clone_typed_table_element (typed_table_constraint c) = elim (clone_constraint_pointer c) [
  | none ↦ none
  | some d ↦ some (typed_table_constraint d)
]

-- The loops over the elements of a table.
unfoldable pub clone_each {ℓ} : {A : Type ℓ} → (A → Option A) → List A → Option (List A)
clone_each clone [] = some []
clone_each clone (a ∷ rest) =
    let rest' = clone_each clone rest in elim (clone a) [ none ↦ none | some a' ↦ put a' rest' ]

unfoldable pub clone_table_def : TableDef → Option TableDef
clone_table_def (regular elements inherits) = elim (clone_each clone_table_element elements) [
  | none ↦ none
  | some e ↦ some (regular e (map (λ c. c) inherits))
]
clone_table_def (of_type type_name elements) =
    elim (clone_each clone_typed_table_element elements) [
      | none ↦ none
      | some e ↦ some (of_type type_name e)
    ]
clone_table_def (partition parent elements bound is_default) =
    elim (clone_each clone_typed_table_element elements) [
      | none ↦ none
      | some e ↦ some (partition parent e (unless_null clone_partition_bound_spec bound) is_default)
    ]

abbrev pub with_def : CreateTableStmt → Option TableDef → Option CreateTableStmt
with_def src none = none
with_def src (some def) = some (record {
  temp_scope = src.temp_scope;
  table_type = src.table_type;
  if_not_exists = src.if_not_exists;
  table_name = src.table_name;
  table_def = def;
  partition_by = unless_null clone_partition_by_clause src.partition_by;
  using_method = src.using_method;
  with_options = unless_null clone_storage_parameter_list src.with_options;
  without_oids = src.without_oids;
  on_commit = src.on_commit;
  has_on_commit = src.has_on_commit;
  tablespace_name = src.tablespace_name;
})

unfoldable pub clone_create_table_stmt : CreateTableStmt → Option CreateTableStmt
clone_create_table_stmt src = with_def src (clone_table_def src.table_def)
