-- ===== src/Compare/Constraints/Infos.antt =====
-- `ConstraintInfo` of src/compare/compare_constraint.c: a constraint of a table or of a column under
-- one type, how two of them compare, and the array of them that a table gives.
use schema_compare_c.Base.{
  ℕ, Bool, false, ◌||◌, ◌&&◌, List, [], ◌∷◌, ◌++◌, Option, none, some, ◌==◌, if◌then◌else◌,
}
use schema_compare_c.Text.{CString}
use schema_compare_c.Ddl.Constraints.{
  ColumnConstraint, ColumnConstraintBody, TableConstraint, TableConstraintBody,
}
use schema_compare_c.Ddl.Tables.{TableElement, table_constraint}
use schema_compare_c.Compare.Options.{CompareOptions, names_equal}
use schema_compare_c.Compare.Column.{get_column_def}
use schema_compare_c.Compare.Constraint.{constraints_equivalent}

-- The members of `TableConstraintType`.
abbrev pub check_value : ℕ
check_value = 0

abbrev pub not_null_value : ℕ
not_null_value = 1

abbrev pub unique_value : ℕ
unique_value = 2

abbrev pub primary_key_value : ℕ
primary_key_value = 3

abbrev pub exclude_value : ℕ
exclude_value = 4

abbrev pub foreign_key_value : ℕ
foreign_key_value = 5

-- `tc->type`.
abbrev pub body_value : TableConstraintBody → ℕ
body_value (TableConstraintBody.check _ _) = check_value
body_value (TableConstraintBody.not_null _ _) = not_null_value
body_value (TableConstraintBody.unique _) = unique_value
body_value (TableConstraintBody.primary_key _) = primary_key_value
body_value (TableConstraintBody.exclude _) = exclude_value
body_value (TableConstraintBody.foreign_key _) = foreign_key_value

pub record ConstraintInfo : Type 0 where
  pub table_constraint : Option TableConstraint
  pub column_constraint : Option ColumnConstraint
  pub column_name : CString
  pub constraint_type : ℕ

abbrev pub table_info : TableConstraint → ConstraintInfo
table_info tc = record {
  table_constraint = some tc;
  column_constraint = none;
  column_name = none;
  constraint_type = body_value tc.constraint;
}

abbrev pub inline_info : CString → ColumnConstraint → ℕ → ConstraintInfo
inline_info column_name cc kind = record {
  table_constraint = none;
  column_constraint = some cc;
  column_name = column_name;
  constraint_type = kind;
}

unfoldable pub get_table_constraint : TableElement → Option TableConstraint
get_table_constraint (table_constraint tc) = tc
get_table_constraint _ = none

unfoldable pub table_infos : List TableElement → List ConstraintInfo
table_infos [] = []
table_infos (elem ∷ next) = elim (get_table_constraint elem) [
  | none ↦ table_infos next
  | some tc ↦ table_info tc ∷ table_infos next
]

-- The inline keys of one column.
unfoldable pub inline_infos : CString → List ColumnConstraint → List ConstraintInfo
inline_infos column_name [] = []
inline_infos column_name (cc ∷ next) = elim cc.constraint [
  | ColumnConstraintBody.primary_key _ ↦
      inline_info column_name cc primary_key_value ∷ inline_infos column_name next
  | ColumnConstraintBody.unique _ _ _ ↦
      inline_info column_name cc unique_value ∷ inline_infos column_name next
  | _ ↦ inline_infos column_name next
]

unfoldable pub column_infos : List TableElement → List ConstraintInfo
column_infos [] = []
column_infos (elem ∷ next) = elim (get_column_def elem) [
  | none ↦ column_infos next
  | some col ↦ inline_infos col.column_name col.constraints ++ column_infos next
]

-- The array that is filled: the constraints of the table, and then the inline keys.
unfoldable pub constraint_infos : List TableElement → List ConstraintInfo
constraint_infos elems = table_infos elems ++ column_infos elems

-- The columns of a table's PRIMARY KEY or UNIQUE constraint; `none` for everything else.
unfoldable pub body_columns : TableConstraintBody → Option (List CString)
body_columns (TableConstraintBody.primary_key pk) = some pk.columns
body_columns (TableConstraintBody.unique uniq) = some uniq.columns
body_columns _ = none

unfoldable pub key_columns : ConstraintInfo → Option (List CString)
key_columns c = elim c.table_constraint [ none ↦ none | some tc ↦ body_columns tc.constraint ]

unfoldable pub is_single : Option (List CString) → CString → Option CompareOptions → Bool
is_single (some (name ∷ [])) col_name opts = names_equal name col_name opts
is_single _ col_name opts = false

-- A table's key against an inline one: the key has the one column.
unfoldable pub mixed_equivalent : TableConstraint → CString → Option CompareOptions → Bool
mixed_equivalent tc col_name opts = is_single (body_columns tc.constraint) col_name opts

-- Two inline constraints: of PRIMARY KEY and UNIQUE, which no other inline constraint joins, the
-- same column is enough.
unfoldable pub inline_equivalent : ConstraintInfo → ConstraintInfo → Option CompareOptions → Bool
inline_equivalent c1 c2 opts =
    names_equal c1.column_name c2.column_name opts
    && (c1.constraint_type == primary_key_value || c1.constraint_type == unique_value)

-- By which pointers the two have.
unfoldable pub pointers_equivalent : ConstraintInfo → ConstraintInfo → Option CompareOptions → Bool
pointers_equivalent c1 c2 opts = elim c1.table_constraint [
  | some t1 ↦ elim c2.table_constraint [
    | some t2 ↦ constraints_equivalent t1 t2 opts
    | none ↦ elim c2.column_constraint [
      | some _ ↦ mixed_equivalent t1 c2.column_name opts
      | none ↦ false
    ]
  ]
  | none ↦ elim c1.column_constraint [
    | none ↦ false
    | some _ ↦ elim c2.table_constraint [
      | some t2 ↦ mixed_equivalent t2 c1.column_name opts
      | none ↦ elim c2.column_constraint [ some _ ↦ inline_equivalent c1 c2 opts | none ↦ false ]
    ]
  ]
]

unfoldable pub constraint_infos_equivalent :
    ConstraintInfo → ConstraintInfo → Option CompareOptions → Bool
constraint_infos_equivalent c1 c2 opts =
    if c1.constraint_type == c2.constraint_type then pointers_equivalent c1 c2 opts else false
