-- ===== src/Sql/Tables/ForeignKeys.antt =====
-- The CREATE TABLE of a migration leaves the foreign keys out, of src/output/sql_generator_table.c.
use schema_compare_c.Base.{
  ◌≡◌, refl, ap, ap₂, ◌∙◌, Bool, true, false, Bool-cases, inl, inr, List, [], ◌∷◌, ◌++◌, none, some,
  if◌then◌else◌,
}
use schema_compare_c.Text.{Bytes, CString}
use schema_compare_c.Ddl.Constraints.{ColumnConstraint}
use schema_compare_c.Ddl.Tables.{
  TableElement, column, table_constraint, like, TableDef, regular, of_type, partition,
  CreateTableStmt,
}
use schema_compare_c.Sql.Calls.{text, identifier, append_or}
use schema_compare_c.Sql.Options.{SqlGenOptions}
use schema_compare_c.Sql.Constraints.{generate_column_constraint}
use schema_compare_c.Sql.Tables.{
  is_references, is_foreign_key_element, column_constraints, create_element, separator,
  create_elements, create_body, create_named, create_if_named, generate_create_table_sql_internal,
  inherits_text, column_keys, element_keys, foreign_keys_of, foreign_keys_if_regular,
  generate_foreign_key_constraints,
}

unfoldable pub without_references : List ColumnConstraint → List ColumnConstraint
without_references [] = []
without_references (cc ∷ rest) =
    let others = without_references rest in
    if is_references cc.constraint then others else cc ∷ others

unfoldable pub element_without : TableElement → TableElement
element_without (column col) =
    column (record col { constraints = without_references col.constraints })
element_without (table_constraint tc) = table_constraint tc
element_without (like l) = like l

unfoldable pub elements_without : List TableElement → List TableElement
elements_without [] = []
elements_without (elem ∷ rest) =
    let others = elements_without rest in
    if is_foreign_key_element elem then others else element_without elem ∷ others

unfoldable pub def_without : TableDef → TableDef
def_without (regular elements inherits) = regular (elements_without elements) inherits
def_without (of_type name elements) = of_type name elements
def_without (partition parent elements bound is_default) =
    partition parent elements bound is_default

-- The statement with its foreign keys taken out, those of the table and those of its columns.
unfoldable pub without_foreign_keys : CreateTableStmt → CreateTableStmt
without_foreign_keys stmt = record stmt { table_def = def_without stmt.table_def }

-- Not every element is a foreign key of the table, unless there is none.
abbrev pub KeepsSome : TableDef → Type 0
KeepsSome (regular [] _) = Unit
KeepsSome (regular (elem ∷ rest) _) =
    (kept : TableElement) × (others : List TableElement) × (elements_without (elem ∷ rest)
      ≡ kept ∷ others)
KeepsSome (of_type _ _) = Unit
KeepsSome (partition _ _ _ _) = Unit

constraints_same :
    (ccs : List ColumnConstraint)
    → column_constraints true ccs ≡ column_constraints false (without_references ccs)
unfolding column_constraints without_references
constraints_same [] = refl
constraints_same (cc ∷ rest) = elim (Bool-cases (is_references cc.constraint)) [
  | inl e ↦ rw e (constraints_same rest)
  | inr e ↦ rw e (ap (λ c. text " " ∷ (generate_column_constraint cc ++ c)) (constraints_same rest))
]

element_same :
    (elem : TableElement) → create_element true elem ≡ create_element false (element_without elem)
unfolding create_element element_without
element_same (column col) =
    ap (λ c. identifier col.column_name ∷ text " " ∷ append_or col.data_type "text" ∷ c)
      (constraints_same col.constraints)
element_same (table_constraint tc) = refl
element_same (like l) = refl

elements_same :
    (first : Bool) (elems : List TableElement)
    → create_elements true first elems ≡ create_elements false first (elements_without elems)
unfolding create_elements elements_without
elements_same first [] = refl
elements_same first (elem ∷ rest) = elim (Bool-cases (is_foreign_key_element elem)) [
  | inl e ↦ rw e (elements_same first rest)
  | inr e ↦ rw e (
      ap₂ (λ c d. separator first ++ text "    " ∷ (c ++ d)) (element_same elem)
        (elements_same false rest))
]

body_of_some :
    (elems : List TableElement) (inherits : List CString) (kept : TableElement)
    (others : List TableElement)
    → elems ≡ kept ∷ others
    → text " (\n" ∷ (create_elements false true elems ++ text "\n)" ∷ [])
      ≡ create_body false (regular elems inherits)
unfolding create_body
body_of_some elems inherits kept others e = rw (e, create_body) refl

body_same : (d : TableDef) → KeepsSome d → create_body true d ≡ create_body false (def_without d)
unfolding create_body def_without elements_without
body_same (regular [] inherits) h = refl
body_same (regular (elem ∷ rest) inherits) (kept, others, e) =
    ap (λ c. text " (\n" ∷ (c ++ text "\n)" ∷ [])) (elements_same true (elem ∷ rest))
    ∙ body_of_some (elements_without (elem ∷ rest)) inherits kept others e
body_same (of_type _ _) h = refl
body_same (partition _ _ _ _) h = refl

inherits_same : (d : TableDef) → inherits_text d ≡ inherits_text (def_without d)
unfolding inherits_text def_without
inherits_same (regular elements []) = refl
inherits_same (regular elements (_ ∷ _)) = refl
inherits_same (of_type _ _) = refl
inherits_same (partition _ _ _ _) = refl

no_references :
    (t : Bytes) (name : CString) (ccs : List ColumnConstraint) (opts : SqlGenOptions)
    → column_keys t name (without_references ccs) opts ≡ []
unfolding column_keys without_references
no_references t name [] opts = refl
no_references t name (cc ∷ rest) opts = elim (Bool-cases (is_references cc.constraint)) [
  | inl e ↦ rw e (no_references t name rest opts)
  | inr e ↦ rw (e, column_keys, e) (no_references t name rest opts)
]

no_element_keys :
    (t : Bytes) (elem : TableElement) (opts : SqlGenOptions)
    → is_foreign_key_element elem ≡ false
    → element_keys t (element_without elem) opts ≡ []
unfolding element_keys element_without is_foreign_key_element
no_element_keys t (column col) opts h = no_references t col.column_name col.constraints opts
no_element_keys t (table_constraint none) opts h = refl
no_element_keys t (table_constraint (some tc)) opts h = rw h refl
no_element_keys t (like l) opts h = refl

no_foreign_keys :
    (t : Bytes) (elems : List TableElement) (opts : SqlGenOptions)
    → foreign_keys_of t (elements_without elems) opts ≡ []
unfolding foreign_keys_of elements_without
no_foreign_keys t [] opts = refl
no_foreign_keys t (elem ∷ rest) opts = elim (Bool-cases (is_foreign_key_element elem)) [
  | inl e ↦ rw e (no_foreign_keys t rest opts)
  | inr e ↦
      rw (e, foreign_keys_of)
        (ap₂ ◌++◌ (no_element_keys t elem opts e) (no_foreign_keys t rest opts))
]

named_same :
    (stmt : CreateTableStmt) (opts : SqlGenOptions) (name : CString)
    → KeepsSome stmt.table_def
    → create_if_named name stmt opts true
      ≡ create_if_named name (record stmt { table_def = def_without stmt.table_def }) opts false
unfolding create_if_named create_named
named_same stmt opts none h = refl
named_same stmt opts (some name) h =
    rw (body_same stmt.table_def h, inherits_same stmt.table_def) refl

keys_none :
    (name : CString) (d : TableDef) (opts : SqlGenOptions)
    → foreign_keys_if_regular name (def_without d) opts ≡ []
unfolding foreign_keys_if_regular def_without
keys_none none (regular _ _) opts = refl
keys_none none (of_type _ _) opts = refl
keys_none none (partition _ _ _ _) opts = refl
keys_none (some name) (regular elements _) opts = no_foreign_keys name elements opts
keys_none (some name) (of_type _ _) opts = refl
keys_none (some name) (partition _ _ _ _) opts = refl

-- If not every element of a table is a foreign key of the table, then the CREATE TABLE of a
-- migration, which skips the foreign keys, is the one of the statement that has none of them, those
-- of the columns included; and for that statement no foreign key is added afterwards.
pub create_table-without_foreign_keys :
    (stmt : CreateTableStmt) (opts : SqlGenOptions)
    → KeepsSome stmt.table_def
    → (generate_create_table_sql_internal stmt opts true
        ≡ generate_create_table_sql_internal (without_foreign_keys stmt) opts false)
      × (generate_foreign_key_constraints (without_foreign_keys stmt) opts ≡ [])
unfolding generate_create_table_sql_internal without_foreign_keys generate_foreign_key_constraints
create_table-without_foreign_keys stmt opts h =
    (named_same stmt opts stmt.table_name h, keys_none stmt.table_name stmt.table_def opts)
