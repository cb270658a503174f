-- ===== src/Sql/Tables/KeysCalm.antt =====
-- The foreign keys of a new table, of src/output/sql_generator_table.c.
use schema_compare_c.Base.{refl, true, List, [], ◌∷◌, none, some}
use schema_compare_c.Text.{Bytes, CString}
use schema_compare_c.Ddl.Constraints.{ColumnConstraint, ColumnConstraintBody}
use schema_compare_c.Ddl.Tables.{
  TableElement, column, table_constraint, like, TableDef, regular, of_type, partition,
  CreateTableStmt,
}
use schema_compare_c.Sql.Calls.{calls_if}
use schema_compare_c.Sql.Options.{SqlGenOptions}
use schema_compare_c.Sql.Constraints.{
  append_constraint_name, generate_references_clause, generate_table_constraint_internal,
  generate_table_constraint,
}
use schema_compare_c.Sql.Tables.{
  is_references, is_foreign_key, column_key, column_keys, table_key, element_keys, foreign_keys_of,
  foreign_keys_if_regular, generate_foreign_key_constraints,
}
use schema_compare_c.Sql.Calls.Calm.{drops, any_drops, Calm, Calm-append, Calm-if}
use schema_compare_c.Sql.Constraints.Calm.{
  append_constraint_name-Calm, references_clause-Calm, generate_table_constraint-Calm,
}

pub references-Calm : (body : ColumnConstraintBody) → Calm (generate_references_clause body)
unfolding generate_references_clause any_drops
references-Calm (ColumnConstraintBody.references r) = references_clause-Calm r
references-Calm (ColumnConstraintBody.not_null _) = refl
references-Calm ColumnConstraintBody.null = refl
references-Calm (ColumnConstraintBody.check _ _) = refl
references-Calm (ColumnConstraintBody.default_val _) = refl
references-Calm (ColumnConstraintBody.generated_always _ _ _) = refl
references-Calm (ColumnConstraintBody.generated_identity _ _) = refl
references-Calm (ColumnConstraintBody.unique _ _ _) = refl
references-Calm (ColumnConstraintBody.primary_key _) = refl

pub column_keys-Calm :
    (t : Bytes) (name : CString) (ccs : List ColumnConstraint) (opts : SqlGenOptions)
    → Calm (column_keys t name ccs opts)
unfolding column_keys column_key any_drops drops
column_keys-Calm t name [] opts = refl
column_keys-Calm t name (cc ∷ rest) opts =
    Calm-append (calls_if (is_references cc.constraint) _) _
      (Calm-if (is_references cc.constraint) _ (
        Calm-append (calls_if opts.add_comments _) _ (Calm-if opts.add_comments _ refl) (
          Calm-append (append_constraint_name cc.constraint_name) _
            (append_constraint_name-Calm cc.constraint_name)
            (Calm-append (generate_references_clause cc.constraint) _
              (references-Calm cc.constraint) refl))))
      (column_keys-Calm t name rest opts)

pub element_keys-Calm :
    (t : Bytes) (elem : TableElement) (opts : SqlGenOptions) → Calm (element_keys t elem opts)
unfolding element_keys table_key generate_table_constraint any_drops drops
element_keys-Calm t (column col) opts = column_keys-Calm t col.column_name col.constraints opts
element_keys-Calm t (table_constraint none) opts = refl
element_keys-Calm t (table_constraint (some tc)) opts = Calm-if (is_foreign_key tc.constraint) _ (
    Calm-append (calls_if opts.add_comments _) _ (Calm-if opts.add_comments _ refl) (
      Calm-append (generate_table_constraint_internal true (some tc)) _
        (generate_table_constraint-Calm true (some tc)) refl))
element_keys-Calm t (like _) opts = refl

pub foreign_keys_of-Calm :
    (t : Bytes) (elems : List TableElement) (opts : SqlGenOptions)
    → Calm (foreign_keys_of t elems opts)
unfolding foreign_keys_of any_drops
foreign_keys_of-Calm t [] opts = refl
foreign_keys_of-Calm t (elem ∷ rest) opts =
    Calm-append (element_keys t elem opts) _ (element_keys-Calm t elem opts)
      (foreign_keys_of-Calm t rest opts)

pub foreign_keys-Calm :
    (stmt : CreateTableStmt) (opts : SqlGenOptions)
    → Calm (generate_foreign_key_constraints stmt opts)
unfolding generate_foreign_key_constraints foreign_keys_if_regular any_drops
foreign_keys-Calm stmt opts = by_case stmt.table_name stmt.table_def
  where
    by_case : (name : CString) (d : TableDef) → Calm (foreign_keys_if_regular name d opts)
    by_case none d = refl
    by_case (some t) (regular elements _) = foreign_keys_of-Calm t elements opts
    by_case (some t) (of_type _ _) = refl
    by_case (some t) (partition _ _ _ _) = refl
