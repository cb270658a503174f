-- ===== src/Sql/Tables/Calm.antt =====
-- CREATE TABLE of src/output/sql_generator_table.c.
use schema_compare_c.Base.{
  if◌then◌else◌, refl, ap₂, Bool, true, false, ◌&&◌, ◌||◌, List, [], ◌∷◌, Option, none, some,
}
use schema_compare_c.Text.{CString}
use schema_compare_c.Ddl.Enums.{TableType, normal, temporary, temp, unlogged}
use schema_compare_c.Ddl.Constraints.{StorageParameter, ColumnConstraint}
use schema_compare_c.Ddl.Tables.{
  TableElement, column, table_constraint, like, TableDef, regular, of_type, partition,
  CreateTableStmt,
}
use schema_compare_c.Sql.Calls.{Call, calls_if}
use schema_compare_c.Sql.Options.{SqlGenOptions}
use schema_compare_c.Sql.Constraints.{
  generate_column_constraint, name_list, generate_table_constraint,
}
use schema_compare_c.Sql.Tables.{
  table_modifier, is_references, is_foreign_key_element, column_constraints, create_element,
  separator, create_elements, create_body, inherits_text, value_text, parameter_text,
  further_parameter_texts, with_clause, tablespace_clause, create_named, create_if_named,
  generate_create_table_sql_internal,
}
use schema_compare_c.Sql.Calls.Calm.{drops, any_drops, Calm, Calm-append, Calm-if, drops-append_or}
use schema_compare_c.Sql.Constraints.Calm.{
  generate_column_constraint-Calm, name_list-Calm, generate_table_constraint-Calm,
}

pub table_modifier-Calm : (t : TableType) → Calm (table_modifier t)
unfolding table_modifier any_drops drops
table_modifier-Calm normal = refl
table_modifier-Calm temporary = refl
table_modifier-Calm temp = refl
table_modifier-Calm unlogged = refl

-- A choice between two lists of calls.
pub Calm-choice : (b : Bool) (x y : List Call) → Calm x → Calm y → Calm (if b then x else y)
Calm-choice true x y h k = h
Calm-choice false x y h k = k

pub column_constraints-Calm :
    (skip : Bool) (ccs : List ColumnConstraint) → Calm (column_constraints skip ccs)
unfolding column_constraints any_drops drops
column_constraints-Calm skip [] = refl
column_constraints-Calm skip (cc ∷ rest) =
    let others = column_constraints-Calm skip rest in
    Calm-choice (skip && is_references cc.constraint) _ _ others
      (Calm-append (generate_column_constraint cc) _ (generate_column_constraint-Calm cc) others)

pub create_element-Calm : (skip : Bool) (elem : TableElement) → Calm (create_element skip elem)
unfolding create_element generate_table_constraint any_drops drops
create_element-Calm skip (column col) =
    ap₂ ◌||◌ (drops-append_or col.data_type "text" refl)
      (column_constraints-Calm skip col.constraints)
create_element-Calm skip (table_constraint tc) = generate_table_constraint-Calm true tc
create_element-Calm skip (like _) = refl

pub separator-Calm : (first : Bool) → Calm (separator first)
unfolding separator any_drops drops
separator-Calm true = refl
separator-Calm false = refl

pub create_elements-Calm :
    (skip first : Bool) (elems : List TableElement) → Calm (create_elements skip first elems)
unfolding create_elements any_drops drops
create_elements-Calm skip first [] = refl
create_elements-Calm skip first (elem ∷ rest) =
    Calm-choice (skip && is_foreign_key_element elem) _ _ (create_elements-Calm skip first rest) (
      Calm-append (separator first) _ (separator-Calm first) (
        Calm-append (create_element skip elem) _ (create_element-Calm skip elem)
          (create_elements-Calm skip false rest)))

pub create_body-Calm : (skip : Bool) (d : TableDef) → Calm (create_body skip d)
unfolding create_body any_drops drops
create_body-Calm skip (regular [] _) = refl
create_body-Calm skip (regular (elem ∷ rest) _) =
    Calm-append (create_elements skip true (elem ∷ rest)) _
      (create_elements-Calm skip true (elem ∷ rest)) refl
create_body-Calm skip (of_type _ _) = refl
create_body-Calm skip (partition _ _ _ _) = refl

pub inherits_text-Calm : (d : TableDef) → Calm (inherits_text d)
unfolding inherits_text any_drops drops
inherits_text-Calm (regular _ []) = refl
inherits_text-Calm (regular _ (parent ∷ parents)) =
    Calm-append (name_list (parent ∷ parents)) _ (name_list-Calm (parent ∷ parents)) refl
inherits_text-Calm (of_type _ _) = refl
inherits_text-Calm (partition _ _ _ _) = refl

pub parameter_text-Calm : (p : StorageParameter) → Calm (parameter_text p)
unfolding parameter_text value_text any_drops drops
parameter_text-Calm p = value-Calm p.value
  where
    value-Calm : (v : CString) → Calm (value_text v)
    value-Calm none = refl
    value-Calm (some v) = refl

pub further_parameter_texts-Calm : (ps : List StorageParameter) → Calm (further_parameter_texts ps)
unfolding further_parameter_texts any_drops drops
further_parameter_texts-Calm [] = refl
further_parameter_texts-Calm (p ∷ rest) =
    Calm-append (parameter_text p) _ (parameter_text-Calm p) (further_parameter_texts-Calm rest)

pub with_clause-Calm : (w : Option (List StorageParameter)) → Calm (with_clause w)
unfolding with_clause any_drops drops
with_clause-Calm none = refl
with_clause-Calm (some []) = refl
with_clause-Calm (some (p ∷ rest)) =
    Calm-append (parameter_text p) _ (parameter_text-Calm p)
      (Calm-append (further_parameter_texts rest) _ (further_parameter_texts-Calm rest) refl)

pub tablespace_clause-Calm : (s : CString) → Calm (tablespace_clause s)
unfolding tablespace_clause any_drops drops
tablespace_clause-Calm none = refl
tablespace_clause-Calm (some s) = refl

pub create_table-Calm :
    (stmt : CreateTableStmt) (opts : SqlGenOptions) (skip : Bool)
    → Calm (generate_create_table_sql_internal stmt opts skip)
unfolding generate_create_table_sql_internal create_if_named create_named any_drops drops
create_table-Calm stmt opts skip = by_name stmt.table_name
  where
    by_name : (name : CString) → Calm (create_if_named name stmt opts skip)
    by_name none = refl
    by_name (some name) =
        Calm-append (calls_if opts.add_comments _) _ (Calm-if opts.add_comments _ refl) (
          Calm-append (table_modifier stmt.table_type) _ (table_modifier-Calm stmt.table_type) (
            Calm-append (calls_if stmt.if_not_exists _) _ (Calm-if stmt.if_not_exists _ refl) (
              Calm-append (create_body skip stmt.table_def) _ (create_body-Calm skip stmt.table_def)
                (Calm-append (inherits_text stmt.table_def) _ (inherits_text-Calm stmt.table_def) (
                  Calm-append (with_clause stmt.with_options) _ (with_clause-Calm stmt.with_options)
                    (Calm-append (tablespace_clause stmt.tablespace_name) _
                      (tablespace_clause-Calm stmt.tablespace_name) refl))))))
