-- ===== src/Sql/Constraints/Calm.antt =====
-- The clauses of src/output/sql_generator_constraint.c write no DROP TABLE and no DROP COLUMN.
use schema_compare_c.Base.{
  ℕ, ◌==◌, ◌≡◌, refl, ap, Bool, true, false, ◌||◌, List, [], ◌∷◌, ◌++◌, Option, none, some,
}
use schema_compare_c.Text.{CString}
use schema_compare_c.Ddl.Enums.{
  ReferentialAction, no_action, restrict, cascade, set_null, set_default,
}
use schema_compare_c.Ddl.Constraints.{
  Expression, ColumnConstraint, ColumnConstraintBody, ReferencesConstraint, TableConstraint,
  TableConstraintBody,
}
use schema_compare_c.Diff.{ConstraintDiff, ConstraintPointer, table_level, column_level}
use schema_compare_c.Sql.Calls.{calls_if}
use schema_compare_c.Sql.Options.{SqlGenOptions}
use schema_compare_c.Sql.Constraints.{
  append_constraint_name, action_text, on_delete_clause, on_update_clause, identifier_if,
  reference_column, references_clause, generate_references_clause, expression_if,
  column_constraint_body, generate_column_constraint, further_names, name_list, reference_columns,
  foreign_key_clause, table_constraint_body, generate_table_constraint_internal,
  column_level_definition, type_str, definition_from_text, target_definition,
  generate_constraint_definition, generate_drop_constraint_sql, generate_add_constraint_sql,
}
use schema_compare_c.Sql.Calls.Calm.{
  drops, any_drops, Calm, Calm-append, Calm-if, drops-append_or, drops-if,
}

pub append_constraint_name-Calm : (name : CString) → Calm (append_constraint_name name)
unfolding append_constraint_name any_drops drops
append_constraint_name-Calm none = refl
append_constraint_name-Calm (some name) = refl

pub action_text-Calm : (action : ReferentialAction) → drops (action_text action) ≡ false
unfolding action_text drops
action_text-Calm no_action = refl
action_text-Calm restrict = refl
action_text-Calm cascade = refl
action_text-Calm set_null = refl
action_text-Calm set_default = refl

pub on_clauses-Calm :
    (has : Bool) (a : ReferentialAction) (has' : Bool) (b : ReferentialAction)
    → Calm (on_delete_clause has a ++ on_update_clause has' b)
unfolding on_delete_clause on_update_clause any_drops drops
on_clauses-Calm has a has' b =
    Calm-append (on_delete_clause has a) (on_update_clause has' b)
      (Calm-if has _ (ap (λ d. d || false) (action_text-Calm a)))
      (Calm-if has' _ (ap (λ d. d || false) (action_text-Calm b)))

pub identifier_if-Calm : (name : CString) → Calm (identifier_if name)
unfolding any_drops drops
identifier_if-Calm none = refl
identifier_if-Calm (some name) = refl

pub reference_column-Calm : (name : CString) → Calm (reference_column name)
unfolding reference_column any_drops drops
reference_column-Calm none = refl
reference_column-Calm (some name) = refl

pub references_clause-Calm : (r : ReferencesConstraint) → Calm (references_clause r)
unfolding references_clause any_drops drops
references_clause-Calm r =
    Calm-append (identifier_if r.reftable) _ (identifier_if-Calm r.reftable) (
      Calm-append (reference_column r.refcolumn) _ (reference_column-Calm r.refcolumn)
        (on_clauses-Calm r.has_on_delete r.on_delete r.has_on_update r.on_update))

pub expression_if-Calm : (e : Option Expression) → Calm (expression_if e)
unfolding any_drops drops
expression_if-Calm none = refl
expression_if-Calm (some e) = refl

pub column_constraint_body-Calm : (body : ColumnConstraintBody) → Calm (column_constraint_body body)
unfolding column_constraint_body any_drops drops
column_constraint_body-Calm (ColumnConstraintBody.not_null _) = refl
column_constraint_body-Calm ColumnConstraintBody.null = refl
column_constraint_body-Calm (ColumnConstraintBody.default_val e) = expression_if-Calm e
column_constraint_body-Calm (ColumnConstraintBody.check e _) =
    Calm-append (expression_if e) _ (expression_if-Calm e) refl
column_constraint_body-Calm (ColumnConstraintBody.unique _ _ _) = refl
column_constraint_body-Calm (ColumnConstraintBody.primary_key _) = refl
column_constraint_body-Calm (ColumnConstraintBody.references r) = references_clause-Calm r
column_constraint_body-Calm (ColumnConstraintBody.generated_always _ _ _) = refl
column_constraint_body-Calm (ColumnConstraintBody.generated_identity _ _) = refl

pub generate_column_constraint-Calm : (cc : ColumnConstraint) → Calm (generate_column_constraint cc)
unfolding generate_column_constraint
generate_column_constraint-Calm cc =
    Calm-append (append_constraint_name cc.constraint_name) _
      (append_constraint_name-Calm cc.constraint_name) (column_constraint_body-Calm cc.constraint)

pub further_names-Calm : (names : List CString) → Calm (further_names names)
unfolding further_names any_drops drops
further_names-Calm [] = refl
further_names-Calm (name ∷ names) = further_names-Calm names

pub name_list-Calm : (names : List CString) → Calm (name_list names)
unfolding name_list any_drops drops
name_list-Calm [] = refl
name_list-Calm (name ∷ names) = further_names-Calm names

pub reference_columns-Calm : (names : List CString) → Calm (reference_columns names)
unfolding reference_columns any_drops drops
reference_columns-Calm [] = refl
reference_columns-Calm (name ∷ names) =
    Calm-append (name_list (name ∷ names)) _ (name_list-Calm (name ∷ names)) refl

pub table_constraint_body-Calm : (body : TableConstraintBody) → Calm (table_constraint_body body)
unfolding table_constraint_body foreign_key_clause any_drops drops
table_constraint_body-Calm (TableConstraintBody.primary_key k) =
    Calm-append (name_list k.columns) _ (name_list-Calm k.columns) refl
table_constraint_body-Calm (TableConstraintBody.unique u) =
    Calm-append (name_list u.columns) _ (name_list-Calm u.columns) refl
table_constraint_body-Calm (TableConstraintBody.foreign_key f) =
    Calm-append (name_list f.columns) _ (name_list-Calm f.columns) (
      Calm-append (identifier_if f.reftable) _ (identifier_if-Calm f.reftable) (
        Calm-append (reference_columns f.refcolumns) _ (reference_columns-Calm f.refcolumns)
          (on_clauses-Calm f.has_on_delete f.on_delete f.has_on_update f.on_update)))
table_constraint_body-Calm (TableConstraintBody.check e _) =
    Calm-append (expression_if e) _ (expression_if-Calm e) refl
table_constraint_body-Calm (TableConstraintBody.not_null _ _) = refl
table_constraint_body-Calm (TableConstraintBody.exclude _) = refl

pub generate_table_constraint-Calm :
    (named : Bool) (tc : Option TableConstraint)
    → Calm (generate_table_constraint_internal named tc)
unfolding generate_table_constraint_internal any_drops
generate_table_constraint-Calm named none = refl
generate_table_constraint-Calm named (some tc) =
    Calm-append (calls_if named (append_constraint_name tc.constraint_name)) _
      (Calm-if named _ (append_constraint_name-Calm tc.constraint_name))
      (table_constraint_body-Calm tc.constraint)

pub type_str-Calm : (t : ℕ) → drops (type_str t) ≡ false
unfolding type_str drops
type_str-Calm t =
    drops-if (t == 0) _ _
      (drops-if (t == 2) _ _
        (drops-if (t == 3) _ _ (drops-if (t == 5) _ _ (drops-if (t == 4) _ _ refl refl) refl) refl)
        refl)
      refl

pub definition_from_text-Calm :
    (cd : ConstraintDiff) (s : CString) → Calm (definition_from_text cd s)
unfolding definition_from_text any_drops drops
definition_from_text-Calm cd none = ap (λ d. d || false) (type_str-Calm _)
definition_from_text-Calm cd (some s) = refl

pub column_level-Calm :
    (name : CString) (cc : ColumnConstraint) (body : ColumnConstraintBody)
    → Calm (column_level_definition name cc body)
unfolding column_level_definition generate_references_clause any_drops drops
column_level-Calm name cc (ColumnConstraintBody.unique _ _ _) =
    Calm-append (identifier_if name) _ (identifier_if-Calm name) refl
column_level-Calm name cc (ColumnConstraintBody.primary_key _) =
    Calm-append (identifier_if name) _ (identifier_if-Calm name) refl
column_level-Calm name cc (ColumnConstraintBody.references r) =
    Calm-append (identifier_if name) _ (identifier_if-Calm name) (references_clause-Calm r)
column_level-Calm name cc (ColumnConstraintBody.not_null _) = generate_column_constraint-Calm cc
column_level-Calm name cc ColumnConstraintBody.null = generate_column_constraint-Calm cc
column_level-Calm name cc (ColumnConstraintBody.check _ _) = generate_column_constraint-Calm cc
column_level-Calm name cc (ColumnConstraintBody.default_val _) = generate_column_constraint-Calm cc
column_level-Calm name cc (ColumnConstraintBody.generated_always _ _ _) =
    generate_column_constraint-Calm cc
column_level-Calm name cc (ColumnConstraintBody.generated_identity _ _) =
    generate_column_constraint-Calm cc

pub target_definition-Calm :
    (cd : ConstraintDiff) (added : Bool) (p : Option ConstraintPointer)
    → Calm (target_definition cd added p)
unfolding target_definition
target_definition-Calm cd true (some (table_level tc)) =
    generate_table_constraint-Calm false (some tc)
target_definition-Calm cd true (some (column_level cc)) =
    column_level-Calm cd.column_name cc cc.constraint
target_definition-Calm cd true none = definition_from_text-Calm cd cd.new_definition
target_definition-Calm cd false p = definition_from_text-Calm cd cd.new_definition

pub generate_drop_constraint_sql-Calm :
    (table_name name : CString) (opts : SqlGenOptions)
    → Calm (generate_drop_constraint_sql table_name name opts)
unfolding generate_drop_constraint_sql any_drops drops
generate_drop_constraint_sql-Calm none name opts = refl
generate_drop_constraint_sql-Calm (some t) none opts = refl
generate_drop_constraint_sql-Calm (some t) (some name) opts =
    Calm-append (calls_if opts.add_warnings _) _ (Calm-if opts.add_warnings _ refl) (
      Calm-append (calls_if opts.add_comments _) _ (Calm-if opts.add_comments _ refl)
        (Calm-append (calls_if opts.use_if_exists _) _ (Calm-if opts.use_if_exists _ refl) refl))

pub generate_add_constraint_sql-Calm :
    (table_name : CString) (cd : ConstraintDiff) (opts : SqlGenOptions)
    → Calm (generate_add_constraint_sql table_name cd opts)
unfolding generate_add_constraint_sql generate_constraint_definition any_drops drops
generate_add_constraint_sql-Calm none cd opts = refl
generate_add_constraint_sql-Calm (some t) cd opts =
    Calm-append (calls_if opts.add_comments _) _
      (Calm-if opts.add_comments _
        (ap (λ d. d || false) (drops-append_or cd.constraint_name "(unnamed)" refl)))
      (Calm-append (append_constraint_name cd.constraint_name) _
        (append_constraint_name-Calm cd.constraint_name)
        (Calm-append (generate_constraint_definition cd) _
          (target_definition-Calm cd cd.added cd.target_constraint) refl))
