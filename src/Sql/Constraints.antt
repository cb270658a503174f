-- ===== src/Sql/Constraints.antt =====
-- src/output/sql_generator_constraint.c: the clauses of constraints, and ADD and DROP CONSTRAINT.
-- The builder and the options are not NULL.
pub mod Calm
use schema_compare_c.Base.{
  ℕ, Bool, true, false, List, [], ◌∷◌, ◌++◌, Option, none, some, ◌==◌, if◌then◌else◌,
}
use schema_compare_c.Text.{CString}
use schema_compare_c.Ddl.Enums.{
  ReferentialAction, no_action, restrict, cascade, set_null, set_default,
}
use schema_compare_c.Ddl.Constraints.{
  Expression, ColumnConstraint, ColumnConstraintBody, ReferencesConstraint, TableConstraint,
  TableConstraintBody, ForeignKeyConstraint,
}
use schema_compare_c.Diff.{ConstraintDiff, ConstraintPointer, table_level, column_level}
use schema_compare_c.Sql.Calls.{Call, append, identifier, text, calls_if, append_or}
use schema_compare_c.Sql.Options.{SqlGenOptions}

unfoldable pub append_constraint_name : CString → List Call
append_constraint_name none = []
append_constraint_name (some name) = text "CONSTRAINT " ∷ identifier (some name) ∷ text " " ∷ []

unfoldable pub action_text : ReferentialAction → Call
action_text cascade = text "CASCADE"
action_text restrict = text "RESTRICT"
action_text set_null = text "SET NULL"
action_text set_default = text "SET DEFAULT"
action_text no_action = text "NO ACTION"

unfoldable pub on_delete_clause : Bool → ReferentialAction → List Call
on_delete_clause has action = calls_if has (text " ON DELETE " ∷ action_text action ∷ [])

unfoldable pub on_update_clause : Bool → ReferentialAction → List Call
on_update_clause has action = calls_if has (text " ON UPDATE " ∷ action_text action ∷ [])

-- `if (s) sb_append_identifier(sb, s);`
abbrev pub identifier_if : CString → List Call
identifier_if none = []
identifier_if (some name) = identifier (some name) ∷ []

unfoldable pub reference_column : CString → List Call
reference_column none = []
reference_column (some name) = text " (" ∷ identifier (some name) ∷ text ")" ∷ []

unfoldable pub references_clause : ReferencesConstraint → List Call
references_clause r =
    text "REFERENCES "
    ∷ (identifier_if r.reftable
        ++ (reference_column r.refcolumn
            ++ (on_delete_clause r.has_on_delete r.on_delete
                ++ on_update_clause r.has_on_update r.on_update)))

unfoldable pub generate_references_clause : ColumnConstraintBody → List Call
generate_references_clause (ColumnConstraintBody.references r) = references_clause r
generate_references_clause _ = []

-- `if (expr && expr->expression) sb_append(sb, expr->expression);`
abbrev pub expression_if : Option Expression → List Call
expression_if none = []
expression_if (some e) = append e.expression ∷ []

-- The switch.
unfoldable pub column_constraint_body : ColumnConstraintBody → List Call
column_constraint_body (ColumnConstraintBody.not_null _) = text "NOT NULL" ∷ []
column_constraint_body ColumnConstraintBody.null = text "NULL" ∷ []
column_constraint_body (ColumnConstraintBody.default_val e) = text "DEFAULT " ∷ expression_if e
column_constraint_body (ColumnConstraintBody.check e _) =
    text "CHECK (" ∷ (expression_if e ++ text ")" ∷ [])
column_constraint_body (ColumnConstraintBody.unique _ _ _) = text "UNIQUE" ∷ []
column_constraint_body (ColumnConstraintBody.primary_key _) = text "PRIMARY KEY" ∷ []
column_constraint_body (ColumnConstraintBody.references r) = references_clause r
column_constraint_body (ColumnConstraintBody.generated_always _ _ _) = []
column_constraint_body (ColumnConstraintBody.generated_identity _ _) = []

unfoldable pub generate_column_constraint : ColumnConstraint → List Call
generate_column_constraint cc =
    append_constraint_name cc.constraint_name ++ column_constraint_body cc.constraint

-- The names after the first one.
unfoldable pub further_names : List CString → List Call
further_names [] = []
further_names (name ∷ names) = text ", " ∷ identifier name ∷ further_names names

-- `for (i = 0; i < count; i++) { if (i > 0) ...; sb_append_identifier(sb, names[i]); }`
unfoldable pub name_list : List CString → List Call
name_list [] = []
name_list (name ∷ names) = identifier name ∷ further_names names

unfoldable pub reference_columns : List CString → List Call
reference_columns [] = []
reference_columns (name ∷ names) = text " (" ∷ (name_list (name ∷ names) ++ text ")" ∷ [])

unfoldable pub foreign_key_clause : ForeignKeyConstraint → List Call
foreign_key_clause f =
    text "FOREIGN KEY ("
    ∷ (name_list f.columns
        ++ text ") REFERENCES "
          ∷ (identifier_if f.reftable
              ++ (reference_columns f.refcolumns
                  ++ (on_delete_clause f.has_on_delete f.on_delete
                      ++ on_update_clause f.has_on_update f.on_update))))

unfoldable pub table_constraint_body : TableConstraintBody → List Call
table_constraint_body (TableConstraintBody.primary_key k) =
    text "PRIMARY KEY (" ∷ (name_list k.columns ++ text ")" ∷ [])
table_constraint_body (TableConstraintBody.unique u) =
    text "UNIQUE (" ∷ (name_list u.columns ++ text ")" ∷ [])
table_constraint_body (TableConstraintBody.foreign_key f) = foreign_key_clause f
table_constraint_body (TableConstraintBody.check e _) =
    text "CHECK (" ∷ (expression_if e ++ text ")" ∷ [])
table_constraint_body (TableConstraintBody.not_null _ _) = []
table_constraint_body (TableConstraintBody.exclude _) = []

unfoldable pub generate_table_constraint_internal : Bool → Option TableConstraint → List Call
generate_table_constraint_internal include_constraint_name none = []
generate_table_constraint_internal include_constraint_name (some tc) =
    calls_if include_constraint_name (append_constraint_name tc.constraint_name)
    ++ table_constraint_body tc.constraint

unfoldable pub generate_table_constraint : Option TableConstraint → List Call
generate_table_constraint tc = generate_table_constraint_internal true tc

-- A constraint of a column as one of the table.
unfoldable pub column_level_definition :
    CString → ColumnConstraint → ColumnConstraintBody → List Call
column_level_definition column_name cc (ColumnConstraintBody.unique _ _ _) =
    text "UNIQUE (" ∷ (identifier_if column_name ++ text ")" ∷ [])
column_level_definition column_name cc (ColumnConstraintBody.primary_key _) =
    text "PRIMARY KEY (" ∷ (identifier_if column_name ++ text ")" ∷ [])
column_level_definition column_name cc (ColumnConstraintBody.references r) =
    text "FOREIGN KEY ("
    ∷ (identifier_if column_name
        ++ text ") " ∷ generate_references_clause (ColumnConstraintBody.references r))
column_level_definition column_name cc _ = generate_column_constraint cc

-- By the number of a `TableConstraintType`.
unfoldable pub type_str : ℕ → Call
type_str constraint_type =
    if constraint_type == 0
    then text "CHECK (...)"
    else if constraint_type == 2
    then text "UNIQUE (...)"
    else if constraint_type == 3
    then text "PRIMARY KEY (...)"
    else if constraint_type == 5
    then text "FOREIGN KEY (...) REFERENCES ..."
    else if constraint_type == 4
    then text "EXCLUDE ..."
    else text "CONSTRAINT"

unfoldable pub definition_from_text : ConstraintDiff → CString → List Call
definition_from_text cd none = type_str (if cd.added then cd.new_type else cd.old_type) ∷ []
definition_from_text cd (some new_definition) = append (some new_definition) ∷ []

-- `is_column_constraint` says to which type the pointer is cast; here the pointer knows its type.
unfoldable pub target_definition : ConstraintDiff → Bool → Option ConstraintPointer → List Call
target_definition cd true (some (table_level tc)) =
    generate_table_constraint_internal false (some tc)
target_definition cd true (some (column_level cc)) =
    column_level_definition cd.column_name cc cc.constraint
target_definition cd _ _ = definition_from_text cd cd.new_definition

unfoldable pub generate_constraint_definition : ConstraintDiff → List Call
generate_constraint_definition cd = target_definition cd cd.added cd.target_constraint

unfoldable pub generate_drop_constraint_sql :
    (table_name constraint_name : CString) → SqlGenOptions → List Call
generate_drop_constraint_sql (some table_name) (some constraint_name) opts =
    calls_if opts.add_warnings (text "-- WARNING: Dropping constraint\n" ∷ [])
    ++ (calls_if opts.add_comments
          (text "-- Drop constraint " ∷ append (some constraint_name) ∷ text "\n" ∷ [])
        ++ text "ALTER TABLE "
          ∷ identifier (some table_name)
          ∷ text " DROP CONSTRAINT "
          ∷ (calls_if opts.use_if_exists (text "IF EXISTS " ∷ [])
              ++ identifier (some constraint_name) ∷ text ";\n" ∷ []))
generate_drop_constraint_sql _ _ opts = []

unfoldable pub generate_add_constraint_sql :
    (table_name : CString) → ConstraintDiff → SqlGenOptions → List Call
generate_add_constraint_sql none constraint opts = []
generate_add_constraint_sql (some table_name) constraint opts =
    calls_if opts.add_comments (
      text "-- Add constraint " ∷ append_or constraint.constraint_name "(unnamed)" ∷ text "\n" ∷ [])
    ++ text "ALTER TABLE "
      ∷ identifier (some table_name)
      ∷ text " ADD "
      ∷ (append_constraint_name constraint.constraint_name
          ++ (generate_constraint_definition constraint ++ text ";\n" ∷ []))
