-- ===== src/Sql/Tables.antt =====
-- src/output/sql_generator_table.c: CREATE TABLE, the foreign keys of a new table, DROP TABLE. The
-- builder, the statement and the options are not NULL.
pub mod KeysCalm
pub mod Calm
pub mod ForeignKeys
use schema_compare_c.Base.{
  Bool, true, false, ◌&&◌, List, [], ◌∷◌, ◌++◌, Option, none, some, if◌then◌else◌,
}
use schema_compare_c.Text.{Bytes, CString}
use schema_compare_c.Ddl.Enums.{TableType, normal, temporary, temp, unlogged}
use schema_compare_c.Ddl.Constraints.{
  StorageParameter, ColumnConstraint, ColumnConstraintBody, TableConstraint, TableConstraintBody,
}
use schema_compare_c.Ddl.Tables.{
  ColumnDef, TableElement, column, table_constraint, like, TableDef, regular, of_type, partition,
  CreateTableStmt,
}
use schema_compare_c.Sql.Calls.{Call, append, identifier, text, calls_if, append_or}
use schema_compare_c.Sql.Options.{SqlGenOptions}
use schema_compare_c.Sql.Constraints.{
  append_constraint_name, generate_references_clause, generate_column_constraint, name_list,
  generate_table_constraint,
}

unfoldable pub table_modifier : TableType → List Call
table_modifier temporary = text "TEMPORARY " ∷ []
table_modifier temp = text "TEMPORARY " ∷ []
table_modifier unlogged = text "UNLOGGED " ∷ []
table_modifier normal = []

unfoldable pub is_references : ColumnConstraintBody → Bool
is_references (ColumnConstraintBody.references _) = true
is_references _ = false

unfoldable pub is_foreign_key : TableConstraintBody → Bool
is_foreign_key (TableConstraintBody.foreign_key _) = true
is_foreign_key _ = false

-- `elem->type == TABLE_ELEM_TABLE_CONSTRAINT && tc && tc->type == TABLE_CONSTRAINT_FOREIGN_KEY`
unfoldable pub is_foreign_key_element : TableElement → Bool
is_foreign_key_element (column _) = false
is_foreign_key_element (table_constraint none) = false
is_foreign_key_element (table_constraint (some tc)) = is_foreign_key tc.constraint
is_foreign_key_element (like _) = false

unfoldable pub column_constraints : (skip_foreign_keys : Bool) → List ColumnConstraint → List Call
column_constraints skip [] = []
column_constraints skip (cc ∷ rest) =
    let others = column_constraints skip rest in
    if skip && is_references cc.constraint
    then others
    else text " " ∷ (generate_column_constraint cc ++ others)

unfoldable pub create_element : (skip_foreign_keys : Bool) → TableElement → List Call
create_element skip (column col) =
    identifier col.column_name
    ∷ text " "
    ∷ append_or col.data_type "text"
    ∷ column_constraints skip col.constraints
create_element skip (table_constraint tc) = generate_table_constraint tc
create_element skip (like _) = []

unfoldable pub separator : (first : Bool) → List Call
separator true = []
separator false = text ",\n" ∷ []

-- The loop over the elements.
unfoldable pub create_elements :
    (skip_foreign_keys : Bool) → (first : Bool) → List TableElement → List Call
create_elements skip first [] = []
create_elements skip first (elem ∷ rest) =
    let skipping = create_elements skip first rest in
    let others = create_elements skip false rest in
    if skip && is_foreign_key_element elem
    then skipping
    else separator first ++ text "    " ∷ (create_element skip elem ++ others)

unfoldable pub create_body : (skip_foreign_keys : Bool) → TableDef → List Call
create_body skip (regular [] _) = text " ()" ∷ []
create_body skip (regular (elem ∷ rest) _) =
    text " (\n" ∷ (create_elements skip true (elem ∷ rest) ++ text "\n)" ∷ [])
create_body skip (of_type _ _) = text " ()" ∷ []
create_body skip (partition _ _ _ _) = text " ()" ∷ []

unfoldable pub inherits_text : TableDef → List Call
inherits_text (regular _ []) = []
inherits_text (regular _ (parent ∷ parents)) =
    text " INHERITS (" ∷ (name_list (parent ∷ parents) ++ text ")" ∷ [])
inherits_text (of_type _ _) = []
inherits_text (partition _ _ _ _) = []

unfoldable pub value_text : CString → List Call
value_text none = []
value_text (some value) = text "=" ∷ append (some value) ∷ []

unfoldable pub parameter_text : StorageParameter → List Call
parameter_text p = append p.name ∷ value_text p.value

unfoldable pub further_parameter_texts : List StorageParameter → List Call
further_parameter_texts [] = []
further_parameter_texts (p ∷ rest) = text ", " ∷ (parameter_text p ++ further_parameter_texts rest)

unfoldable pub with_clause : Option (List StorageParameter) → List Call
with_clause none = []
with_clause (some []) = []
with_clause (some (p ∷ rest)) =
    text " WITH (" ∷ (parameter_text p ++ (further_parameter_texts rest ++ text ")" ∷ []))

unfoldable pub tablespace_clause : CString → List Call
tablespace_clause none = []
tablespace_clause (some name) = text " TABLESPACE " ∷ identifier (some name) ∷ []

-- What follows the test of the table's name.
unfoldable pub create_named :
    (table_name : Bytes) → CreateTableStmt → SqlGenOptions → (skip_foreign_keys : Bool) → List Call
create_named table_name stmt opts skip =
    calls_if opts.add_comments (text "-- Create table " ∷ append (some table_name) ∷ text "\n" ∷ [])
    ++ text "CREATE "
      ∷ (table_modifier stmt.table_type
          ++ text "TABLE "
            ∷ (calls_if stmt.if_not_exists (text "IF NOT EXISTS " ∷ [])
                ++ identifier (some table_name)
                  ∷ (create_body skip stmt.table_def
                      ++ (inherits_text stmt.table_def
                          ++ (with_clause stmt.with_options
                              ++ (tablespace_clause stmt.tablespace_name ++ text ";\n" ∷ []))))))

unfoldable pub create_if_named :
    CString → CreateTableStmt → SqlGenOptions → (skip_foreign_keys : Bool) → List Call
create_if_named none stmt opts skip = []
create_if_named (some table_name) stmt opts skip = create_named table_name stmt opts skip

unfoldable pub generate_create_table_sql_internal :
    CreateTableStmt → SqlGenOptions → (skip_foreign_keys : Bool) → List Call
generate_create_table_sql_internal stmt opts skip = create_if_named stmt.table_name stmt opts skip

unfoldable pub generate_create_table_sql : CreateTableStmt → SqlGenOptions → List Call
generate_create_table_sql stmt opts = generate_create_table_sql_internal stmt opts false

-- The foreign key of a column that a REFERENCES makes.
unfoldable pub column_key :
    (table_name : Bytes) (column_name : CString) → ColumnConstraint → SqlGenOptions → List Call
column_key table_name column_name cc opts =
    calls_if opts.add_comments
      (text "-- Add foreign key constraint for column " ∷ append column_name ∷ text "\n" ∷ [])
    ++ text "ALTER TABLE "
      ∷ identifier (some table_name)
      ∷ text " ADD "
      ∷ (append_constraint_name cc.constraint_name
          ++ text "FOREIGN KEY ("
            ∷ identifier column_name
            ∷ text ") "
            ∷ (generate_references_clause cc.constraint ++ text ";\n" ∷ []))

unfoldable pub column_keys :
    (table_name : Bytes) (column_name : CString) → List ColumnConstraint → SqlGenOptions → List Call
column_keys table_name column_name [] opts = []
column_keys table_name column_name (cc ∷ rest) opts =
    calls_if (is_references cc.constraint) (column_key table_name column_name cc opts)
    ++ column_keys table_name column_name rest opts

unfoldable pub table_key : (table_name : Bytes) → TableConstraint → SqlGenOptions → List Call
table_key table_name tc opts =
    calls_if opts.add_comments (text "-- Add foreign key table constraint\n" ∷ [])
    ++ text "ALTER TABLE "
      ∷ identifier (some table_name)
      ∷ text " ADD "
      ∷ (generate_table_constraint (some tc) ++ text ";\n" ∷ [])

unfoldable pub element_keys : (table_name : Bytes) → TableElement → SqlGenOptions → List Call
element_keys table_name (column col) opts =
    column_keys table_name col.column_name col.constraints opts
element_keys table_name (table_constraint none) opts = []
element_keys table_name (table_constraint (some tc)) opts =
    calls_if (is_foreign_key tc.constraint) (table_key table_name tc opts)
element_keys table_name (like _) opts = []

-- The loop over the elements.
unfoldable pub foreign_keys_of :
    (table_name : Bytes) → List TableElement → SqlGenOptions → List Call
foreign_keys_of table_name [] opts = []
foreign_keys_of table_name (elem ∷ rest) opts =
    element_keys table_name elem opts ++ foreign_keys_of table_name rest opts

unfoldable pub foreign_keys_if_regular : CString → TableDef → SqlGenOptions → List Call
foreign_keys_if_regular (some table_name) (regular elements _) opts =
    foreign_keys_of table_name elements opts
foreign_keys_if_regular _ _ opts = []

unfoldable pub generate_foreign_key_constraints : CreateTableStmt → SqlGenOptions → List Call
generate_foreign_key_constraints stmt opts =
    foreign_keys_if_regular stmt.table_name stmt.table_def opts

unfoldable pub generate_drop_table_sql : (table_name : CString) → SqlGenOptions → List Call
generate_drop_table_sql none opts = []
generate_drop_table_sql (some table_name) opts =
    calls_if opts.add_warnings (text "-- WARNING: Dropping table - all data will be lost\n" ∷ [])
    ++ (calls_if opts.add_comments
          (text "-- Drop table " ∷ append (some table_name) ∷ text "\n" ∷ [])
        ++ text "DROP TABLE "
          ∷ (calls_if opts.use_if_exists (text "IF EXISTS " ∷ [])
              ++ identifier (some table_name) ∷ text " CASCADE;\n" ∷ []))
