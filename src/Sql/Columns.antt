-- ===== src/Sql/Columns.antt =====
-- src/output/sql_generator_column.c: the statements about one column of a table. An alteration is
-- the operation together with the difference that it is about; only the dropping has none. The
-- builder, the difference and the options are not NULL.
pub mod Calm
use schema_compare_c.Base.{
  Bool, true, false, not, List, [], ◌∷◌, ◌++◌, Option, none, some, if◌then◌else◌,
}
use schema_compare_c.Text.{Bytes, CString, codes}
use schema_compare_c.Diff.{ColumnDiff}
use schema_compare_c.Sql.Calls.{
  Argument, string, Call, literal, append, identifier, format, text, calls_if, append_or, string_or,
}
use schema_compare_c.Sql.Options.{SqlGenOptions}

pub data ColumnAlter : Type 0 where
  col_add : ColumnDiff → ColumnAlter
  col_alter_type : ColumnDiff → ColumnAlter
  col_alter_nullable : ColumnDiff → ColumnAlter
  col_alter_default : ColumnDiff → ColumnAlter
  col_drop : (column_name : CString) → ColumnAlter

unfoldable pub append_alter_warning : ColumnAlter → SqlGenOptions → List Call
append_alter_warning (col_drop _) opts =
    calls_if opts.add_warnings (text "-- WARNING: Dropping column - potential data loss\n" ∷ [])
append_alter_warning (col_alter_type _) opts =
    calls_if opts.add_warnings
      (text "-- WARNING: Changing column type may cause data conversion issues\n" ∷ [])
append_alter_warning _ opts = []

-- The arrow between two values, in UTF-8.
abbrev pub arrow : Bytes
arrow = 226 ∷ 134 ∷ 146 ∷ []

abbrev pub nullability : Bool → Argument
nullability true = string (some (codes "NULL"))
nullability false = string (some (codes "NOT NULL"))

unfoldable pub append_alter_comment : ColumnAlter → SqlGenOptions → List Call
append_alter_comment (col_add col) opts =
    calls_if opts.add_comments (text "-- Add column " ∷ append col.column_name ∷ text "\n" ∷ [])
append_alter_comment (col_drop column_name) opts =
    calls_if opts.add_comments (text "-- Drop column " ∷ append column_name ∷ text "\n" ∷ [])
append_alter_comment (col_alter_type col) opts = calls_if opts.add_comments (
    format (codes "-- Change column type: %s " ++ (arrow ++ codes " %s\n"))
      (string_or col.old_type "unknown" ∷ string_or col.new_type "unknown" ∷ [])
    ∷ [])
append_alter_comment (col_alter_nullable col) opts = calls_if opts.add_comments (
    format (codes "-- Change nullability: %s " ++ (arrow ++ codes " %s\n"))
      (nullability col.old_nullable ∷ nullability col.new_nullable ∷ [])
    ∷ [])
append_alter_comment (col_alter_default col) opts = calls_if opts.add_comments (
    format (codes "-- Change default: %s " ++ (arrow ++ codes " %s\n"))
      (string_or col.old_default "(none)" ∷ string_or col.new_default "(none)" ∷ [])
    ∷ [])

unfoldable pub default_clause : CString → List Call
default_clause none = []
default_clause (some value) = text " DEFAULT " ∷ append (some value) ∷ []

unfoldable pub set_default_clause : CString → List Call
set_default_clause none = text " DROP DEFAULT" ∷ []
set_default_clause (some value) = text " SET DEFAULT " ∷ append (some value) ∷ []

unfoldable pub set_nullable_clause : Bool → Call
set_nullable_clause true = text " DROP NOT NULL"
set_nullable_clause false = text " SET NOT NULL"

unfoldable pub append_alter_clause : ColumnAlter → SqlGenOptions → List Call
append_alter_clause (col_add col) opts =
    text " ADD COLUMN "
    ∷ identifier col.column_name
    ∷ text " "
    ∷ append_or col.new_type "text"
    ∷ (default_clause col.new_default ++ calls_if (not col.new_nullable) (text " NOT NULL" ∷ []))
append_alter_clause (col_drop column_name) opts =
    text " DROP COLUMN "
    ∷ (calls_if opts.use_if_exists (text "IF EXISTS " ∷ []) ++ identifier column_name ∷ [])
append_alter_clause (col_alter_type col) opts =
    text " ALTER COLUMN "
    ∷ identifier col.column_name
    ∷ text " TYPE "
    ∷ append_or col.new_type "text"
    ∷ []
append_alter_clause (col_alter_nullable col) opts =
    text " ALTER COLUMN " ∷ identifier col.column_name ∷ set_nullable_clause col.new_nullable ∷ []
append_alter_clause (col_alter_default col) opts =
    text " ALTER COLUMN " ∷ identifier col.column_name ∷ set_default_clause col.new_default

unfoldable pub generate_alter_table_column_internal :
    (table_name : CString) → ColumnAlter → SqlGenOptions → List Call
generate_alter_table_column_internal table_name op opts =
    append_alter_warning op opts
    ++ (append_alter_comment op opts
        ++ (text "ALTER TABLE "
            ∷ identifier table_name
            ∷ (append_alter_clause op opts ++ text ";\n" ∷ [])))

-- `if (!table_name) return;` stands before each of the statements about a column.
unfoldable pub unless_unnamed : (table_name : CString) → ColumnAlter → SqlGenOptions → List Call
unless_unnamed none op opts = []
unless_unnamed (some table_name) op opts =
    generate_alter_table_column_internal (some table_name) op opts

unfoldable pub generate_add_column_sql :
    (table_name : CString) → ColumnDiff → SqlGenOptions → List Call
generate_add_column_sql table_name col opts = unless_unnamed table_name (col_add col) opts

unfoldable pub generate_drop_column_sql :
    (table_name column_name : CString) → SqlGenOptions → List Call
generate_drop_column_sql table_name none opts = []
generate_drop_column_sql table_name (some column_name) opts =
    unless_unnamed table_name (col_drop (some column_name)) opts

unfoldable pub generate_alter_column_type_sql :
    (table_name : CString) → ColumnDiff → SqlGenOptions → List Call
generate_alter_column_type_sql table_name col opts =
    unless_unnamed table_name (col_alter_type col) opts

unfoldable pub generate_alter_column_nullable_sql :
    (table_name : CString) → ColumnDiff → SqlGenOptions → List Call
generate_alter_column_nullable_sql table_name col opts =
    unless_unnamed table_name (col_alter_nullable col) opts

unfoldable pub generate_alter_column_default_sql :
    (table_name : CString) → ColumnDiff → SqlGenOptions → List Call
generate_alter_column_default_sql table_name col opts =
    unless_unnamed table_name (col_alter_default col) opts
