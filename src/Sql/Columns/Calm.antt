-- ===== src/Sql/Columns/Calm.antt =====
-- The statements of src/output/sql_generator_column.c, but for the dropping of a column.
use schema_compare_c.Base.{◌≡◌, refl, ap, ap₂, Bool, true, false, not, ◌||◌, none, some}
use schema_compare_c.Text.{CString}
use schema_compare_c.Diff.{ColumnDiff}
use schema_compare_c.Sql.Options.{SqlGenOptions}
use schema_compare_c.Sql.Columns.{
  ColumnAlter, col_add, col_alter_type, col_alter_nullable, col_alter_default, col_drop,
  append_alter_warning, append_alter_comment, default_clause, set_default_clause,
  set_nullable_clause, append_alter_clause, generate_alter_table_column_internal, unless_unnamed,
  generate_add_column_sql, generate_alter_column_type_sql, generate_alter_column_nullable_sql,
  generate_alter_column_default_sql,
}
use schema_compare_c.Sql.Calls.Calm.{drops, any_drops, Calm, Calm-append, Calm-if, drops-append_or}

pub default_clause-Calm : (s : CString) → Calm (default_clause s)
unfolding default_clause any_drops drops
default_clause-Calm none = refl
default_clause-Calm (some s) = refl

pub set_default_clause-Calm : (s : CString) → Calm (set_default_clause s)
unfolding set_default_clause any_drops drops
set_default_clause-Calm none = refl
set_default_clause-Calm (some s) = refl

pub set_nullable_clause-Calm : (b : Bool) → drops (set_nullable_clause b) ≡ false
unfolding set_nullable_clause drops
set_nullable_clause-Calm true = refl
set_nullable_clause-Calm false = refl

pub alter_warning-Calm :
    (op : ColumnAlter) (opts : SqlGenOptions) → Calm (append_alter_warning op opts)
unfolding append_alter_warning any_drops drops
alter_warning-Calm (col_add col) opts = refl
alter_warning-Calm (col_alter_type col) opts = Calm-if opts.add_warnings _ refl
alter_warning-Calm (col_alter_nullable col) opts = refl
alter_warning-Calm (col_alter_default col) opts = refl
alter_warning-Calm (col_drop name) opts = Calm-if opts.add_warnings _ refl

pub alter_comment-Calm :
    (op : ColumnAlter) (opts : SqlGenOptions) → Calm (append_alter_comment op opts)
unfolding append_alter_comment any_drops drops
alter_comment-Calm (col_add col) opts = Calm-if opts.add_comments _ refl
alter_comment-Calm (col_alter_type col) opts = Calm-if opts.add_comments _ refl
alter_comment-Calm (col_alter_nullable col) opts = Calm-if opts.add_comments _ refl
alter_comment-Calm (col_alter_default col) opts = Calm-if opts.add_comments _ refl
alter_comment-Calm (col_drop name) opts = Calm-if opts.add_comments _ refl

-- For every alteration whose own clause is no DROP COLUMN.
pub alter_column-Calm :
    (table_name : CString) (op : ColumnAlter) (opts : SqlGenOptions)
    → Calm (append_alter_clause op opts)
    → Calm (unless_unnamed table_name op opts)
unfolding unless_unnamed generate_alter_table_column_internal any_drops drops
alter_column-Calm none op opts h = refl
alter_column-Calm (some t) op opts h =
    Calm-append (append_alter_warning op opts) _ (alter_warning-Calm op opts) (
      Calm-append (append_alter_comment op opts) _ (alter_comment-Calm op opts)
        (Calm-append (append_alter_clause op opts) _ h refl))

pub generate_add_column_sql-Calm :
    (t : CString) (col : ColumnDiff) (opts : SqlGenOptions)
    → Calm (generate_add_column_sql t col opts)
unfolding generate_add_column_sql append_alter_clause any_drops drops
generate_add_column_sql-Calm t col opts = alter_column-Calm t (col_add col) opts (
    ap₂ ◌||◌ (drops-append_or col.new_type "text" refl) (
      Calm-append (default_clause col.new_default) _ (default_clause-Calm col.new_default)
        (Calm-if (not col.new_nullable) _ refl)))

pub generate_alter_column_type_sql-Calm :
    (t : CString) (col : ColumnDiff) (opts : SqlGenOptions)
    → Calm (generate_alter_column_type_sql t col opts)
unfolding generate_alter_column_type_sql append_alter_clause any_drops drops
generate_alter_column_type_sql-Calm t col opts =
    alter_column-Calm t (col_alter_type col) opts
      (ap (λ d. d || false) (drops-append_or col.new_type "text" refl))

pub generate_alter_column_nullable_sql-Calm :
    (t : CString) (col : ColumnDiff) (opts : SqlGenOptions)
    → Calm (generate_alter_column_nullable_sql t col opts)
unfolding generate_alter_column_nullable_sql append_alter_clause any_drops drops
generate_alter_column_nullable_sql-Calm t col opts =
    alter_column-Calm t (col_alter_nullable col) opts
      (ap (λ d. d || false) (set_nullable_clause-Calm col.new_nullable))

pub generate_alter_column_default_sql-Calm :
    (t : CString) (col : ColumnDiff) (opts : SqlGenOptions)
    → Calm (generate_alter_column_default_sql t col opts)
unfolding generate_alter_column_default_sql append_alter_clause any_drops drops
generate_alter_column_default_sql-Calm t col opts =
    alter_column-Calm t (col_alter_default col) opts (set_default_clause-Calm col.new_default)
