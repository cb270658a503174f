-- ===== src/Compare/Tables/Self.antt =====
-- `compare_tables` of one table with itself.
use schema_compare_c.Base.{◌≡◌, refl, ap, ◌∙◌, false, Option, none, some, arith}
use schema_compare_c.Text.{Bytes, CString}
use schema_compare_c.Text.Strings.{same_refl}
use schema_compare_c.Ddl.Tables.{CreateTableStmt}
use schema_compare_c.Diff.{TableDiff, table_diff_create}
use schema_compare_c.Compare.Options.{CompareOptions}
use schema_compare_c.Compare.Columns.{table_elements}
use schema_compare_c.Compare.Columns.Self.{DistinctNames, compare_columns_self}
use schema_compare_c.Compare.Constraints.Self.{compare_constraints_self}
use schema_compare_c.Compare.Tables.{
  Comparison, compare_table_types, tablespaces_differ, compare_table_tablespaces, counts_columns,
  counts_constraints, compare_table_columns, compare_table_constraints, begin_tables, compare_parts,
  finish, if_both_named, compare_tables,
}

tablespaces_differ_self : (name : CString) → tablespaces_differ name name ≡ false
unfolding tablespaces_differ
tablespaces_differ_self none = refl
tablespaces_differ_self (some name) = rw (same_refl name) refl

module _ (opts : Option CompareOptions) (stmt : CreateTableStmt) where
  types_self : (c : Comparison) → compare_table_types stmt stmt c ≡ c
  unfolding compare_table_types
  types_self c = ground arith

  tablespaces_self : (c : Comparison) → compare_table_tablespaces opts stmt stmt c ≡ c
  unfolding compare_table_tablespaces
  tablespaces_self c = ground (arith, tablespaces_differ_self stmt.tablespace_name)

  columns_self :
      (c : Comparison)
      → DistinctNames (table_elements stmt)
      → counts_columns c.result ≡ false
      → compare_table_columns opts stmt stmt c ≡ c
  unfolding compare_table_columns
  columns_self c d h = ground (arith, compare_columns_self stmt c.result opts d, h)

  constraints_self :
      (c : Comparison)
      → counts_constraints c.result ≡ false
      → compare_table_constraints opts stmt stmt c ≡ c
  unfolding compare_table_constraints
  constraints_self c h = ground (arith, compare_constraints_self stmt c.result opts, h)

  compare_parts_self :
      DistinctNames (table_elements stmt) → compare_parts opts stmt stmt ≡ begin_tables stmt stmt
  unfolding compare_parts
  compare_parts_self d =
      let start = begin_tables stmt stmt in
      ap
        (λ c.
          compare_table_constraints opts stmt stmt
            (compare_table_columns opts stmt stmt (compare_table_tablespaces opts stmt stmt c)))
        (types_self start)
      ∙ ap (λ c. compare_table_constraints opts stmt stmt (compare_table_columns opts stmt stmt c))
          (tablespaces_self start)
      ∙ ap (compare_table_constraints opts stmt stmt)
          (columns_self start d (unfold counts_columns begin_tables table_diff_create in refl))
      ∙ constraints_self start (unfold counts_constraints begin_tables table_diff_create in refl)

-- The difference that names the table and its statements and nothing else.
unfoldable pub unmodified : CreateTableStmt → TableDiff
unmodified stmt = record (table_diff_create stmt.table_name) {
  source_table = some stmt;
  target_table = some stmt;
}

-- A table with a name and with distinct names of its columns, compared with itself, gives a
-- difference that says nothing but which table it is about: it is not modified, and every list is
-- empty, whatever the options.
pub compare_tables_self :
    (stmt : CreateTableStmt) (name : Bytes) (opts : Option CompareOptions)
    → stmt.table_name ≡ some name
    → DistinctNames (table_elements stmt)
    → compare_tables (some stmt) (some stmt) opts ≡ some (unmodified stmt)
unfolding compare_tables if_both_named
compare_tables_self stmt name opts e d =
    ap (λ (o : CString). if_both_named o o (finish (compare_parts opts stmt stmt))) e
    ∙ ap (λ c. some (finish c)) (compare_parts_self opts stmt d)
    ∙ unfold finish begin_tables unmodified table_diff_create in refl
