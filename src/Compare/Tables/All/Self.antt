-- ===== src/Compare/Tables/All/Self.antt =====
-- `compare_all_tables` of one array of tables with itself.
use schema_compare_c.Base.{
  ◌≡◌, refl, subst, ap, ◌∙◌, inl, inr, Option-cases, Bool, true, false, [], ◌∷◌, Option, none, some,
  arith, length, ◌*◌, if◌then◌else◌,
}
use schema_compare_c.Base.Int.{pos}
use schema_compare_c.Text.{Bytes, CString}
use schema_compare_c.HashTable.{HashTable, hash_table_get}
use schema_compare_c.HashTable.Populate.{
  find_last, get-populate_created, DistinctKeys, AllFound, DistinctKeys-AllFound,
}
use schema_compare_c.Ddl.Tables.{CreateTableStmt}
use schema_compare_c.Diff.{SchemaDiff, schema_diff_create, table_diff_create}
use schema_compare_c.Compare.Options.{CompareOptions, should_compare_table}
use schema_compare_c.Compare.Columns.{table_elements}
use schema_compare_c.Compare.Columns.Self.{DistinctNames}
use schema_compare_c.Compare.Tables.Self.{unmodified, compare_tables_self}
use schema_compare_c.Compare.Tables.All.{
  Tables, named_table, table_index, modify_table, visit_target_table, visit_source_table,
  find_added_tables, find_removed_tables, count_tables, compare_arrays, compare_all_tables,
}

-- The names of the columns of each table are distinct.
abbrev pub AllDistinct : Tables → Type 0
AllDistinct [] = Unit
AllDistinct (none ∷ next) = AllDistinct next
AllDistinct (some stmt ∷ next) = DistinctNames (table_elements stmt) × AllDistinct next

if_same {ℓ} : {A : Type ℓ} (b : Bool) (x y : A) → x ≡ y → (if b then x else y) ≡ y
if_same true x y h = h
if_same false x y h = refl

-- A table with a name is a statement with that name.
named_table-some :
    (s stmt : CreateTableStmt) (name : Bytes)
    → named_table (some s) ≡ some (stmt, name)
    → (s ≡ stmt) × (stmt.table_name ≡ some name)
unfolding named_table
named_table-some s stmt name e = ground arith

visit_target_self :
    (opts : Option CompareOptions) (result : SchemaDiff) (stmt : CreateTableStmt) (name : Bytes)
    → stmt.table_name ≡ some name
    → DistinctNames (table_elements stmt)
    → visit_target_table opts result stmt (some stmt) ≡ result
unfolding visit_target_table modify_table unmodified table_diff_create
visit_target_self opts result stmt name e d =
    ap (modify_table result) (compare_tables_self stmt name opts e d)

find_added_tables_self :
    (ht : HashTable CreateTableStmt) (all : Tables) (opts : Option CompareOptions) (next : Tables)
    (result : SchemaDiff)
    → ((name : Bytes) → hash_table_get ht (some name) ≡ find_last named_table name all)
    → AllFound named_table all next
    → AllDistinct next
    → find_added_tables ht opts next result ≡ result
unfolding find_added_tables named_table
find_added_tables_self ht all opts [] result h f d = refl
find_added_tables_self ht all opts (none ∷ next) result h f d =
    find_added_tables_self ht all opts next result h f.1 d
find_added_tables_self ht all opts (some t ∷ next) result h f d =
    elim (Option-cases (named_table (some t))) [
      | inl e ↦ rw (e, find_added_tables) (find_added_tables_self ht all opts next result h f.1 d.1)
      | inr ((stmt, name), e) ↦
          let n = named_table-some t stmt name e in
          rw
            (
              e,
              find_added_tables,
              h name,
              f.0 stmt name e,
              if_same (should_compare_table name opts) _ result (
                  visit_target_self opts result stmt name n.1
                    (subst (λ s. DistinctNames (table_elements s)) n.0 d.0)),
            )
            (find_added_tables_self ht all opts next result h f.1 d.1)
    ]

find_removed_tables_self :
    (ht : HashTable CreateTableStmt) (all : Tables) (opts : Option CompareOptions) (next : Tables)
    (result : SchemaDiff)
    → ((name : Bytes) → hash_table_get ht (some name) ≡ find_last named_table name all)
    → AllFound named_table all next
    → find_removed_tables ht opts next result ≡ result
unfolding find_removed_tables visit_source_table
find_removed_tables_self ht all opts [] result h f = refl
find_removed_tables_self ht all opts (t ∷ next) result h f = elim (Option-cases (named_table t)) [
  | inl e ↦ rw (e, find_removed_tables) (find_removed_tables_self ht all opts next result h f.1)
  | inr ((stmt, name), e) ↦
      rw
        (
          e,
          find_removed_tables,
          h name,
          f.0 stmt name e,
          if_same (should_compare_table name opts) result result refl,
        )
        (find_removed_tables_self ht all opts next result h f.1)
]

compare_arrays_self :
    (tables : Tables) (name : CString) (opts : Option CompareOptions)
    → DistinctKeys named_table tables
    → AllDistinct tables
    → compare_arrays tables tables (schema_diff_create name) opts ≡ schema_diff_create name
unfolding compare_arrays table_index schema_diff_create count_tables
compare_arrays_self tables name opts k d =
    let result = schema_diff_create name in
    let f = DistinctKeys-AllFound named_table tables k in
    let h = get-populate_created named_table (pos (length tables * 2)) tables in
    let none_compared =
      ap (find_removed_tables (table_index tables) opts tables)
        (find_added_tables_self (table_index tables) tables opts tables result h f d)
      ∙ find_removed_tables_self (table_index tables) tables opts tables result h f in
    ap (λ (r : SchemaDiff). count_tables r.table_diffs r) none_compared

-- The tables of an array, none if it is NULL.
unfoldable pub contents : Option Tables → Tables
contents none = []
contents (some tables) = tables

-- If the names of the tables are distinct, and in each table the names of the columns, then
-- comparing the tables with themselves leaves a schema difference without table differences as it
-- was: nothing is counted or listed, whatever the options, and so it is for an array that is NULL.
pub compare_all_tables_self :
    (tables : Option Tables) (name : CString) (opts : Option CompareOptions)
    → DistinctKeys named_table (contents tables)
    → AllDistinct (contents tables)
    → compare_all_tables tables tables (schema_diff_create name) opts ≡ schema_diff_create name
unfolding compare_all_tables contents
compare_all_tables_self none name opts k d = refl
compare_all_tables_self (some tables) name opts k d = compare_arrays_self tables name opts k d
