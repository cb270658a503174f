-- ===== src/Compare/Columns/Self.antt =====
-- `compare_columns` of one table with itself.
use schema_compare_c.Base.{
  ◌≡◌, refl, ap, ◌∙◌, inl, inr, Option-cases, List, [], ◌∷◌, Option, none, some,
}
use schema_compare_c.Base.Int.{pos}
use schema_compare_c.Text.{Bytes}
use schema_compare_c.Text.Strings.{same_refl}
use schema_compare_c.HashTable.{HashTable, hash_table_get}
use schema_compare_c.Ddl.Tables.{ColumnDef, TableElement, CreateTableStmt}
use schema_compare_c.Diff.{TableDiff}
use schema_compare_c.Compare.Options.{CompareOptions}
use schema_compare_c.Compare.Column.Exact.{details_self}
use schema_compare_c.Compare.Columns.{
  Progress, named_column, find_added, find_removed, table_elements, column_index, begin,
  compare_columns,
}
use schema_compare_c.Compare.Columns.Lookup.{find_column, if_named, get-populate_created}

-- No two columns have one name.
abbrev pub DistinctNames : List TableElement → Type 0
DistinctNames [] = Unit
DistinctNames (elem ∷ next) =
    ((col : ColumnDef) (name : Bytes)
      → named_column elem ≡ some (col, name)
      → find_column name next ≡ none)
    × DistinctNames next

-- Every column of the second list is the one that the first list has under its name.
abbrev FindsItself : List TableElement → List TableElement → Type 0
FindsItself all [] = Unit
FindsItself all (elem ∷ next) =
    ((col : ColumnDef) (name : Bytes)
      → named_column elem ≡ some (col, name)
      → find_column name all ≡ some col)
    × FindsItself all next

FindsItself-cons :
    (elem : TableElement) (all next : List TableElement)
    → FindsItself all next
    → FindsItself (elem ∷ all) next
FindsItself-cons elem all [] h = tt
FindsItself-cons elem all (e ∷ next) h =
    (λ col name n. unfold find_column in rw (h.0 col name n), FindsItself-cons elem all next h.1)

DistinctNames-FindsItself : (all : List TableElement) → DistinctNames all → FindsItself all all
DistinctNames-FindsItself [] d = tt
DistinctNames-FindsItself (elem ∷ next) d = (
  λ col name n. unfold find_column if_named in rw (d.0 col name n, n, same_refl name),
  FindsItself-cons elem next next (DistinctNames-FindsItself next d.1),
)

find_added_self :
    (ht : HashTable ColumnDef) (all : List TableElement) (opts : Option CompareOptions)
    (next : List TableElement) (p : Progress)
    → ((name : Bytes) → hash_table_get ht (some name) ≡ find_column name all)
    → FindsItself all next
    → find_added ht opts next p ≡ p
unfolding find_added
find_added_self ht all opts [] p h f = refl
find_added_self ht all opts (elem ∷ next) p h f = elim (Option-cases (named_column elem)) [
  | inl e ↦ rw (e, find_added) (find_added_self ht all opts next p h f.1)
  | inr ((col, name), e) ↦
      rw (e, find_added, h name, f.0 col name e, details_self col opts)
        (find_added_self ht all opts next p h f.1)
]

find_removed_self :
    (ht : HashTable ColumnDef) (all next : List TableElement) (p : Progress)
    → ((name : Bytes) → hash_table_get ht (some name) ≡ find_column name all)
    → FindsItself all next
    → find_removed ht next p ≡ p
unfolding find_removed
find_removed_self ht all [] p h f = refl
find_removed_self ht all (elem ∷ next) p h f = elim (Option-cases (named_column elem)) [
  | inl e ↦ rw (e, find_removed) (find_removed_self ht all next p h f.1)
  | inr ((col, name), e) ↦
      rw (e, find_removed, h name, f.0 col name e) (find_removed_self ht all next p h f.1)
]

-- If the columns of a table have distinct names, then comparing it with itself leaves the result as
-- it was: no list, count or entry is added, whatever the options.
pub compare_columns_self :
    (stmt : CreateTableStmt) (result : TableDiff) (opts : Option CompareOptions)
    → DistinctNames (table_elements stmt)
    → compare_columns stmt stmt result opts ≡ result
unfolding compare_columns
compare_columns_self stmt result opts d =
    let all = table_elements stmt in
    let f = DistinctNames-FindsItself all d in
    let h = get-populate_created (pos 32) all in
    ap (λ (p : Progress). (find_removed (column_index stmt) all p).result)
      (find_added_self (column_index stmt) all opts all (begin result) h f)
    ∙ ap (λ (p : Progress). p.result)
        (find_removed_self (column_index stmt) all all (begin result) h f)
