-- ===== src/Compare/Columns/Lookup.antt =====
-- Lookups in the hash tables that `compare_columns` fills.
use schema_compare_c.Base.{
  ◌≡◌, refl, ◌∙◌, inl, inr, Option-cases, List, [], ◌∷◌, Option, none, some, arith, if◌then◌else◌,
}
use schema_compare_c.Base.Int.{ℤ}
use schema_compare_c.Text.{Bytes}
use schema_compare_c.Text.Strings.{same}
use schema_compare_c.HashTable.{HashTable, hash_table_create, hash_table_insert, hash_table_get}
use schema_compare_c.HashTable.Laws.{IsValid}
use schema_compare_c.HashTable.Refinement.{create-IsValid, insert-IsValid, get-insert, get-create}
use schema_compare_c.Ddl.Tables.{ColumnDef, TableElement}
use schema_compare_c.Compare.Columns.{populate_columns, named_column}

-- The column, if it has that name.
unfoldable pub if_named : Bytes → Option (ColumnDef × Bytes) → Option ColumnDef
if_named name none = none
if_named name (some (col, n)) = if same n name then some col else none

-- The second, if there is none of the first.
abbrev pub or_else : Option ColumnDef → Option ColumnDef → Option ColumnDef
or_else none d = d
or_else (some c) d = some c

-- The last column of that name.
unfoldable pub find_column : Bytes → List TableElement → Option ColumnDef
unfolding if_named
find_column name [] = none
find_column name (elem ∷ next) = or_else (find_column name next) (if_named name (named_column elem))

-- A populated table finds the last column of the name, and what it found before where there is none.
get-populate :
    (ht : HashTable ColumnDef) (elems : List TableElement) (name : Bytes)
    → IsValid ht
    → hash_table_get (populate_columns ht elems) (some name)
      ≡ or_else (find_column name elems) (hash_table_get ht (some name))
unfolding find_column populate_columns
get-populate ht [] name h = refl
get-populate ht (elem ∷ next) name h = elim (Option-cases (named_column elem)) [
  | inl e ↦ rw e (ground (arith, get-populate ht next name h))
  | inr ((col, n), e) ↦ rw e (
      ground (
        arith,
        get-populate (hash_table_insert ht (some n) (some col)) next name
            (insert-IsValid ht (some n) (some col) h),
        get-insert ht n name (some col) h,
      ))
]

-- A table populated from the start finds exactly the last column of the name.
pub get-populate_created :
    (capacity : ℤ) (elems : List TableElement) (name : Bytes)
    → hash_table_get (populate_columns (hash_table_create capacity) elems) (some name)
      ≡ find_column name elems
get-populate_created capacity elems name =
    get-populate (hash_table_create capacity) elems name (create-IsValid capacity)
    ∙ rw get-create (or_else-none (find_column name elems))
  where
    or_else-none : (o : Option ColumnDef) → or_else o none ≡ o
    or_else-none none = refl
    or_else-none (some c) = refl
