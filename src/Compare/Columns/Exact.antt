-- ===== src/Compare/Columns/Exact.antt =====
-- `compare_columns` of src/compare/compare_column.c beside its specification.
use schema_compare_c.Base.{◌≡◌, refl, Bool, true, false, List, [], ◌∷◌, ◌++◌, some}
use schema_compare_c.Text.{Bytes}
use schema_compare_c.HashTable.{HashTable, hash_table_get}
use schema_compare_c.Ddl.Tables.{ColumnDef, TableElement}
use schema_compare_c.Diff.{ColumnDiff}
use schema_compare_c.Compare.Columns.{Progress, link}
use schema_compare_c.Compare.Columns.Lookup.{find_column}
use schema_compare_c.Compare.Columns.Spec.{tally, counted_tally}

-- The progress has these lists, and no flag is clear under a list that is not empty.
record Stands (p : Progress) (added removed modified : List ColumnDiff) : Type 0 where
  holds : tally p.result ≡ counted_tally added removed modified
  added_link : p.last_added ≡ false → added ≡ []
  removed_link : p.last_removed ≡ false → removed ≡ []
  modified_link : p.last_modified ≡ false → modified ≡ []

link-eq-append :
    {A : Type 0} (b : Bool) (l : List A) (a : A) → (b ≡ false → l ≡ []) → link b l a ≡ l ++ a ∷ []
unfolding link
link-eq-append true l a h = refl
link-eq-append false l a h = rw (h refl)

-- The table answers for those elements.
abbrev Indexes : HashTable ColumnDef → List TableElement → Type 0
Indexes ht elems = (name : Bytes) → hash_table_get ht (some name) ≡ find_column name elems
