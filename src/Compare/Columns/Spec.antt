-- ===== src/Compare/Columns/Spec.antt =====
-- What a comparison of columns should report, said without tables of hashes or running lists.
use schema_compare_c.Base.{ℕ, List, [], ◌∷◌, Option, none, some, length}
use schema_compare_c.Ddl.Tables.{ColumnDef, TableElement}
use schema_compare_c.Diff.{ColumnDiff, TableDiff}
use schema_compare_c.Compare.Options.{CompareOptions}
use schema_compare_c.Compare.Column.{compare_column_details}
use schema_compare_c.Compare.Columns.{named_column}
use schema_compare_c.Compare.Columns.Lookup.{find_column}

-- The columns of the second table whose name no column of the first has, in their order.
unfoldable pub missing_from : List TableElement → List TableElement → List ColumnDef
missing_from others [] = []
missing_from others (elem ∷ next) = elim (named_column elem) [
  | none ↦ missing_from others next
  | some (col, name) ↦ elim (find_column name others) [
    | none ↦ col ∷ missing_from others next
    | some _ ↦ missing_from others next
  ]
]

-- The differences of the columns of the second table from those of their names in the first.
unfoldable pub changes :
    Option CompareOptions → List TableElement → List TableElement → List ColumnDiff
changes opts others [] = []
changes opts others (elem ∷ next) = elim (named_column elem) [
  | none ↦ changes opts others next
  | some (col, name) ↦ elim (find_column name others) [
    | none ↦ changes opts others next
    | some old ↦ elim (compare_column_details old col opts) [
      | none ↦ changes opts others next
      | some cd ↦ cd ∷ changes opts others next
    ]
  ]
]

-- The lists and counts of columns in a table difference.
pub record Tally : Type 0 where
  pub added : List ColumnDiff
  pub removed : List ColumnDiff
  pub modified : List ColumnDiff
  pub add_count : ℕ
  pub remove_count : ℕ
  pub modify_count : ℕ

unfoldable pub tally : TableDiff → Tally
tally r = record {
  added = r.columns_added;
  removed = r.columns_removed;
  modified = r.columns_modified;
  add_count = r.column_add_count;
  remove_count = r.column_remove_count;
  modify_count = r.column_modify_count;
}

abbrev pub no_tally : Tally
no_tally = record {
  added = [];
  removed = [];
  modified = [];
  add_count = 0;
  remove_count = 0;
  modify_count = 0;
}

-- Three lists, each with its length for a count.
unfoldable pub counted_tally : List ColumnDiff → List ColumnDiff → List ColumnDiff → Tally
counted_tally added removed modified = record {
  added = added;
  removed = removed;
  modified = modified;
  add_count = length added;
  remove_count = length removed;
  modify_count = length modified;
}
