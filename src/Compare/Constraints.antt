-- ===== src/Compare/Constraints.antt =====
-- `compare_constraints` of src/compare/compare_constraint.c: the constraints of two tables, and the
-- search for partners among them. The arrays of constraints and the arrays of their marks
-- (`source_matched`, `target_matched`) are one list of pairs. `calloc` of no element does not fail, and
-- a key has at most the 32 columns that the arrays of matched indices have room for.
pub mod Infos
pub mod Marks
pub mod Recorded
pub mod Advance
pub mod Removed
pub mod Self
use schema_compare_c.Base.{
  ℕ, zero, suc, ◌+◌, Bool, true, false, not, ◌&&◌, List, [], ◌∷◌, ◌++◌, Option, none, some, ◌==◌,
  is_some, if◌then◌else◌, length, to_nat,
}
use schema_compare_c.Text.{Bytes, CString, codes}
use schema_compare_c.Ddl.Constraints.{ColumnConstraint, TableConstraint}
use schema_compare_c.Ddl.Tables.{TableElement, CreateTableStmt}
use schema_compare_c.Diff.{
  info, warning, constraint_added, constraint_removed, ConstraintPointer, table_level, column_level,
  ConstraintDiff, TableDiff, constraint_diff_create,
}
use schema_compare_c.Compare.Options.{CompareOptions, names_equal}
use schema_compare_c.Compare.Columns.{link, append_diff, or_text, table_elements}
use schema_compare_c.Compare.Constraints.Infos.{
  ConstraintInfo, constraint_infos_equivalent, constraint_infos, key_columns, check_value,
  unique_value, primary_key_value, exclude_value, foreign_key_value,
}

-- A constraint and its mark.
abbrev pub Marked : Type 0
Marked = ConstraintInfo × Bool

-- The first loop of the search: the first source constraint that is not matched and is equivalent
-- to the target's is marked; `none` if there is none.
unfoldable pub match_direct :
    Option CompareOptions → ConstraintInfo → List Marked → Option (List Marked)
match_direct opts target_c [] = none
match_direct opts target_c ((source_c, matched) ∷ next) =
    elim (not matched && constraint_infos_equivalent source_c target_c opts) [
      | true ↦ some ((source_c, true) ∷ next)
      | false ↦ elim (match_direct opts target_c next) [
        | none ↦ none
        | some next' ↦ some ((source_c, matched) ∷ next')
      ]
    ]

-- An inline constraint of the kind that is not matched.
unfoldable pub is_available : ℕ → Marked → Bool
is_available kind (c, matched) =
    not matched && is_some c.column_constraint && c.constraint_type == kind

unfoldable pub available_count : ℕ → List Marked → ℕ
available_count kind [] = 0
available_count kind (c ∷ next) = to_nat (is_available kind c) + available_count kind next

-- The index of the first available constraint on the column, counted from `i`.
unfoldable pub find_inline : Option CompareOptions → ℕ → CString → ℕ → List Marked → Option ℕ
find_inline opts kind name i [] = none
find_inline opts kind name i ((c, matched) ∷ next) =
    elim (is_available kind (c, matched) && names_equal c.column_name name opts) [
      | true ↦ some i
      | false ↦ find_inline opts kind name (i + 1) next
    ]

-- The loop over the columns of the table's key: the index for each, or `none` if one has none.
unfoldable pub find_all_inline :
    Option CompareOptions → ℕ → List Marked → List CString → Option (List ℕ)
find_all_inline opts kind constraints [] = some []
find_all_inline opts kind constraints (name ∷ names) =
    elim (find_inline opts kind name 0 constraints) [
      | none ↦ none
      | some i ↦ elim (find_all_inline opts kind constraints names) [
        | none ↦ none
        | some is ↦ some (i ∷ is)
      ]
    ]

-- `column_pks_match_table_pk` and `column_uniques_match_table_unique`, which differ in the kind
-- alone: the matched indices if the inline constraints of the kind are as many as the columns and
-- each column has one.
unfoldable pub columns_match_table :
    Option CompareOptions → ℕ → List Marked → List CString → Option (List ℕ)
columns_match_table opts kind constraints columns =
    if available_count kind constraints == length columns
    then find_all_inline opts kind constraints columns
    else none

unfoldable pub mark_at : ℕ → List Marked → List Marked
mark_at i [] = []
mark_at zero ((c, _) ∷ next) = (c, true) ∷ next
mark_at (suc i) (m ∷ next) = m ∷ mark_at i next

unfoldable pub mark_all_at : List ℕ → List Marked → List Marked
mark_all_at [] constraints = constraints
mark_all_at (i ∷ is) constraints = mark_all_at is (mark_at i constraints)

-- A key of a table against inline constraints of its kind: the other side with the partners marked.
unfoldable pub match_composite :
    Option CompareOptions → ConstraintInfo → List Marked → Option (List Marked)
match_composite opts c others = elim (key_columns c) [
  | none ↦ none
  | some columns ↦ elim (columns_match_table opts c.constraint_type others columns) [
    | none ↦ none
    | some is ↦ some (mark_all_at is others)
  ]
]

-- The name under which a constraint is reported.
unfoldable pub reported_name : ConstraintInfo → CString
reported_name c = elim c.table_constraint [
  | none ↦ c.column_name
  | some tc ↦ elim tc.constraint_name [ none ↦ c.column_name | some name ↦ some name ]
]

unfoldable pub type_text : ℕ → Bytes
type_text kind =
    if kind == check_value
    then codes "CHECK"
    else if kind == unique_value
    then codes "UNIQUE"
    else if kind == primary_key_value
    then codes "PRIMARY KEY"
    else if kind == foreign_key_value
    then codes "FOREIGN KEY"
    else if kind == exclude_value
    then codes "EXCLUDE"
    else codes "CONSTRAINT"

-- The pointer that is stored for the generation of SQL, the column's name, and whether the
-- constraint is an inline one.
unfoldable pub pointer_of : ConstraintInfo → Option ConstraintPointer × CString × Bool
pointer_of c = elim c.table_constraint [
  | some tc ↦ (some (table_level tc), none, false)
  | none ↦ elim c.column_constraint [
    | some cc ↦ (some (column_level cc), c.column_name, true)
    | none ↦ (none, none, false)
  ]
]

unfoldable pub added_constraint : ConstraintInfo → ConstraintDiff
added_constraint c =
    let (pointer, column_name, inline) = pointer_of c in
    record (constraint_diff_create (reported_name c)) {
      added = true;
      new_type = c.constraint_type;
      target_constraint = pointer;
      column_name = column_name;
      is_column_constraint = inline;
    }

unfoldable pub removed_constraint : ConstraintInfo → ConstraintDiff
removed_constraint c =
    let (pointer, column_name, inline) = pointer_of c in
    record (constraint_diff_create (reported_name c)) {
      removed = true;
      old_type = c.constraint_type;
      source_constraint = pointer;
      column_name = column_name;
      is_column_constraint = inline;
    }

-- The result, the list tails as flags, and the marks of both sides; `targets` holds the target's
-- constraints that the first loop has passed.
pub record Search : Type 0 where
  pub result : TableDiff
  pub last_added : Bool
  pub last_removed : Bool
  pub sources : List Marked
  pub targets : List Marked

unfoldable pub report_added : TableDiff → Bool → ConstraintInfo → TableDiff
report_added result linked c =
    append_diff
      (record result {
        constraint_add_count = result.constraint_add_count + 1;
        constraints_added = link linked result.constraints_added (added_constraint c);
      })
      constraint_added info (or_text (reported_name c) (codes "(unnamed)")) none
      (some (type_text c.constraint_type))

unfoldable pub report_removed : TableDiff → Bool → ConstraintInfo → TableDiff
report_removed result linked c =
    append_diff
      (record result {
        constraint_remove_count = result.constraint_remove_count + 1;
        constraints_removed = link linked result.constraints_removed (removed_constraint c);
      })
      constraint_removed warning (or_text (reported_name c) (codes "(unnamed)"))
      (some (type_text c.constraint_type)) none

-- The partner of a target constraint: a direct one, or else inline constraints for a table's key.
unfoldable pub match_target :
    Option CompareOptions → ConstraintInfo → List Marked → Option (List Marked)
match_target opts c sources = elim (match_direct opts c sources) [
  | some sources' ↦ some sources'
  | none ↦ match_composite opts c sources
]

-- One turn of the loop over the target: on either branch the target's mark is set.
unfoldable pub visit_target_constraint : Option CompareOptions → Search → ConstraintInfo → Search
visit_target_constraint opts s c = elim (match_target opts c s.sources) [
  | some sources' ↦ record s { sources = sources'; targets = s.targets ++ (c, true) ∷ [] }
  | none ↦ record s {
    result = report_added s.result s.last_added c;
    last_added = true;
    targets = s.targets ++ (c, true) ∷ [];
  }
]

unfoldable pub find_added_constraints :
    Option CompareOptions → List ConstraintInfo → Search → Search
find_added_constraints opts [] s = s
find_added_constraints opts (c ∷ next) s =
    find_added_constraints opts next (visit_target_constraint opts s c)

-- One turn of the loop over the source.
unfoldable pub visit_source_constraint : Option CompareOptions → Search → Marked → Search
visit_source_constraint opts s (c, true) = s
visit_source_constraint opts s (c, false) = elim (match_composite opts c s.targets) [
  | some targets' ↦ record s { targets = targets' }
  | none ↦ record s { result = report_removed s.result s.last_removed c; last_removed = true }
]

unfoldable pub find_removed_constraints : Option CompareOptions → List Marked → Search → Search
find_removed_constraints opts [] s = s
find_removed_constraints opts (m ∷ next) s =
    find_removed_constraints opts next (visit_source_constraint opts s m)

unfoldable pub unmatched : List ConstraintInfo → List Marked
unmatched [] = []
unmatched (c ∷ next) = (c, false) ∷ unmatched next

unfoldable pub compare_infos :
    List ConstraintInfo → List ConstraintInfo → TableDiff → Option CompareOptions → TableDiff
compare_infos [] [] result opts = result
compare_infos sources targets result opts =
    let start : Search = record {
      result = result;
      last_added = false;
      last_removed = false;
      sources = unmatched sources;
      targets = [];
    } in
    let s = find_added_constraints opts targets start in
    (find_removed_constraints opts s.sources s).result

unfoldable pub compare_constraints :
    CreateTableStmt → CreateTableStmt → TableDiff → Option CompareOptions → TableDiff
compare_constraints source target result opts =
    compare_infos (constraint_infos (table_elements source))
      (constraint_infos (table_elements target)) result opts
