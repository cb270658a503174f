-- ===== src/Compare/Tables/Modified.antt =====
-- The flag `table_modified` that `compare_tables` sets.
use schema_compare_c.Base.{
  ℕ, ◌+◌, ◌≡◌, refl, ap, ◌∙◌, subst, Bool, true, false, inl, inr, Bool-cases, ◌&&◌, ◌||◌, Option,
  none, some, arith, if◌then◌else◌, ltb,
}
use mathlib.Core.Option.{some_inj}
use schema_compare_c.Text.{CString}
use schema_compare_c.Ddl.Tables.{CreateTableStmt}
use schema_compare_c.Diff.{DiffType, DiffSeverity, TableDiff, table_diff_create}
use schema_compare_c.Compare.Options.{CompareOptions}
use schema_compare_c.Compare.Columns.{append_diff, compare_columns}
use schema_compare_c.Compare.Columns.Advance.{
  column_changes, constraint_changes, Advance, compare_columns-ColumnsAdvance,
}
use schema_compare_c.Compare.Constraints.{compare_constraints}
use schema_compare_c.Compare.Constraints.Advance.{compare_constraints-ConstraintsAdvance}
use schema_compare_c.Compare.Tables.{
  Comparison, compare_table_types, asks_constraints, compare_table_tablespaces, is_regular,
  counts_columns, counts_constraints, compare_table_columns, compare_table_constraints,
  begin_tables, compare_parts, finish, if_both_named, compare_tables,
}

-- The flag tells whether there are entries.
abbrev IsHonest : Comparison → Type 0
IsHonest c = c.has_changes ≡ ltb 0 c.result.diff_count

-- Honest, and nothing is counted yet.
record IsUncounted (c : Comparison) : Type 0 where
  honest : IsHonest c
  columns : column_changes c.result ≡ 0
  constraints : constraint_changes c.result ≡ 0

-- After counts that advance together with the entries the new flag is honest.
Advance-IsHonest :
    (before after n n' : ℕ) (flag : Bool)
    → before ≡ 0
    → flag ≡ ltb 0 n
    → Advance before n after n'
    → (ltb 0 after || flag) ≡ ltb 0 n'
Advance-IsHonest before after n n' flag z h (inl (e, f)) = ground (arith, z, h, e, f)
Advance-IsHonest before after n n' flag z h (inr (e, f)) = ground (arith, z, h, e, f)

grown : (n : ℕ) → true ≡ ltb 0 (n + 1)
grown n = ground arith

counts_columns_lem : (r : TableDiff) → counts_columns r ≡ ltb 0 (column_changes r)
unfolding counts_columns
counts_columns_lem r = ground arith

counts_constraints_lem : (r : TableDiff) → counts_constraints r ≡ ltb 0 (constraint_changes r)
unfolding counts_constraints
counts_constraints_lem r = ground arith

append_diff-IsUncounted :
    (r : TableDiff) (ty : DiffType) (sev : DiffSeverity) (e o n : CString)
    → column_changes r ≡ 0
    → constraint_changes r ≡ 0
    → IsUncounted (record { result = append_diff r ty sev e o n; has_changes = true })
unfolding append_diff
append_diff-IsUncounted r ty sev e o n h k = record {
  honest = grown r.diff_count;
  columns = h;
  constraints = k;
}

if_both-IsUncounted :
    (b : Bool) (c d : Comparison) → IsUncounted c → IsUncounted d → IsUncounted (if b then c else d)
if_both-IsUncounted true c d h k = h
if_both-IsUncounted false c d h k = k

module _ (opts : Option CompareOptions) (source target : CreateTableStmt) where
  types-IsUncounted :
      (c : Comparison) → IsUncounted c → IsUncounted (compare_table_types source target c)
  unfolding compare_table_types
  types-IsUncounted c h =
      if_both-IsUncounted _ _ _ h (append_diff-IsUncounted _ _ _ _ _ _ h.columns h.constraints)

  tablespaces-IsUncounted :
      (c : Comparison)
      → IsUncounted c
      → IsUncounted (compare_table_tablespaces opts source target c)
  unfolding compare_table_tablespaces
  tablespaces-IsUncounted c h =
      if_both-IsUncounted _ _ _ (append_diff-IsUncounted _ _ _ _ _ _ h.columns h.constraints) h

  columns-IsHonest :
      (c : Comparison)
      → IsUncounted c
      → IsHonest (compare_table_columns opts source target c)
        × (constraint_changes (compare_table_columns opts source target c).result ≡ 0)
  unfolding compare_table_columns
  columns-IsHonest c h = elim (Bool-cases (is_regular source && is_regular target)) [
    | inl b ↦
        let r = compare_columns source target c.result opts in
        let adv = compare_columns-ColumnsAdvance source target c.result opts in
        rw (b, compare_table_columns)
          (
            ap (λ f. f || c.has_changes) (counts_columns_lem r)
                ∙ Advance-IsHonest (column_changes c.result) (column_changes r) c.result.diff_count
                    r.diff_count c.has_changes h.columns h.honest adv.advance,
            adv.constraints ∙ h.constraints,
          )
    | inr b ↦ rw (b, compare_table_columns) (h.honest, h.constraints)
  ]

  constraints-IsHonest :
      (c : Comparison)
      → IsHonest c
      → constraint_changes c.result ≡ 0
      → IsHonest (compare_table_constraints opts source target c)
  unfolding compare_table_constraints
  constraints-IsHonest c h z =
      elim (Bool-cases (asks_constraints opts && is_regular source && is_regular target)) [
        | inl b ↦
            let r = compare_constraints source target c.result opts in
            rw (b, compare_table_constraints)
              (ap (λ f. f || c.has_changes) (counts_constraints_lem r)
                ∙ Advance-IsHonest (constraint_changes c.result) (constraint_changes r)
                    c.result.diff_count r.diff_count c.has_changes z h
                    (compare_constraints-ConstraintsAdvance source target c.result opts))
        | inr b ↦ rw (b, compare_table_constraints) h
      ]

  pub compare_parts-IsHonest : IsHonest (compare_parts opts source target)
  unfolding compare_parts begin_tables table_diff_create
  compare_parts-IsHonest =
      let parts = columns-IsHonest _ (
        tablespaces-IsUncounted _ (
          types-IsUncounted (begin_tables source target)
            (record { honest = refl; columns = refl; constraints = refl }))) in
      constraints-IsHonest _ parts.0 parts.1

if_both_named-table_modified :
    (a b : CString) (c : Comparison) (result : TableDiff)
    → IsHonest c
    → if_both_named a b (finish c) ≡ some result
    → result.table_modified ≡ ltb 0 result.diff_count
unfolding if_both_named finish
if_both_named-table_modified (some _) (some _) c result h e =
    subst (λ r. r.table_modified ≡ ltb 0 r.diff_count) (some_inj.0 e) h
if_both_named-table_modified none b c result h e = ground arith
if_both_named-table_modified (some _) none c result h e = ground arith

-- Whatever two tables `compare_tables` compares, it marks its result as modified exactly if it has
-- recorded at least one difference.
pub table_modified_lem :
    (source target : Option CreateTableStmt) (opts : Option CompareOptions) (result : TableDiff)
    → compare_tables source target opts ≡ some result
    → result.table_modified ≡ ltb 0 result.diff_count
unfolding compare_tables
table_modified_lem (some source) (some target) opts result e =
    if_both_named-table_modified source.table_name target.table_name
      (compare_parts opts source target) result (compare_parts-IsHonest opts source target) e
table_modified_lem none target opts result e = ground arith
table_modified_lem (some source) none opts result e = ground arith
