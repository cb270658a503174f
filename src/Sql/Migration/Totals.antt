-- ===== src/Sql/Migration/Totals.antt =====
-- How many statements the differences of a table take, which of them destroy, and loops of scripts.
use schema_compare_c.Base.{
  ℕ, ◌+◌, ◌≡◌, refl, ap, ap₂, Bool, true, false, not, ◌&&◌, ◌||◌, List, [], ◌∷◌, Option, none, some,
  arith, length, if◌then◌else◌,
}
use schema_compare_c.Diff.{ColumnDiff, ConstraintDiff, TableDiff}
use schema_compare_c.Sql.Calls.{Call}
use schema_compare_c.Sql.Migration.{
  Script, for_each, statement, only, destructive, ◌then_do◌, script_if,
}

abbrev pub one_if : Bool → ℕ
one_if true = 1
one_if false = 0

abbrev pub one_if_some {ℓ} : {A : Type ℓ} → Option A → ℕ
one_if_some none = 0
one_if_some (some _) = 1

abbrev pub total {ℓ} : {A : Type ℓ} → (A → ℕ) → List A → ℕ
total f [] = 0
total f (a ∷ rest) = f a + total f rest

abbrev pub any {ℓ} : {A : Type ℓ} → (A → Bool) → List A → Bool
any f [] = false
any f (a ∷ rest) = f a || any f rest

abbrev pub is_empty {ℓ} : {A : Type ℓ} → List A → Bool
is_empty [] = true
is_empty (_ ∷ _) = false

-- A statement for each property of a column that changes.
abbrev pub column_statements : ColumnDiff → ℕ
column_statements cd =
    one_if cd.type_changed + one_if cd.default_changed + one_if cd.nullable_changed

-- The constraint is dropped, if it has a name, and added.
abbrev pub constraint_statements : ConstraintDiff → ℕ
constraint_statements cd = one_if_some cd.constraint_name + 1

-- What the changes of a table that stays take.
unfoldable pub alter_statements : TableDiff → ℕ
alter_statements td =
    length td.columns_removed
    + length td.columns_added
    + total column_statements td.columns_modified
    + length td.constraints_removed
    + length td.constraints_added
    + total constraint_statements td.constraints_modified

-- A removed table is dropped; a new one whose statement is known is created and has its foreign
-- keys added.
unfoldable pub table_statements : TableDiff → ℕ
unfolding alter_statements
table_statements td =
    one_if td.table_removed
    + (if td.table_added then one_if_some td.target_table + one_if_some td.target_table else 0)
    + (if not (td.table_added || td.table_removed) then alter_statements td else 0)

unfoldable pub destroys : TableDiff → Bool
destroys td =
    td.table_removed
    || (not td.table_added
        && (not (is_empty td.columns_removed) || not (is_empty td.constraints_removed)))

module _ {ℓ} {A : Type ℓ} where
  pub count-for_each :
      (body : A → Script) (f : A → ℕ) (as' : List A)
      → ((a : A) → (body a).stmt_count ≡ f a)
      → (for_each body as').stmt_count ≡ total f as'
  unfolding for_each ◌then_do◌ script_if statement only destructive
  count-for_each body f [] h = refl
  count-for_each body f (a ∷ rest) h = ap₂ ◌+◌ (h a) (count-for_each body f rest h)

  pub total_one : (as' : List A) → total (λ _. 1) as' ≡ length as'
  total_one [] = omega arith
  total_one (a ∷ rest) = omega (arith, total_one rest)

  pub any-for_each :
      (body : A → Script) (f : A → Bool) (as' : List A)
      → ((a : A) → (body a).has_destructive ≡ f a)
      → (for_each body as').has_destructive ≡ any f as'
  unfolding for_each ◌then_do◌ script_if statement only destructive
  any-for_each body f [] h = refl
  any-for_each body f (a ∷ rest) h = ap₂ ◌||◌ (h a) (any-for_each body f rest h)

  pub any_ext : (f g : A → Bool) (as' : List A) → ((a : A) → f a ≡ g a) → any f as' ≡ any g as'
  any_ext f g [] h = refl
  any_ext f g (a ∷ rest) h = ap₂ ◌||◌ (h a) (any_ext f g rest h)

  pub any-or :
      (f g : A → Bool) (as' : List A) → any (λ a. f a || g a) as' ≡ (any f as' || any g as')
  any-or f g [] = refl
  any-or f g (a ∷ rest) = rw (any-or f g rest) (or_swap (f a) (g a) (any f rest) (any g rest))
    where
      or_swap : (p q r s : Bool) → ((p || q) || (r || s)) ≡ ((p || r) || (q || s))
      or_swap true q r s = refl
      or_swap false true true s = refl
      or_swap false true false s = refl
      or_swap false false r s = refl

pub script_if_count :
    (b : Bool) (s : Script) → s.stmt_count ≡ 1 → (script_if b s).stmt_count ≡ one_if b
unfolding for_each ◌then_do◌ script_if statement only destructive
script_if_count true s h = h
script_if_count false s h = refl

pub script_if_flag :
    (b : Bool) (s : Script) → (script_if b s).has_destructive ≡ (b && s.has_destructive)
unfolding for_each ◌then_do◌ script_if statement only destructive
script_if_flag true s = refl
script_if_flag false s = refl

pub statement_unmarked :
    (b : Bool) (calls : List Call) → (script_if b (statement calls)).has_destructive ≡ false
unfolding for_each ◌then_do◌ script_if statement only destructive
statement_unmarked true calls = refl
statement_unmarked false calls = refl

pub or_false : (b : Bool) → (b || false) ≡ b
or_false true = refl
or_false false = refl

module _ {ℓ} {A : Type ℓ} (body : A → Script) where
  pub marked :
      (as' : List A)
      → ((a : A) → (body a).has_destructive ≡ true)
      → (for_each body as').has_destructive ≡ not (is_empty as')
  unfolding for_each ◌then_do◌ script_if statement only destructive
  marked [] h = refl
  marked (a ∷ rest) h = ap (λ b. b || (for_each body rest).has_destructive) (h a)

  pub unmarked :
      (as' : List A)
      → ((a : A) → (body a).has_destructive ≡ false)
      → (for_each body as').has_destructive ≡ false
  unfolding for_each ◌then_do◌ script_if statement only destructive
  unmarked [] h = refl
  unmarked (a ∷ rest) h = ap₂ ◌||◌ (h a) (unmarked rest h)
