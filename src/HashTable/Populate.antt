-- ===== src/HashTable/Populate.antt =====
-- The loops of src/compare/ that fill a table from an array, skipping what has no name.
use schema_compare_c.Base.{
  ◌≡◌, refl, ◌∙◌, inl, inr, Option-cases, List, [], ◌∷◌, Option, none, some, arith, if◌then◌else◌,
}
use schema_compare_c.Base.Int.{ℤ}
use schema_compare_c.Text.{Bytes}
use schema_compare_c.Text.Strings.{same, same_refl}
use schema_compare_c.HashTable.{HashTable, hash_table_create, hash_table_insert, hash_table_get}
use schema_compare_c.HashTable.Laws.{IsValid}
use schema_compare_c.HashTable.Refinement.{create-IsValid, insert-IsValid, get-insert, get-create}

-- The second, if there is none of the first.
abbrev pub or_else : {V : Type 0} → Option V → Option V → Option V
or_else none d = d
or_else (some v) d = some v

-- The value, if it has that name.
unfoldable pub if_named : {V : Type 0} → Bytes → Option (V × Bytes) → Option V
if_named name none = none
if_named name (some (v, n)) = if same n name then some v else none

module _ {E V : Type 0} (named : E → Option (V × Bytes)) where
  unfoldable pub populate : HashTable V → List E → HashTable V
  populate ht [] = ht
  populate ht (elem ∷ next) = elim (named elem) [
    | none ↦ populate ht next
    | some (v, name) ↦ populate (hash_table_insert ht (some name) (some v)) next
  ]

  -- The last value of that name.
  unfoldable pub find_last : Bytes → List E → Option V
  find_last name [] = none
  find_last name (elem ∷ next) = or_else (find_last name next) (if_named name (named elem))

  get-populate :
      (ht : HashTable V) (elems : List E) (name : Bytes)
      → IsValid ht
      → hash_table_get (populate ht elems) (some name)
        ≡ or_else (find_last name elems) (hash_table_get ht (some name))
  unfolding find_last populate if_named
  get-populate ht [] name h = refl
  get-populate ht (elem ∷ next) name h = elim (Option-cases (named elem)) [
    | inl e ↦ rw e (ground (arith, get-populate ht next name h))
    | inr ((v, n), e) ↦ rw e (
        ground (
          arith,
          get-populate (hash_table_insert ht (some n) (some v)) next name
              (insert-IsValid ht (some n) (some v) h),
          get-insert ht n name (some v) h,
        ))
  ]

  -- A table populated from the start finds exactly the last value of the name.
  pub get-populate_created :
      (capacity : ℤ) (elems : List E) (name : Bytes)
      → hash_table_get (populate (hash_table_create capacity) elems) (some name)
        ≡ find_last name elems
  get-populate_created capacity elems name =
      get-populate (hash_table_create capacity) elems name (create-IsValid capacity)
      ∙ rw get-create (or_else-none (find_last name elems))
    where
      or_else-none : (o : Option V) → or_else o none ≡ o
      or_else-none none = refl
      or_else-none (some v) = refl

  -- No two elements have one name.
  abbrev pub DistinctKeys : List E → Type 0
  DistinctKeys [] = Unit
  DistinctKeys (elem ∷ next) =
      ((v : V) (name : Bytes) → named elem ≡ some (v, name) → find_last name next ≡ none)
      × DistinctKeys next

  -- Every element of the second list is the one that the first has under its name.
  abbrev pub AllFound : List E → List E → Type 0
  AllFound all [] = Unit
  AllFound all (elem ∷ next) =
      ((v : V) (name : Bytes) → named elem ≡ some (v, name) → find_last name all ≡ some v)
      × AllFound all next

  AllFound-cons : (elem : E) (all next : List E) → AllFound all next → AllFound (elem ∷ all) next
  AllFound-cons elem all [] h = tt
  AllFound-cons elem all (e ∷ next) h =
      (λ v name n. unfold find_last in rw (h.0 v name n), AllFound-cons elem all next h.1)

  pub DistinctKeys-AllFound : (all : List E) → DistinctKeys all → AllFound all all
  DistinctKeys-AllFound [] d = tt
  DistinctKeys-AllFound (elem ∷ next) d = (
    λ v name n. unfold find_last if_named in rw (d.0 v name n, n, same_refl name),
    AllFound-cons elem next next (DistinctKeys-AllFound next d.1),
  )
