-- ===== src/HashTable/Chain.antt =====
-- The walks of src/utils/hash_table.c along one chain, from the head.
use schema_compare_c.Base.{
  ℕ, ◌+◌, ◌≤◌, ◌<◌, ◌≡◌, refl, true, false, inl, inr, Option-cases, List, [], ◌∷◌, Option, none,
  some, arith, to_nat, if◌then◌else◌, length,
}
use schema_compare_c.Text.{Bytes}
use schema_compare_c.Text.Strings.{same, same_iff}

pub record HashEntry (V : Type 0) : Type 0 where
  pub key : Bytes
  pub value : Option V

module _ {V : Type 0} where
  -- The value under `key`: the loop of `hash_table_get`.
  unfoldable pub find : Bytes → List (HashEntry V) → Option V
  find key [] = none
  find key (entry ∷ next) = if same entry.key key then entry.value else find key next

  -- The loop of `hash_table_insert`: the chain with the first entry under `key` overwritten.
  unfoldable pub assign : Bytes → Option V → List (HashEntry V) → Option (List (HashEntry V))
  assign key value [] = none
  assign key value (entry ∷ next) = elim (same entry.key key) [
    | true ↦ some (record entry { value = value } ∷ next)
    | false ↦ elim (assign key value next) [ none ↦ none | some next' ↦ some (entry ∷ next') ]
  ]

  -- The loop of `hash_table_remove`: the chain without the first entry under `key`.
  unfoldable pub unlink : Bytes → List (HashEntry V) → Option (List (HashEntry V))
  unlink key [] = none
  unlink key (entry ∷ next) = elim (same entry.key key) [
    | true ↦ some next
    | false ↦ elim (unlink key next) [ none ↦ none | some next' ↦ some (entry ∷ next') ]
  ]

  -- How many entries stand under `key`.
  unfoldable pub count : Bytes → List (HashEntry V) → ℕ
  count key [] = 0
  count key (entry ∷ next) = to_nat (same entry.key key) + count key next

  pub find-eq-none : (k : Bytes) (c : List (HashEntry V)) → count k c ≡ 0 → find k c ≡ none
  unfolding find count
  find-eq-none k [] h = refl
  find-eq-none k (e ∷ c) h = ground (arith, find-eq-none k c)

  pub find-assign :
      (k j : Bytes) (v : Option V) (c c' : List (HashEntry V))
      → assign k v c ≡ some c'
      → find j c' ≡ (if same k j then v else find j c)
  unfolding find assign
  find-assign k j v [] c' h = ground arith
  find-assign k j v (e ∷ c) c' h = elim (Option-cases (assign k v c)) [
    | inl q ↦ ground (arith, same_iff e.key k, same_iff e.key j, same_iff k j)
    | inr (d, q) ↦
        ground (arith, same_iff e.key k, same_iff e.key j, same_iff k j, find-assign k j v c d q)
  ]

  pub count-assign :
      (k j : Bytes) (v : Option V) (c c' : List (HashEntry V))
      → assign k v c ≡ some c'
      → count j c' ≡ count j c
  unfolding count assign
  count-assign k j v [] c' h = ground arith
  count-assign k j v (e ∷ c) c' h = elim (Option-cases (assign k v c)) [
    | inl q ↦ ground (arith)
    | inr (d, q) ↦ ground (arith, count-assign k j v c d q)
  ]

  pub length-assign :
      (k : Bytes) (v : Option V) (c c' : List (HashEntry V))
      → assign k v c ≡ some c'
      → length c' ≡ length c
  unfolding assign
  length-assign k v [] c' h = ground arith
  length-assign k v (e ∷ c) c' h = elim (Option-cases (assign k v c)) [
    | inl q ↦ ground (arith)
    | inr (d, q) ↦ ground (arith, length-assign k v c d q)
  ]

  pub count-assign-none :
      (k : Bytes) (v : Option V) (c : List (HashEntry V)) → assign k v c ≡ none → count k c ≡ 0
  unfolding count assign
  count-assign-none k v [] h = refl
  count-assign-none k v (e ∷ c) h = ground (arith, count-assign-none k v c)

  pub count-assign-some :
      (k : Bytes) (v : Option V) (c c' : List (HashEntry V))
      → assign k v c ≡ some c'
      → 0 < count k c
  unfolding count assign
  count-assign-some k v [] c' h = ground arith
  count-assign-some k v (e ∷ c) c' h = elim (Option-cases (assign k v c)) [
    | inl q ↦ ground (arith, q)
    | inr (d, q) ↦ ground (arith, count-assign-some k v c d q)
  ]

  pub find-unlink :
      (k j : Bytes) (c c' : List (HashEntry V))
      → unlink k c ≡ some c'
      → count k c ≤ 1
      → find j c' ≡ (if same k j then none else find j c)
  unfolding find count unlink
  find-unlink k j [] c' h n = ground arith
  find-unlink k j (e ∷ c) c' h n = elim (Option-cases (unlink k c)) [
    | inl q ↦ ground (arith, same_iff e.key k, same_iff e.key j, same_iff k j, find-eq-none k c)
    | inr (d, q) ↦ ground (
      arith,
      same_iff e.key k,
      same_iff e.key j,
      same_iff k j,
      find-eq-none k c,
      find-unlink k j c d q,
    )
  ]

  pub count-unlink :
      (k j : Bytes) (c c' : List (HashEntry V))
      → unlink k c ≡ some c'
      → count j c' + to_nat (same k j) ≡ count j c
  unfolding count unlink
  count-unlink k j [] c' h = ground arith
  count-unlink k j (e ∷ c) c' h = elim (Option-cases (unlink k c)) [
    | inl q ↦ ground (arith, same_iff e.key k, same_iff e.key j, same_iff k j)
    | inr (d, q) ↦
        ground (arith, same_iff e.key k, same_iff e.key j, same_iff k j, count-unlink k j c d q)
  ]

  pub length-unlink :
      (k : Bytes) (c c' : List (HashEntry V)) → unlink k c ≡ some c' → length c' + 1 ≡ length c
  unfolding unlink
  length-unlink k [] c' h = ground arith
  length-unlink k (e ∷ c) c' h = elim (Option-cases (unlink k c)) [
    | inl q ↦ ground (arith)
    | inr (d, q) ↦ ground (arith, length-unlink k c d q)
  ]

  pub count-unlink-none : (k : Bytes) (c : List (HashEntry V)) → unlink k c ≡ none → count k c ≡ 0
  unfolding count unlink
  count-unlink-none k [] h = refl
  count-unlink-none k (e ∷ c) h = ground (arith, count-unlink-none k c)
