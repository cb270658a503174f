-- ===== src/HashTable/Refinement.antt =====
-- The table of src/utils/hash_table.c as a map: lookups after each operation, and validity.
use schema_compare_c.Base.{
  ℕ, zero, suc, ◌+◌, ◌-◌, ◌≤◌, ◌<◌, ◌≡◌, refl, ap, subst, inl, inr, Bool-cases, Option-cases, List,
  [], ◌∷◌, Option, none, some, arith, to_nat, ◌==◌, ==_iff, if◌then◌else◌, length, length-set,
  length-replicate, get_or, set, get_or-set, get_or-replicate, replicate,
}
use schema_compare_c.Base.Int.{ℤ, pos, negsuc}
use schema_compare_c.Text.{Bytes, CString}
use schema_compare_c.Text.Strings.{same, same_iff, same_refl}
use schema_compare_c.HashTable.Chain.{
  HashEntry, find, assign, unlink, count, find-assign, find-unlink, count-assign, count-assign-none,
  count-assign-some, count-unlink, count-unlink-none, length-assign, length-unlink, find-eq-none,
}
use schema_compare_c.HashTable.{
  HashTable, index_of, bucket, hash_table_create, hash_table_insert, hash_table_get,
  hash_table_remove,
}
use schema_compare_c.HashTable.Laws.{total, total-set, IsValid, index-lt, stored}

total-replicate : (V : Type 0) (n : ℕ) → total {V = V} (replicate n []) ≡ 0
unfolding total
total-replicate V zero = refl
total-replicate V (suc n) = omega (arith, total-replicate V n)

module _ {V : Type 0} where
  empty-IsValid :
      (n : ℕ)
      → 0 < n
      → IsValid {V = V} (record { buckets = replicate n []; capacity = n; size = 0 })
  unfolding bucket count
  empty-IsValid n h = record {
    width = length-replicate n [];
    positive = h;
    unique = λ q i. rw get_or-replicate (omega arith);
    placed = λ q i p. absurd (none_there q i p);
    counted = total-replicate V n;
  }
    where
      none_there : (q : Bytes) (i : ℕ) → ¬ (0 < count {V = V} q (get_or (replicate n []) i []))
      none_there q i = rw get_or-replicate (omega arith)

  -- Whatever capacity is asked for, the created table is valid and finds nothing.
  pub create-IsValid : (capacity : ℤ) → IsValid {V = V} (hash_table_create capacity)
  unfolding hash_table_create
  create-IsValid (pos zero) = empty-IsValid 16 (omega arith)
  create-IsValid (negsuc n) = empty-IsValid 16 (omega arith)
  create-IsValid (pos (suc n)) = empty-IsValid (suc n) (omega arith)

  module _ (ht : HashTable V) (valid : IsValid ht) (k : Bytes) where
    home : ℕ
    home = index_of ht k

    home-lt : index_of ht k < length ht.buckets
    home-lt = rw valid.width (index-lt ht k valid.positive)

    -- A table with the chain of `k` replaced, and another size.
    abbrev with_chain : List (HashEntry V) → ℕ → HashTable V
    with_chain c n = record ht { buckets = set ht.buckets (index_of ht k) c; size = n }

    bucket-with_chain :
        (c : List (HashEntry V)) (n i : ℕ)
        → bucket (with_chain c n) i ≡ (if index_of ht k == i then c else bucket ht i)
    unfolding bucket
    bucket-with_chain c n i = get_or-set ht.buckets (index_of ht k) i c [] home-lt

    -- Replacing a chain by one that counts every key of that chain at most once, and other keys of
    -- its hash alone, keeps the table valid.
    with_chain-IsValid :
        (c : List (HashEntry V)) (n : ℕ)
        → ((q : Bytes) → count q c ≤ 1)
        → ((q : Bytes) → 0 < count q c → index_of ht k ≡ index_of ht q)
        → n + length (bucket ht (index_of ht k)) ≡ ht.size + length c
        → IsValid (with_chain c n)
    unfolding bucket index_of
    with_chain-IsValid c n once own sized = record {
      width = rw length-set valid.width;
      positive = valid.positive;
      unique = λ q i. ground (arith, bucket-with_chain c n i, once q, valid.unique q i);
      placed = λ q i p.
          ground
            (arith, bucket-with_chain c n i, ==_iff (index_of ht k) i, own q, valid.placed q i, p);
      counted = omega (arith, total-set ht.buckets (index_of ht k) c home-lt, valid.counted, sized);
    }

  -- A new entry at the head of its chain is the only one of its key, and stands at its hash.
  fresh :
      (ht : HashTable V) (valid : IsValid ht) (k : Bytes) (v : Option V)
      → assign k v (bucket ht (index_of ht k)) ≡ none
      → (q : Bytes)
      → (count q (record { key = k; value = v } ∷ bucket ht (index_of ht k)) ≤ 1)
        × (0 < count q (record { key = k; value = v } ∷ bucket ht (index_of ht k))
            → index_of ht k ≡ index_of ht q)
  unfolding count
  fresh ht valid k v e q = elim (Bool-cases (same k q)) [
    | inl s ↦
        let t = (same_iff k q).0 s in
        let c = bucket ht (index_of ht k) in
        let z : count q c ≡ 0 = subst (λ x. count x c ≡ 0) t (count-assign-none k v c e) in
        rw s (omega arith, λ p. ap (index_of ht) t)
    | inr s ↦ rw s (
      omega (arith, valid.unique q (index_of ht k)),
      λ p. valid.placed q (index_of ht k) (omega arith),
    )
  ]

  -- Inserting keeps the table valid.
  pub insert-IsValid :
      (ht : HashTable V) (key : CString) (value : Option V)
      → IsValid ht
      → IsValid (hash_table_insert ht key value)
  unfolding hash_table_insert
  insert-IsValid ht none v valid = valid
  insert-IsValid ht (some k) v valid =
      let chain = bucket ht (index_of ht k) in
      elim (Option-cases (assign k v chain)) [
        | inr (c, e) ↦
            rw (e, hash_table_insert)
              (with_chain-IsValid ht valid k c ht.size
                (λ q. omega (arith, count-assign k q v chain c e, valid.unique q (index_of ht k)))
                (λ q p. valid.placed q (index_of ht k) (rw (count-assign k q v chain c e) at p))
                (omega (arith, length-assign k v chain c e)))
        | inl e ↦
            rw (e, hash_table_insert)
              (with_chain-IsValid ht valid k (record { key = k; value = v } ∷ chain) (ht.size + 1)
                (λ q. (fresh ht valid k v e q).0) (λ q. (fresh ht valid k v e q).1) (omega arith))
      ]

  get-find :
      (ht : HashTable V) (k : Bytes)
      → hash_table_get ht (some k) ≡ find k (bucket ht (index_of ht k))
  unfolding hash_table_get
  get-find ht k = refl

  get-bucket :
      (ht : HashTable V) (valid : IsValid ht) (k j : Bytes) (c : List (HashEntry V)) (n : ℕ)
      → hash_table_get (with_chain ht valid k c n) (some j)
        ≡ find j (if index_of ht k == index_of ht j then c else bucket ht (index_of ht j))
  unfolding hash_table_get
  get-bucket ht valid k j c n = ap (find j) (bucket-with_chain ht valid k c n (index_of ht j))

  -- A chain that reads as an update at `k` makes a table that does.
  get-with_chain :
      (ht : HashTable V) (valid : IsValid ht) (k j : Bytes) (v : Option V) (c : List (HashEntry V))
      (n : ℕ)
      → find j c ≡ (if same k j then v else find j (bucket ht (index_of ht k)))
      → hash_table_get (with_chain ht valid k c n) (some j)
        ≡ (if same k j then v else hash_table_get ht (some j))
  get-with_chain ht valid k j v c n h =
      rw (get-bucket ht valid k j c n, get-find ht j)
        (elim (Bool-cases (index_of ht k == index_of ht j)) [
          | inl e ↦ rw (e, ← (==_iff (index_of ht k) (index_of ht j)).0 e) h
          | inr e ↦ rw e (elim (Bool-cases (same k j)) [
            | inl s ↦ ground (arith, ap (index_of ht) ((same_iff k j).0 s))
            | inr s ↦ rw s
          ])
        ])

  -- Removing keeps the table valid.
  pub remove-IsValid :
      (ht : HashTable V) (key : CString) → IsValid ht → IsValid (hash_table_remove ht key)
  unfolding hash_table_remove
  remove-IsValid ht none valid = valid
  remove-IsValid ht (some k) valid =
      let i = index_of ht k in
      let chain = bucket ht i in
      elim (Option-cases (unlink k chain)) [
        | inr (c, e) ↦
            rw (e, hash_table_remove)
              (with_chain-IsValid ht valid k c (ht.size - 1)
                (λ q. omega (arith, count-unlink k q chain c e, valid.unique q i))
                (λ q p. valid.placed q i (omega (arith, count-unlink k q chain c e)))
                (omega (
                  arith,
                  length-unlink k chain c e,
                  valid.counted,
                  total-set ht.buckets i [] (home-lt ht valid k),
                )))
        | inl e ↦ rw (e, hash_table_remove) valid
      ]

  -- A lookup after an insertion finds the inserted value under its key, and what was there before
  -- under any other.
  pub get-insert :
      (ht : HashTable V) (k j : Bytes) (v : Option V)
      → IsValid ht
      → hash_table_get (hash_table_insert ht (some k) v) (some j)
        ≡ (if same k j then v else hash_table_get ht (some j))
  unfolding hash_table_insert
  get-insert ht k j v valid =
      let chain = bucket ht (index_of ht k) in
      elim (Option-cases (assign k v chain)) [
        | inr (c, e) ↦
            rw (e, hash_table_insert)
              (get-with_chain ht valid k j v c ht.size (find-assign k j v chain c e))
        | inl e ↦
            rw (e, hash_table_insert)
              (get-with_chain ht valid k j v (record { key = k; value = v } ∷ chain) (ht.size + 1)
                (unfold find in refl))
      ]

  -- A lookup after a removal finds nothing under the removed key, and what was there before under
  -- any other.
  pub get-remove :
      (ht : HashTable V) (k j : Bytes)
      → IsValid ht
      → hash_table_get (hash_table_remove ht (some k)) (some j)
        ≡ (if same k j then none else hash_table_get ht (some j))
  unfolding hash_table_remove
  get-remove ht k j valid =
      let i = index_of ht k in
      let chain = bucket ht i in
      elim (Option-cases (unlink k chain)) [
        | inr (c, e) ↦
            rw (e, hash_table_remove)
              (get-with_chain ht valid k j none c (ht.size - 1)
                (find-unlink k j chain c e (valid.unique k i)))
        | inl e ↦ rw (e, hash_table_remove) (absent (count-unlink-none k chain e))
      ]
    where
      absent :
          count k (bucket ht (index_of ht k)) ≡ 0
          → hash_table_get ht (some j) ≡ (if same k j then none else hash_table_get ht (some j))
      absent z = elim (Bool-cases (same k j)) [
        | inl s ↦ rw s (
            subst (λ x. hash_table_get ht (some x) ≡ none) ((same_iff k j).0 s)
              (unfold hash_table_get in find-eq-none k (bucket ht (index_of ht k)) z))
        | inr s ↦ rw s
      ]

  -- The size counts the keys: an insertion adds one exactly if the key was not stored, and a
  -- removal takes one away exactly if it was.
  pub size-insert :
      (ht : HashTable V) (k : Bytes) (v : Option V)
      → IsValid ht
      → (hash_table_insert ht (some k) v).size + stored ht k ≡ ht.size + 1
  unfolding hash_table_insert stored
  size-insert ht k v valid =
      let i = index_of ht k in
      let chain = bucket ht i in
      elim (Option-cases (assign k v chain)) [
        | inr (c, e) ↦
            rw (e, hash_table_insert)
              (omega (arith, count-assign-some k v chain c e, valid.unique k i))
        | inl e ↦ rw (e, hash_table_insert) (omega (arith, count-assign-none k v chain e))
      ]

  pub size-remove :
      (ht : HashTable V) (k : Bytes)
      → IsValid ht
      → (hash_table_remove ht (some k)).size + stored ht k ≡ ht.size
  unfolding hash_table_remove stored
  size-remove ht k valid =
      let i = index_of ht k in
      let chain = bucket ht i in
      elim (Option-cases (unlink k chain)) [
        | inr (c, e) ↦
            rw (e, hash_table_remove)
              (omega (
                arith,
                count-unlink k k chain c e,
                ap to_nat (same_refl k),
                length-unlink k chain c e,
                valid.counted,
                valid.unique k i,
                total-set ht.buckets i [] (home-lt ht valid k),
              ))
        | inl e ↦ rw (e, hash_table_remove) (omega (arith, count-unlink-none k chain e))
      ]

  -- A created table finds nothing.
  pub get-create :
      (capacity : ℤ) (k : Bytes)
      → hash_table_get {V = V} (hash_table_create capacity) (some k) ≡ none
  unfolding hash_table_create hash_table_get find
  get-create (pos zero) k = rw get_or-replicate
  get-create (negsuc n) k = rw get_or-replicate
  get-create (pos (suc n)) k = rw get_or-replicate
