-- ===== src/HashTable/Laws.antt =====
-- The operations of the table as updates of one bucket: what they do to a lookup and to the size.
use native.Mathlib.Nat.{mod-lt}
use schema_compare_c.Base.{
  ℕ, zero, suc, ◌+◌, ◌≤◌, ◌<◌, ◌≡◌, List, [], ◌∷◌, arith, length, get_or, set,
}
use schema_compare_c.Text.{Bytes}
use schema_compare_c.HashTable.Chain.{HashEntry, count}
use schema_compare_c.HashTable.{HashTable, index_of, bucket}

module _ {V : Type 0} where
  -- The entries of all the chains.
  unfoldable pub total : List (List (HashEntry V)) → ℕ
  total [] = 0
  total (c ∷ cs) = length c + total cs

  pub total-set :
      (bs : List (List (HashEntry V))) (i : ℕ) (c : List (HashEntry V))
      → i < length bs
      → total (set bs i c) + length (get_or bs i []) ≡ total bs + length c
  unfolding total
  total-set [] i c h = elim h [ ]
  total-set (b ∷ bs) zero c h = omega arith
  total-set (b ∷ bs) (suc i) c h = omega (arith, total-set bs i c)

  -- What every operation keeps: a chain for each index, at most one entry for a key, and that one
  -- in the chain of its hash; the size is the number of entries.
  pub record IsValid (ht : HashTable V) : Type 0 where
    pub width : length ht.buckets ≡ ht.capacity
    pub positive : 0 < ht.capacity
    pub unique : (q : Bytes) (i : ℕ) → count q (bucket ht i) ≤ 1
    pub placed : (q : Bytes) (i : ℕ) → 0 < count q (bucket ht i) → i ≡ index_of ht q
    pub counted : total ht.buckets ≡ ht.size

  pub index-lt : (ht : HashTable V) (k : Bytes) → 0 < ht.capacity → index_of ht k < ht.capacity
  unfolding index_of
  index-lt ht k h = grind (arith, mod-lt)

  -- 1 if the table has an entry under the key, whatever its value, and else 0.
  unfoldable pub stored : HashTable V → Bytes → ℕ
  stored ht k = count k (bucket ht (index_of ht k))
