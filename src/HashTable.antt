-- ===== src/HashTable.antt =====
-- src/utils/hash_table.c: a table of strings with separate chaining. A table that was created is
-- never NULL here, since allocations succeed; the values are `void *`, so a value may be NULL.
pub mod Chain
pub mod Laws
pub mod Refinement
pub mod Populate
use schema_compare_c.Base.{
  ℕ, zero, suc, ◌+◌, ◌-◌, ◌*◌, ◌%◌, ◌^◌, Bool, List, [], ◌∷◌, Option, none, some, ltb, is_some,
  if◌then◌else◌, get_or, set, length, replicate,
}
use schema_compare_c.Base.Int.{ℤ, pos, negsuc}
use schema_compare_c.Text.{Bytes, CString}
use schema_compare_c.HashTable.Chain
use schema_compare_c.HashTable.Chain.{HashEntry}

pub record HashTable (V : Type 0) : Type 0 where
  pub buckets : List (List (HashEntry V))
  pub capacity : ℕ
  pub size : ℕ

-- `unsigned long` has 64 bits, and `char` is signed: a byte above 127 is added as a negative.
unfoldable pub char_value : ℕ → ℕ
char_value c = if ltb c 128 then c else c + 2 ^ 64 - 256

-- The loop of `hash_string` from a hash on.
unfoldable pub hash_from : ℕ → Bytes → ℕ
unfolding char_value
hash_from hash [] = hash
hash_from hash (c ∷ str) = hash_from ((hash * 32 + hash + char_value c) % 2 ^ 64) str

unfoldable pub hash_string : Bytes → ℕ
unfolding hash_from
hash_string str = hash_from 5381 str

unfoldable pub hash_table_create : {V : Type 0} → ℤ → HashTable V
hash_table_create (pos zero) = record { buckets = replicate 16 []; capacity = 16; size = 0 }
hash_table_create (negsuc n) = record { buckets = replicate 16 []; capacity = 16; size = 0 }
hash_table_create (pos (suc n)) = record {
  buckets = replicate (suc n) [];
  capacity = suc n;
  size = 0;
}

module _ {V : Type 0} where
  unfoldable pub index_of : HashTable V → Bytes → ℕ
  unfolding hash_string
  index_of ht key = hash_string key % ht.capacity

  unfoldable pub bucket : HashTable V → ℕ → List (HashEntry V)
  bucket ht i = get_or ht.buckets i []

  unfoldable pub hash_table_insert : HashTable V → CString → Option V → HashTable V
  unfolding index_of bucket
  hash_table_insert ht none value = ht
  hash_table_insert ht (some key) value =
      let index = index_of ht key in
      let chain = bucket ht index in
      elim (Chain.assign key value chain) [
        | some chain' ↦ record ht { buckets = set ht.buckets index chain' }
        | none ↦ record ht {
          buckets = set ht.buckets index (record { key = key; value = value } ∷ chain);
          size = ht.size + 1;
        }
      ]

  unfoldable pub hash_table_get : HashTable V → CString → Option V
  unfolding index_of bucket
  hash_table_get ht none = none
  hash_table_get ht (some key) = Chain.find key (bucket ht (index_of ht key))

  unfoldable pub hash_table_contains : HashTable V → CString → Bool
  unfolding hash_table_get
  hash_table_contains ht key = is_some (hash_table_get ht key)

  unfoldable pub hash_table_remove : HashTable V → CString → HashTable V
  unfolding index_of bucket
  hash_table_remove ht none = ht
  hash_table_remove ht (some key) =
      let index = index_of ht key in
      elim (Chain.unlink key (bucket ht index)) [
        | some chain' ↦ record ht { buckets = set ht.buckets index chain'; size = ht.size - 1 }
        | none ↦ ht
      ]

  unfoldable pub hash_table_size : Option (HashTable V) → ℕ
  hash_table_size none = 0
  hash_table_size (some ht) = ht.size
