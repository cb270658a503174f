-- ===== src/Examples/Utils.antt =====
-- The utilities at concrete inputs.
use schema_compare_c.Base.{
  ◌++◌, true, false, replicate, arith, ℕ, ◌+◌, ◌≡◌, refl, List, none, some, if◌then◌else◌, length,
}
use schema_compare_c.Base.Int.{pos}
use schema_compare_c.Text.{Bytes, codes}
use schema_compare_c.Text.Strings.{same}
use schema_compare_c.HashTable.{
  HashTable, hash_string, hash_table_create, hash_table_insert, hash_table_get, hash_table_remove,
}
use schema_compare_c.HashTable.Laws.{IsValid}
use schema_compare_c.HashTable.Refinement.{
  create-IsValid, insert-IsValid, remove-IsValid, get-insert, get-remove,
}
use schema_compare_c.StringUtils.{str_split}
use schema_compare_c.StringUtils.Builder.{
  StringBuilder, sb_create, double_until, reallocate, sb_ensure_capacity, write, sb_append,
}
use schema_compare_c.StringUtils.Builder.Growth.{IsSound, sb_create-IsSound, sb_append_lem}
use schema_compare_c.StringUtils.Split.{occurrences, AllFree, join, str_split_lem}

hash_of_id : hash_string (codes "id") ≡ 5863474
unfolding hash_string
hash_of_id = refl

abbrev fresh_table : HashTable ℕ
fresh_table = hash_table_create (pos 2)

abbrev one_entry : HashTable ℕ
one_entry = hash_table_insert fresh_table (some (codes "id")) (some 7)

fresh_table-IsValid : IsValid fresh_table
fresh_table-IsValid = create-IsValid (pos 2)

insert-IsValid_example : IsValid one_entry
insert-IsValid_example = insert-IsValid fresh_table (some (codes "id")) (some 7) fresh_table-IsValid

one_entry-IsValid : IsValid one_entry
one_entry-IsValid = insert-IsValid fresh_table (some (codes "id")) (some 7) fresh_table-IsValid

remove-IsValid_example : IsValid (hash_table_remove one_entry (some (codes "id")))
remove-IsValid_example = remove-IsValid one_entry (some (codes "id")) one_entry-IsValid

get-insert_example :
    hash_table_get (hash_table_insert one_entry (some (codes "name")) (some 8)) (some (codes "id"))
    ≡ (if same (codes "name") (codes "id")
        then some 8
        else hash_table_get one_entry (some (codes "id")))
get-insert_example = get-insert one_entry (codes "name") (codes "id") (some 8) one_entry-IsValid

get-remove_example :
    hash_table_get (hash_table_remove one_entry (some (codes "id"))) (some (codes "id")) ≡ (
      if same (codes "id") (codes "id") then none else hash_table_get one_entry (some (codes "id")))
get-remove_example = get-remove one_entry (codes "id") (codes "id") one_entry-IsValid

str_split_lem_example :
    (parts : List Bytes) × (str_split (some (codes "a,b")) b',' ≡ some parts)
    × (length parts ≡ occurrences b',' (codes "a,b") + 1)
    × AllFree b',' parts
    × (join b',' parts ≡ codes "a,b")
str_split_lem_example = str_split_lem (codes "a,b") b','

-- 256 bytes and the NUL do not fit in the first buffer.
abbrev long_text : Bytes
long_text = replicate 256 97

-- If `realloc` fails, the capacity is doubled all the same and the bytes are written.
overflow_runs :
    sb_append (λ _. false) sb_create (some long_text)
    ≡ some (record { contents = long_text; allocated = 256; capacity = 512 })
unfolding sb_append sb_create sb_ensure_capacity write double_until reallocate
overflow_runs = refl

sb_append_lem_example :
    (sb' : StringBuilder) × (sb_append (λ _. true) sb_create (some long_text) ≡ some sb')
    × (sb'.contents ≡ sb_create.contents ++ long_text)
    × IsSound sb'
sb_append_lem_example =
    sb_append_lem (λ _. true) (λ _. refl) sb_create long_text sb_create-IsSound
      (unfold sb_create in omega arith)
