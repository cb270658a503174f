-- ===== src/Memory.antt =====
-- src/memory/memory.c: memory contexts, which keep account of the blocks that they have given out. A
-- pointer is its address. What the allocator of the C library answers is an argument: `ptr` for the
-- block, or none for NULL, and `node` for whether there is memory for the entry of the list.
pub mod Account
pub mod Clone
pub mod Copies
pub mod Statements
pub mod Types
use schema_compare_c.Base.{
  ℕ, ◌+◌, ◌-◌, ◌*◌, ◌%◌, ◌^◌, Bool, true, false, List, [], ◌∷◌, Option, none, some, ltb, ◌==◌,
  if◌then◌else◌, length, take,
}
use schema_compare_c.Text.{Bytes, CString, codes}

pub record MemBlock : Type 0 where
  pub ptr : ℕ
  pub size : ℕ

pub record MemoryContext : Type 0 where
  pub name : Bytes
  pub blocks : List MemBlock
  pub total_allocated : ℕ
  pub block_count : ℕ

-- The number of values of a `size_t`.
abbrev pub word : ℕ
word = 18446744073709551616

-- `a -= b` of a `size_t`.
unfoldable pub sub_word : ℕ → ℕ → ℕ
sub_word a b = (a + (word - b % word)) % word

abbrev unnamed_or : CString → Bytes
unnamed_or none = codes "unnamed"
unnamed_or (some name) = name

unfoldable pub memory_context_create : CString → MemoryContext
memory_context_create name = record {
  name = unnamed_or name;
  blocks = [];
  total_allocated = 0;
  block_count = 0;
}

unfoldable pub memory_context_reset : MemoryContext → MemoryContext
memory_context_reset ctx = record ctx { blocks = []; total_allocated = 0; block_count = 0 }

unfoldable pub track_allocation : (node : Bool) → MemoryContext → (ptr size : ℕ) → MemoryContext
track_allocation false ctx ptr size = ctx
track_allocation true ctx ptr size = record ctx {
  blocks = record { ptr = ptr; size = size } ∷ ctx.blocks;
  total_allocated = (ctx.total_allocated + size) % word;
  block_count = (ctx.block_count + 1) % word;
}

abbrev pub put_back :
    MemBlock → Option (MemBlock × List MemBlock) → Option (MemBlock × List MemBlock)
put_back b none = none
put_back b (some (found, rest)) = some (found, b ∷ rest)

-- The first block of that address, and the others.
unfoldable pub take_block : (ptr : ℕ) → List MemBlock → Option (MemBlock × List MemBlock)
take_block ptr [] = none
take_block ptr (b ∷ blocks) =
    let more = put_back b (take_block ptr blocks) in if b.ptr == ptr then some (b, blocks) else more

unfoldable pub without_block : MemoryContext → Option (MemBlock × List MemBlock) → MemoryContext
without_block ctx none = ctx
without_block ctx (some (b, rest)) = record ctx {
  blocks = rest;
  total_allocated = sub_word ctx.total_allocated b.size;
  block_count = sub_word ctx.block_count 1;
}

unfoldable pub untrack_allocation : MemoryContext → (ptr : ℕ) → MemoryContext
untrack_allocation ctx ptr = without_block ctx (take_block ptr ctx.blocks)

-- The functions below for a context that is not NULL; without one only the allocator is called.
unfoldable pub mem_alloc :
    MemoryContext → (size : ℕ) → (ptr : Option ℕ) → (node : Bool) → Option ℕ × MemoryContext
mem_alloc ctx size none node = (none, ctx)
mem_alloc ctx size (some ptr) node = (some ptr, track_allocation node ctx ptr size)

unfoldable pub mem_calloc :
    MemoryContext → (nmemb size : ℕ) → (ptr : Option ℕ) → (node : Bool) → Option ℕ × MemoryContext
mem_calloc ctx nmemb size none node = (none, ctx)
mem_calloc ctx nmemb size (some ptr) node =
    (some ptr, track_allocation node ctx ptr (nmemb * size % word))

-- The block is taken off the list before `realloc`, and stays off when that fails.
unfoldable pub mem_realloc :
    MemoryContext
    → (old : Option ℕ) → (size : ℕ) → (ptr : Option ℕ) → (node : Bool) → Option ℕ × MemoryContext
mem_realloc ctx none size ptr node = mem_alloc ctx size ptr node
mem_realloc ctx (some old) size none node = (none, untrack_allocation ctx old)
mem_realloc ctx (some old) size (some ptr) node =
    (some ptr, track_allocation node (untrack_allocation ctx old) ptr size)

unfoldable pub mem_free : MemoryContext → Option ℕ → MemoryContext
mem_free ctx none = ctx
mem_free ctx (some ptr) = untrack_allocation ctx ptr

-- A copy, with the bytes that it holds.
abbrev pub holding : Bytes → Option ℕ × MemoryContext → Option (ℕ × Bytes) × MemoryContext
holding text (none, ctx) = (none, ctx)
holding text (some ptr, ctx) = (some (ptr, text), ctx)

unfoldable pub mem_strdup :
    MemoryContext → CString → (ptr : Option ℕ) → (node : Bool) → Option (ℕ × Bytes) × MemoryContext
mem_strdup ctx none ptr node = (none, ctx)
mem_strdup ctx (some str) ptr node = holding str (mem_alloc ctx (length str + 1) ptr node)

unfoldable pub mem_strndup :
    MemoryContext
    → CString
    → (n : ℕ) → (ptr : Option ℕ) → (node : Bool) → Option (ℕ × Bytes) × MemoryContext
mem_strndup ctx none n ptr node = (none, ctx)
mem_strndup ctx (some str) n ptr node =
    let len = if ltb n (length str) then n else length str in
    holding (take len str) (mem_alloc ctx (len + 1) ptr node)

unfoldable pub memory_context_get_allocated : Option MemoryContext → ℕ
memory_context_get_allocated none = 0
memory_context_get_allocated (some ctx) = ctx.total_allocated
