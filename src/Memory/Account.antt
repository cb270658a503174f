-- ===== src/Memory/Account.antt =====
-- The account of a memory context of src/memory/memory.c, whatever is done with it.
use schema_compare_c.Base.{
  ℕ, ◌+◌, ◌*◌, ◌%◌, ◌≡◌, refl, sym, ◌∙◌, Bool, true, false, List, [], ◌∷◌, Option, none, some,
  arith, ◌==◌, if◌then◌else◌, length, ltb, take, subst, suc,
}
use schema_compare_c.Text.{Bytes, CString}
use schema_compare_c.Memory.{
  MemBlock, MemoryContext, word, sub_word, memory_context_create, memory_context_reset,
  track_allocation, take_block, put_back, holding, without_block, untrack_allocation, mem_alloc,
  mem_calloc, mem_realloc, mem_free, mem_strdup, mem_strndup,
}

unfoldable pub sizes : List MemBlock → ℕ
sizes [] = 0
sizes (b ∷ blocks) = b.size + sizes blocks

-- The totals are those of the list, as far as a `size_t` counts.
pub record IsBalanced (ctx : MemoryContext) : Type 0 where
  pub total : ctx.total_allocated ≡ sizes ctx.blocks % word
  pub count : ctx.block_count ≡ length ctx.blocks % word

-- What a program may do with a context, with any answers of the allocator.
pub data Step : MemoryContext → MemoryContext → Type 0 where
  alloc :
      (ctx : MemoryContext) (size : ℕ) (ptr : Option ℕ) (node : Bool)
      → Step ctx (mem_alloc ctx size ptr node).1
  calloc :
      (ctx : MemoryContext) (nmemb size : ℕ) (ptr : Option ℕ) (node : Bool)
      → Step ctx (mem_calloc ctx nmemb size ptr node).1
  realloc :
      (ctx : MemoryContext) (old : Option ℕ) (size : ℕ) (ptr : Option ℕ) (node : Bool)
      → Step ctx (mem_realloc ctx old size ptr node).1
  strdup :
      (ctx : MemoryContext) (str : CString) (ptr : Option ℕ) (node : Bool)
      → Step ctx (mem_strdup ctx str ptr node).1
  strndup :
      (ctx : MemoryContext) (str : CString) (n : ℕ) (ptr : Option ℕ) (node : Bool)
      → Step ctx (mem_strndup ctx str n ptr node).1
  free : (ctx : MemoryContext) (ptr : Option ℕ) → Step ctx (mem_free ctx ptr)
  reset : (ctx : MemoryContext) → Step ctx (memory_context_reset ctx)

pub data Reached : MemoryContext → Type 0 where
  created : (name : CString) → Reached (memory_context_create name)
  stepped : (ctx ctx' : MemoryContext) → Reached ctx → Step ctx ctx' → Reached ctx'

add_mod : (a b s : ℕ) → a ≡ s % word → (a + b) % word ≡ (b + s) % word
add_mod a b s e = omega (arith, e)

sub_mod : (a b s t : ℕ) → a ≡ s % word → s ≡ b + t → sub_word a b ≡ t % word
unfolding sub_word
sub_mod a b s t e f = omega (arith, e, f)

suc_mod : (n : ℕ) → (1 + n) % word ≡ suc n % word
suc_mod n = omega arith

track-IsBalanced :
    (node : Bool) (ctx : MemoryContext) (ptr size : ℕ)
    → IsBalanced ctx
    → IsBalanced (track_allocation node ctx ptr size)
unfolding track_allocation sizes
track-IsBalanced false ctx ptr size v = v
track-IsBalanced true ctx ptr size v = record {
  total = add_mod ctx.total_allocated size (sizes ctx.blocks) v.total;
  count = add_mod ctx.block_count 1 (length ctx.blocks) v.count ∙ suc_mod (length ctx.blocks);
}

-- The block that is taken and the others are the list.
abbrev Takes : List MemBlock → Option (MemBlock × List MemBlock) → Type 0
Takes blocks none = Unit
Takes blocks (some (b, rest)) =
    (sizes blocks ≡ b.size + sizes rest) × (length blocks ≡ length rest + 1)

take_block-Takes : (ptr : ℕ) (blocks : List MemBlock) → Takes blocks (take_block ptr blocks)
unfolding take_block sizes
take_block-Takes ptr [] = tt
take_block-Takes ptr (b ∷ blocks) =
    by_hit (b.ptr == ptr) (take_block ptr blocks) (take_block-Takes ptr blocks)
  where
    by_hit :
        (hit : Bool) (o : Option (MemBlock × List MemBlock))
        → Takes blocks o
        → Takes (b ∷ blocks) (if hit then some (b, blocks) else put_back b o)
    by_hit true o t = (refl, omega arith)
    by_hit false none t = tt
    by_hit false (some (found, rest)) (e, f) = (omega (arith, e), omega (arith, f))

without-IsBalanced :
    (ctx : MemoryContext) (o : Option (MemBlock × List MemBlock))
    → Takes ctx.blocks o
    → IsBalanced ctx
    → IsBalanced (without_block ctx o)
unfolding without_block
without-IsBalanced ctx none t v = v
without-IsBalanced ctx (some (b, rest)) (e, f) v = record {
  total = sub_mod ctx.total_allocated b.size (sizes ctx.blocks) (sizes rest) v.total e;
  count = sub_mod ctx.block_count 1 (length ctx.blocks) (length rest) v.count (omega (arith, f));
}

untrack-IsBalanced :
    (ctx : MemoryContext) (ptr : ℕ) → IsBalanced ctx → IsBalanced (untrack_allocation ctx ptr)
unfolding untrack_allocation
untrack-IsBalanced ctx ptr v =
    without-IsBalanced ctx (take_block ptr ctx.blocks) (take_block-Takes ptr ctx.blocks) v

alloc-IsBalanced :
    (ctx : MemoryContext) (size : ℕ) (ptr : Option ℕ) (node : Bool)
    → IsBalanced ctx
    → IsBalanced (mem_alloc ctx size ptr node).1
unfolding mem_alloc
alloc-IsBalanced ctx size none node v = v
alloc-IsBalanced ctx size (some ptr) node v = track-IsBalanced node ctx ptr size v

holding-same : (text : Bytes) (r : Option ℕ × MemoryContext) → (holding text r).1 ≡ r.1
holding-same text (none, ctx) = refl
holding-same text (some ptr, ctx) = refl

Step-IsBalanced : (ctx ctx' : MemoryContext) → Step ctx ctx' → IsBalanced ctx → IsBalanced ctx'
unfolding mem_calloc mem_realloc mem_strdup mem_strndup mem_free memory_context_reset sizes
Step-IsBalanced ctx ctx' (alloc _ size ptr node) v = alloc-IsBalanced ctx size ptr node v
Step-IsBalanced ctx ctx' (calloc _ nmemb size none node) v = v
Step-IsBalanced ctx ctx' (calloc _ nmemb size (some ptr) node) v =
    track-IsBalanced node ctx ptr (nmemb * size % word) v
Step-IsBalanced ctx ctx' (realloc _ none size ptr node) v = alloc-IsBalanced ctx size ptr node v
Step-IsBalanced ctx ctx' (realloc _ (some old) size none node) v = untrack-IsBalanced ctx old v
Step-IsBalanced ctx ctx' (realloc _ (some old) size (some ptr) node) v =
    track-IsBalanced node (untrack_allocation ctx old) ptr size (untrack-IsBalanced ctx old v)
Step-IsBalanced ctx ctx' (strdup _ none ptr node) v = v
Step-IsBalanced ctx ctx' (strdup _ (some str) ptr node) v =
    subst IsBalanced (sym (holding-same str (mem_alloc ctx (length str + 1) ptr node)))
      (alloc-IsBalanced ctx (length str + 1) ptr node v)
Step-IsBalanced ctx ctx' (strndup _ none n ptr node) v = v
Step-IsBalanced ctx ctx' (strndup _ (some str) n ptr node) v =
    let len : ℕ = if ltb n (length str) then n else length str in
    subst IsBalanced (sym (holding-same (take len str) (mem_alloc ctx (len + 1) ptr node)))
      (alloc-IsBalanced ctx (len + 1) ptr node v)
Step-IsBalanced ctx ctx' (free _ none) v = v
Step-IsBalanced ctx ctx' (free _ (some ptr)) v = untrack-IsBalanced ctx ptr v
Step-IsBalanced ctx ctx' (reset _) v = record { total = refl; count = refl }

-- Whatever sequence of calls is made on a context from its creation on, and whatever the allocator
-- answers, the context's total is the sum of the sizes of the blocks on its list and its count is
-- their number, each modulo the range of a `size_t`.
pub reached-IsBalanced : (ctx : MemoryContext) → Reached ctx → IsBalanced ctx
unfolding memory_context_create sizes
reached-IsBalanced ctx (created name) = record { total = refl; count = refl }
reached-IsBalanced ctx (stepped before _ r s) =
    Step-IsBalanced before ctx s (reached-IsBalanced before r)
