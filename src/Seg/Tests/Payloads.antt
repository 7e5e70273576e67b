-- ===== src/Seg/Tests/Payloads.antt =====
-- Payloads of a heap of two blocks when a request is answered, refused or moves one of them.
use mar_2015_dynamic_storage.Base.{
  ℕ, ◌+◌, ◌≤◌, ◌/◌, ◌≡◌, inl, inr, false, [], ◌∷◌, some, arith, refl,
}
use mar_2015_dynamic_storage.Machine.Memory.{get}
use mar_2015_dynamic_storage.Machine.State.{}
use mar_2015_dynamic_storage.Memlib.{Sbrk}
use mar_2015_dynamic_storage.Seg.Fit.{null}
use mar_2015_dynamic_storage.Seg.Sizes.{adjust, extend_size}
use mar_2015_dynamic_storage.Seg.Package.{mm_malloc, mm_free, even_bytes}
use mar_2015_dynamic_storage.Seg.Heap.{end_of}
use mar_2015_dynamic_storage.Seg.Heap.Around.{free_block}
use mar_2015_dynamic_storage.Seg.Heap.Coalesce.{first_used}
use mar_2015_dynamic_storage.Seg.Heap.Malloc.{IsFull}
use mar_2015_dynamic_storage.Seg.Heap.Refused.{mm_malloc-IsRefused}
use mar_2015_dynamic_storage.Seg.Heap.Kept.Requests.{mm_free-payload, mm_malloc-payload}
use mar_2015_dynamic_storage.Seg.Heap.Realloc.Fresh.{Fresh, mm_malloc-fresh}
use mar_2015_dynamic_storage.Seg.Heap.Realloc.Contents.{Reallocated, mm_realloc-Reallocated}
use mar_2015_dynamic_storage.Seg.Tests.Heaps.{one}
use mar_2015_dynamic_storage.Seg.Tests.Tiled.{
  two_blocks, willing, small_state, small_heap, more_bytes, CanGrow-by,
}

mm_realloc-Reallocated_example : Reallocated willing 100 small_state 2000 (free_block 32 ∷ []) [] 32
unfolding first_used
mm_realloc-Reallocated_example =
    mm_realloc-Reallocated willing 100 small_state (one 2000) 2000 (free_block 32 ∷ []) [] 32
      small_heap refl (omega arith) (omega arith) (omega arith)
      (CanGrow-by (even_bytes (extend_size (adjust 100) / 4)) more_bytes.0)

-- the heap after a request for 100 bytes
abbrev after : Fresh willing 100 small_state 2000 (free_block 32 ∷ []) [] 32
unfolding first_used
after =
    mm_malloc-fresh willing 100 small_state (one 2000) 2000 (free_block 32 ∷ []) [] 32 small_heap
      refl (omega arith) (omega arith) (omega arith)
      (CanGrow-by (even_bytes (extend_size (adjust 100) / 4)) more_bytes.0)

mm_malloc-payload_example : get after.state.mem 2032 ≡ get small_state.mem 2032
mm_malloc-payload_example =
    mm_malloc-payload willing small_state (one 2000) 2000 two_blocks small_heap 100 (omega arith)
      (omega arith) (omega arith)
      (CanGrow-by (even_bytes (extend_size (adjust 100) / 4)) more_bytes.0) after.newptr after.state
      after.answer 2032 (inr (inl (refl, omega arith, omega arith)))

adjusted : 0 + 8 ≤ adjust 100
unfolding adjust
adjusted = omega arith

mm_free-payload_example :
    get (mm_free willing (end_of 2000 after.ls') after.state).mem (after.newptr + 0)
    ≡ get after.state.mem (after.newptr + 0)
mm_free-payload_example =
    mm_free-payload willing after.state after.lists 2000 after.ls' after.rs' 32 after.heap
      after.next (after.newptr + 0) (after.payload 0 adjusted)

-- the operating system grants no request
abbrev unwilling : Sbrk
unwilling k n = false

two_small : IsFull 2000 two_blocks (adjust 100)
unfolding adjust
two_small x n (inl (p, e, u)) = omega (arith, e)
two_small x n (inr (inl (p, e, u))) = omega (arith, e)
two_small x n (inr (inr f)) = absurd f

mm_malloc-IsRefused_example :
    (calls : ℕ) × (mm_malloc unwilling 100 small_state
      ≡ some (null, record small_state { sys = record small_state.sys { sbrk_calls = calls } }))
unfolding end_of
mm_malloc-IsRefused_example =
    mm_malloc-IsRefused unwilling 100 small_state (one 2000) 2000 two_blocks small_heap
      (omega arith) (omega arith) (omega arith) (omega arith) two_small (inr (inr refl))
