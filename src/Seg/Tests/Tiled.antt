-- ===== src/Seg/Tests/Tiled.antt =====
-- A heap of two blocks: a free block of 32 bytes at 2000 and a used one of 32 bytes at 2032.
use mar_2015_dynamic_storage.Base.{
  ℕ, ◌≤◌, ◌<◌, ◌≡◌, ◌⊎◌, inl, inr, true, List, [], ◌∷◌, ◌++◌, some, All, arith, ◌/◌, refl, sym, ap,
  ◌∙◌, subst,
}
use mar_2015_dynamic_storage.Machine.Memory.{Mem, get, put}
use mar_2015_dynamic_storage.Machine.State.{State}
use mar_2015_dynamic_storage.Blocks.{get_size, hdrp}
use mar_2015_dynamic_storage.Links
use mar_2015_dynamic_storage.Seg.{list_of, freelist_insert, place}
use mar_2015_dynamic_storage.Seg.Sizes.{list_entry, adjust}
use mar_2015_dynamic_storage.Seg.Lists.{Lists, update, IsFreeLists, freelist_insert_lem}
use mar_2015_dynamic_storage.Seg.Frame.{put-IsFreeLists}
use mar_2015_dynamic_storage.Seg.Search.{Has}
use mar_2015_dynamic_storage.Seg.Package.{mm_malloc, malloc_extend}
use mar_2015_dynamic_storage.Seg.Tests.Heaps.{
  zero_lists, outside, new_block, no_lists, one, class_two, one-cases,
}
use mar_2015_dynamic_storage.Seg.Heap.{Block, end_of, Tiled, FreeAt, IsMember, IsHeap}
use mar_2015_dynamic_storage.Seg.Heap.Around.{free_block, used_block}
use mar_2015_dynamic_storage.Seg.Heap.Allot.{allot, place-allot}
use mar_2015_dynamic_storage.Seg.{}
use mar_2015_dynamic_storage.Memlib.{Sbrk}
use mar_2015_dynamic_storage.Seg.Sizes.{extend_size}
use mar_2015_dynamic_storage.Seg.Package.{mm_free, even_bytes}
use mar_2015_dynamic_storage.Seg.Heap.Coalesce.{first_used}
use mar_2015_dynamic_storage.Seg.Heap.Release.{}
use mar_2015_dynamic_storage.Seg.Heap.Freed.{join_free, mm_free-heap}
use mar_2015_dynamic_storage.Seg.Heap.Grown.{CanGrow, grown, malloc_extend-heap}
use mar_2015_dynamic_storage.Seg.Heap.Served.{Served, mm_malloc-Served}
use mar_2015_dynamic_storage.Seg.Package.{mm_init}
use mar_2015_dynamic_storage.Seg.Heap.Init.{CanInit, mm_init-heap}
use mar_2015_dynamic_storage.Seg.Heap.First.{mm_malloc-first}
use mar_2015_dynamic_storage.Seg.Heap.Malloc.{IsFull, Answered, mm_malloc-heap}

-- the operating system grants every request
abbrev pub willing : Sbrk
willing k n = true

abbrev pub two_blocks : List Block
two_blocks = free_block 32 ∷ used_block 32 ∷ []

-- the headers, the footer and the epilogue
abbrev heap_words : Mem
heap_words = put (put (put (put (λ a. 0) 1996 34) 2024 32) 2028 33) 2060 3

abbrev pub small : Mem
small = freelist_insert 1104 1004 2000 heap_words

words_lists : IsFreeLists 1104 1004 heap_words no_lists
words_lists =
    let write = put-IsFreeLists 1104 1004 in
    write _ no_lists
      (write _ no_lists
        (write _ no_lists (write _ no_lists zero_lists 1996 34 (outside 1996 (omega arith))) 2024 32
          (outside 2024 (omega arith)))
        2028 33 (outside 2028 (omega arith)))
      2060 3 (outside 2060 (omega arith))

small_size : get_size heap_words (hdrp 2000) ≡ 32
unfolding get put
small_size = refl

small_lists : IsFreeLists 1104 1004 small (one 2000)
small_lists =
    subst (λ t. IsFreeLists 1104 1004 small (update no_lists t (2000 ∷ [])))
      (ap list_entry small_size ∙ class_two)
      (freelist_insert_lem 1104 1004 heap_words no_lists 2000 words_lists
        (new_block 2000 (omega arith) (omega arith)))

small-Tiled : Tiled small 2000 true two_blocks
unfolding freelist_insert Links.insert list_of list_entry get put
small-Tiled = ((refl, omega arith, λ u. refl), ((refl, omega arith, λ u. cc), refl))

small_members : (i : ℕ) → i < 24 → All (IsMember 2000 two_blocks i) (one 2000 i)
small_members i h = elim (one-cases 2000 i) [
  | inl (e, here) ↦ rw here ((32, inl (refl, refl, refl), class_two ∙ sym e), tt)
  | inr none_here ↦ rw none_here tt
]

small_complete : (x s : ℕ) → FreeAt 2000 two_blocks x s → Has x (one 2000 (list_entry s))
small_complete x s (inl (e, n, u)) =
    let at : list_entry s ≡ 2 = ap list_entry n ∙ class_two in rw at (inl e)
small_complete x s (inr (inl (e, n, u))) = cc
small_complete x s (inr (inr f)) = absurd f

pub small_heap : IsHeap 1104 1004 small (one 2000) 2000 two_blocks
unfolding end_of
small_heap = record {
  tiled = small-Tiled;
  in_memory = small_lists;
  members = small_members;
  complete = small_complete;
  room = omega arith;
  heads = omega arith;
  above = omega arith;
  near = omega arith;
  aligned = omega arith;
}

place-allot_example :
    (after : Lists) × IsHeap 1104 1004
      (place 1104 1004 2000 16 small)
      after
      2000
      (allot 16 32 ++ (used_block 32 ∷ []))
unfolding end_of
place-allot_example =
    place-allot 1104 1004 small (one 2000) 2000 [] (used_block 32 ∷ []) 16 32 small_heap
      (omega arith) (omega arith) (omega arith)

abbrev pub small_state : State
small_state = record {
  mem = small;
  sys = record { heap = 1000; mem_brk = 2064; mem_max_addr = 90000; sbrk_calls = 2 };
  heap_listp = 1104;
  free_listp = 1004;
}

in_break : end_of 2000 two_blocks ≤ 2064
unfolding end_of
in_break = omega arith

mm_malloc-heap_example :
    IsFull 2000 two_blocks (adjust 10)
      × (mm_malloc willing 10 small_state ≡ some (malloc_extend willing (adjust 10) small_state))
    ⊎ ((ls : List Block) × (rs : List Block) × (csize : ℕ) × Answered willing 10 small_state 2000
          two_blocks ls rs csize)
mm_malloc-heap_example =
    mm_malloc-heap willing 10 small_state (one 2000) 2000 two_blocks small_heap (omega arith)
      (omega arith) (omega arith) in_break

mm_free-heap_example :
    (m : Mem) × (mm_free willing 2032 small_state ≡ record small_state { mem = m })
    × ((after : Lists) × IsHeap 1104 1004 m after 2000 (join_free (free_block 32 ∷ []) 32 []))
unfolding end_of first_used
mm_free-heap_example =
    mm_free-heap willing small_state (one 2000) 2000 (free_block 32 ∷ []) [] 32 small_heap refl

pub more_bytes :
    (even_bytes (extend_size (adjust 100) / 4) ≡ 224)
    × (even_bytes (extend_size 104 / 4) ≡ 224)
    × (even_bytes 56 ≡ 224)
unfolding even_bytes extend_size adjust
more_bytes = (refl, refl, refl)

can_grow : CanGrow willing small_state 2000 two_blocks 224
unfolding end_of freelist_insert Links.insert list_of list_entry get put
can_grow = record {
  at_break = refl;
  under_limit = omega arith;
  granted = refl;
  positive_int = omega arith;
  address = omega arith;
  near = omega arith;
  clean = refl;
}

pub CanGrow-by : (n : ℕ) → n ≡ 224 → CanGrow willing small_state 2000 two_blocks n
CanGrow-by n e = subst (λ t. CanGrow willing small_state 2000 two_blocks t) (sym e) can_grow

malloc_extend-heap_example :
    (front : List Block) × (k : ℕ) × (m : Mem) × (after : Lists) × (join_free two_blocks
        (even_bytes (extend_size 104 / 4))
        []
      ≡ front ++ free_block k ∷ [])
    × (104 ≤ k)
    × (malloc_extend willing 104 small_state ≡ (
      end_of 2000 front,
      record small_state {
        mem = m;
        sys = grown (even_bytes (extend_size 104 / 4)) small_state.sys;
      },
    ))
    × IsHeap 1104 1004 m after 2000 (front ++ (allot 104 k ++ []))
malloc_extend-heap_example =
    malloc_extend-heap willing small_state (one 2000) 2000 two_blocks small_heap 104 (omega arith)
      (omega arith) (omega arith) (CanGrow-by (even_bytes (extend_size 104 / 4)) more_bytes.1)

mm_malloc-Served_example :
    (front : List Block) × (t : State) × Served willing 100 small_state 2000 front t
mm_malloc-Served_example =
    mm_malloc-Served willing 100 small_state (one 2000) 2000 two_blocks small_heap (omega arith)
      (omega arith) (omega arith)
      (CanGrow-by (even_bytes (extend_size (adjust 100) / 4)) more_bytes.0)

abbrev pub fresh_state : State
fresh_state = record {
  mem = λ a. 0;
  sys = record { heap = 4096; mem_brk = 4096; mem_max_addr = 90000; sbrk_calls = 0 };
  heap_listp = 0;
  free_listp = 0;
}

can_init : CanInit willing fresh_state
unfolding get
can_init = record {
  aligned = refl;
  under_limit = omega arith;
  granted = refl;
  granted_again = refl;
  address = omega arith;
  clean = refl;
}

mm_init-heap_example :
    (m : Mem) × (after : Lists) × (mm_init willing fresh_state ≡ (
      true,
      record {
        mem = m;
        sys = grown 992 (grown 112 fresh_state.sys);
        heap_listp = 4200;
        free_listp = 4100;
      },
    ))
    × IsHeap 4200 4100 m after 4208 (free_block 992 ∷ [])
mm_init-heap_example = mm_init-heap willing fresh_state can_init

mm_malloc-first_example :
    (t : State) × (after : Lists) × (mm_malloc willing 100 fresh_state ≡ some (4208, t))
    × (t.sys ≡ grown 992 (grown 112 fresh_state.sys))
    × IsHeap 4200 4100 t.mem after 4208 (allot (adjust 100) 992 ++ [])
mm_malloc-first_example =
    mm_malloc-first willing 100 fresh_state can_init refl (omega arith) (omega arith) (omega arith)
