-- ===== src/Seg/Tests/Sequences.antt =====
-- mm_init and a request for 100 bytes, where the system grants two extensions only.
use mar_2015_dynamic_storage.Base.{ℕ, ◌+◌, ◌≡◌, inl, inr, List, some, arith, refl, ltb}
use mar_2015_dynamic_storage.Machine.Memory.{get}
use mar_2015_dynamic_storage.Machine.State.{State}
use mar_2015_dynamic_storage.Memlib.{Sbrk}
use mar_2015_dynamic_storage.Seg.Lists.{Lists}
use mar_2015_dynamic_storage.Seg.Package.{mm_malloc, malloc_extend}
use mar_2015_dynamic_storage.Seg.Sizes.{adjust}
use mar_2015_dynamic_storage.Seg.Heap.{Block, end_of}
use mar_2015_dynamic_storage.Seg.Heap.Init.{CanInit, mm_init-heap}
use mar_2015_dynamic_storage.Seg.Heap.Malloc.{mm_malloc-heap}
use mar_2015_dynamic_storage.Seg.Heap.Sequence.{Holds, Reachable, initialised, requested}
use mar_2015_dynamic_storage.Seg.Heap.Sequence.Keeps.{Reachable-Held}
use mar_2015_dynamic_storage.Seg.Tests.Tiled.{fresh_state}

abbrev twice : Sbrk
twice k n = ltb k 2

can_init : CanInit twice fresh_state
unfolding get
can_init = record {
  aligned = refl;
  under_limit = omega arith;
  granted = refl;
  granted_again = refl;
  address = omega arith;
  clean = refl;
}

abbrev first : State
first = record {
  mem = (mm_init-heap twice fresh_state can_init).0;
  sys = record fresh_state.sys { mem_brk = 4096 + 112 + 992; sbrk_calls = 2 };
  heap_listp = 4200;
  free_listp = 4100;
}

first-Reachable : Reachable twice 4208 first
first-Reachable =
    initialised fresh_state first can_init (omega arith) refl
      (mm_init-heap twice fresh_state can_init).2

first-Holds : (lists : Lists) × (bs : List Block) × Holds 4208 first lists bs
first-Holds = Reachable-Held twice 4208 first first-Reachable

request : (q : ℕ) × (t : State) × (mm_malloc twice 100 first ≡ some (q, t))
request =
    let (lists, bs, h) = first-Holds in
    elim (mm_malloc-heap twice 100 first lists 4208 bs h.heap (omega arith) (omega arith)
      (omega arith) (omega (arith, h.at_break))) [
        | inl (full, r) ↦ (
          (malloc_extend twice (adjust 100) first).0,
          (malloc_extend twice (adjust 100) first).1,
          r,
        )
        | inr (ls, rs, k, (row, fit, (m, at, r, g))) ↦ (end_of 4208 ls, record first { mem = m }, r)
      ]

second-Reachable : Reachable twice 4208 request.1
second-Reachable =
    requested first request.1 100 request.0 first-Reachable (omega arith) (omega arith)
      (inr (inr (inr refl))) request.2

Reachable-Held_example : (lists : Lists) × (bs : List Block) × Holds 4208 request.1 lists bs
Reachable-Held_example = Reachable-Held twice 4208 request.1 second-Reachable
