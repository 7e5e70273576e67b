-- ===== src/Driver/Tests.antt =====
-- The driver with the naive allocator, on a trace of four requests.
mod Runs
mod Scores
mod Choices
use mar_2015_dynamic_storage.Base.{
  ◌+◌, ◌-◌, ◌^◌, ◌<◌, ◌≡◌, ◌↔◌, ◌⊎◌, refl, arith, true, false, List, [], ◌∷◌, some, All, ◌%◌,
}
use mar_2015_dynamic_storage.Machine.Memory.{get, put, memcpy}
use mar_2015_dynamic_storage.Machine.State.{State}
use mar_2015_dynamic_storage.Memlib.{
  MemSys, Sbrk, mem_sbrk, mem_reset_brk, mem_heap_lo, mem_heap_hi, max_heap,
}
use mar_2015_dynamic_storage.Memlib.Bounds.{IsValid}
use mar_2015_dynamic_storage.Naive
use mar_2015_dynamic_storage.Driver.Package.{Package}
use mar_2015_dynamic_storage.Driver.RandomData.{fill, garbled, poke, garbled-fill}
use mar_2015_dynamic_storage.Driver.Ranges.{
  Range, added, is_aligned, hits, any_hit, is_outside, add_range, remove_range, clear_ranges,
}
use mar_2015_dynamic_storage.Driver.Ranges.Accepts.{Disjoint, Inside, Proper, add_range_accepts}
use mar_2015_dynamic_storage.Driver.Ranges.Separated.{Separated}
use mar_2015_dynamic_storage.Driver.Trace.{alloc, realloc, free, dbg_cheap, reinit_trace}
use mar_2015_dynamic_storage.Driver.Valid.{
  Config, Driver, Outcome, running, invalid, aborted, hanging, malloc_error, and_then,
  randomize_block, check_index, record_range, remember, check_copy, eval_alloc, eval_realloc,
  eval_free, eval_op, eval_ops, eval_mm_valid,
}
use mar_2015_dynamic_storage.Driver.Valid.Sound.{eval_mm_valid-Separated}

abbrev pub willing : Sbrk
willing k incr = true

-- the naive allocator behind the interface of mm.h
abbrev pub naive : Package
naive = record {
  State = State;
  mm_init = Naive.mm_init;
  mm_malloc = λ size s. some (Naive.malloc willing size s);
  mm_free = Naive.free;
  mm_realloc = λ p size s. some (Naive.realloc willing p size s);
  mem = λ s. s.mem;
  with_mem = λ m s. record s { mem = m };
  sys = λ s. s.sys;
  with_sys = λ k s. record s { sys = k };
  mem-with_mem = λ m s. refl;
}

abbrev pub boot : State
boot = record {
  mem = λ a. 0;
  sys = record {
    heap = 2 ^ 35;
    mem_brk = 2 ^ 35;
    mem_max_addr = 2 ^ 35 + max_heap;
    sbrk_calls = 0;
  };
  heap_listp = 0;
  free_listp = 0;
}

abbrev pub cheap : Config
cheap = record { debug_mode = dbg_cheap; random_data = λ i. i % 256; random = λ k. k + 7 }

abbrev pub start : Driver naive
start = record {
  state = boot;
  trace = record {
    ignore_ranges = false;
    num_ids = 2;
    ops = alloc 0 2 ∷ alloc 1 3 ∷ realloc 0 9 ∷ free (some 1) ∷ [];
    blocks = 0 ∷ 0 ∷ [];
    block_sizes = 0 ∷ 0 ∷ [];
    block_rand_base = 0 ∷ 0 ∷ [];
  };
  ranges = [];
  errors = 0;
  randoms = 0;
}

finished : Outcome naive → Driver naive
finished (running d) = d
finished (invalid d) = d
finished aborted = start
finished hanging = start

abbrev last : Driver naive
last = finished (eval_mm_valid naive cheap start)

passes : eval_mm_valid naive cheap start ≡ running last
unfolding finished eval_mm_valid eval_ops eval_op eval_alloc eval_realloc eval_free check_copy
    remember record_range check_index randomize_block and_then malloc_error add_range is_aligned
    is_outside any_hit hits remove_range clear_ranges fill garbled poke reinit_trace mem_heap_lo
    mem_heap_hi mem_reset_brk mem_sbrk Naive.mm_init Naive.malloc Naive.free Naive.realloc
    Naive.align Naive.get_size Naive.put_size get put memcpy
passes = refl

eval_mm_valid-Separated_example : Separated (last.ranges)
eval_mm_valid-Separated_example = eval_mm_valid-Separated naive cheap start last passes

abbrev some_heap : MemSys
some_heap = record {
  heap = 2 ^ 35;
  mem_brk = 2 ^ 35 + 5000;
  mem_max_addr = 2 ^ 35 + max_heap;
  sbrk_calls = 0;
}

some_heap-IsValid : IsValid some_heap
some_heap-IsValid = record {
  low = omega arith;
  high = omega arith;
  mapping = omega arith;
  user_space = omega arith;
}

abbrev held : List Range
held = record { lo = 2 ^ 35 + 216; hi = 2 ^ 35 + 315; index = 0 } ∷ []

add_range_accepts_example :
    (add_range false some_heap held (2 ^ 35 + 112) 300 1
      ≡ added (record { lo = 2 ^ 35 + 112; hi = 2 ^ 35 + 112 + 300 - 1; index = 1 } ∷ held))
    ↔ ((0 < 300)
        × (300 < 2 ^ 31)
        × Proper some_heap (record { lo = 2 ^ 35 + 112; hi = 2 ^ 35 + 112 + 300 - 1; index = 1 })
        × All
            (λ p.
              Disjoint (2 ^ 35 + 112) (2 ^ 35 + 112 + 300 - 1) p
              ⊎ Inside (2 ^ 35 + 112) (2 ^ 35 + 112 + 300 - 1) p)
            held)
add_range_accepts_example =
    add_range_accepts some_heap held (2 ^ 35 + 112) 300 1 some_heap-IsValid (omega arith)
      (omega arith, tt)

garbled-fill_example :
    garbled (λ i. i % 256) 1000 7 3 0 (fill (λ i. i % 256) 1000 7 3 0 (λ a. 0)) ≡ 0
garbled-fill_example =
    garbled-fill (λ i. i % 256) 1000 7 3 (λ a. 0) (fill (λ i. i % 256) 1000 7 3 0 (λ a. 0))
      (λ q a b. refl)
