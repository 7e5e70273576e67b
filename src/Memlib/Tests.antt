-- ===== src/Memlib/Tests.antt =====
-- The simulated break at a concrete heap.
use mar_2015_dynamic_storage.Base.{◌+◌, ◌^◌, true, arith}
use mar_2015_dynamic_storage.Memlib.{MemSys, Sbrk, max_heap, mem_sbrk}
use mar_2015_dynamic_storage.Memlib.Bounds.{IsValid, SbrkResult, mem_sbrk_lem}

abbrev willing : Sbrk
willing k incr = true

abbrev half_full : MemSys
half_full = record {
  heap = 2 ^ 35;
  mem_brk = 2 ^ 35 + 5000;
  mem_max_addr = 2 ^ 35 + max_heap;
  sbrk_calls = 3;
}

half_full-IsValid : IsValid half_full
half_full-IsValid = record {
  low = omega arith;
  high = omega arith;
  mapping = omega arith;
  user_space = omega arith;
}

mem_sbrk_lem_example : SbrkResult willing 224 half_full (mem_sbrk willing 224 half_full)
mem_sbrk_lem_example = mem_sbrk_lem willing 224 {s = half_full} half_full-IsValid
