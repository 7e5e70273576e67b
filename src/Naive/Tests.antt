-- ===== src/Naive/Tests.antt =====
-- A request of the naive allocator on an empty heap.
use mar_2015_dynamic_storage.Base.{◌+◌, ◌^◌, ◌≤◌, ◌≡◌, ◌≢◌, ◌%◌, true, arith}
use mar_2015_dynamic_storage.Machine.Memory.{}
use mar_2015_dynamic_storage.Machine.State.{State}
use mar_2015_dynamic_storage.Memlib.{Sbrk, mem_sbrk, max_heap}
use mar_2015_dynamic_storage.Memlib.Bounds.{IsValid}
use mar_2015_dynamic_storage.Naive.{align, get_size, malloc}
use mar_2015_dynamic_storage.Naive.Laws.{malloc_lem}

abbrev willing : Sbrk
willing k incr = true

abbrev boot : State
boot = record {
  mem = λ a. 0;
  sys = record {
    heap = 2 ^ 35;
    mem_brk = 2 ^ 35;
    mem_max_addr = 2 ^ 35 + max_heap;
    sbrk_calls = 0;
  };
  heap_listp = 0;
  free_listp = 0;
}

boot-IsValid : IsValid (boot.sys)
boot-IsValid = record {
  low = omega arith;
  high = omega arith;
  mapping = omega arith;
  user_space = omega arith;
}

granted : (malloc willing 100 boot).0 ≢ 0
unfolding malloc align mem_sbrk
granted = λ e. omega (arith, e)

malloc_lem_example :
    let (p, s') = malloc willing 100 boot in
    (p ≡ 2 ^ 35 + 8)
    × (p + 100 ≤ s'.sys.mem_brk)
    × (s'.sys.mem_brk % 8 ≡ 2 ^ 35 % 8)
    × IsValid s'.sys
    × (get_size s'.mem p ≡ 100)
malloc_lem_example = malloc_lem willing 100 boot boot-IsValid (omega arith) granted
