-- ===== src/Memlib.antt =====
-- malloclab-handout/memlib.c: the simulated break. The statics of the file are a record. What the
-- operating system answers to the k-th call of `sbrk` is a parameter.
pub mod Bounds
mod Tests
use mar_2015_dynamic_storage.Base.{ℕ, ◌+◌, ◌-◌, ◌*◌, ◌^◌, Bool, ◌||◌, not, ltb, leb, if◌then◌else◌}

-- the statics of memlib.c, and how often `sbrk` has been called
pub record MemSys : Type 0 where
  pub heap : ℕ
  pub mem_brk : ℕ
  pub mem_max_addr : ℕ
  pub sbrk_calls : ℕ

-- whether the k-th call `sbrk(incr)` succeeds
abbrev pub Sbrk : Type 0
Sbrk = ℕ → ℕ → Bool

-- MAX_HEAP of config.h
abbrev pub max_heap : ℕ
max_heap = 100 * 2 ^ 20

-- `(void *)-1`
abbrev pub sbrk_failed : ℕ
sbrk_failed = 2 ^ 64 - 1

-- `mapped` is what `mmap` returns
unfoldable pub mem_init : ℕ → MemSys → MemSys
mem_init mapped s = record s { heap = mapped; mem_max_addr = mapped + max_heap; mem_brk = mapped }

unfoldable pub mem_reset_brk : MemSys → MemSys
mem_reset_brk s = record s { mem_brk = s.heap }

-- `incr` is the bit pattern of an `int`, negative from 2 ^ 31 on.
unfoldable pub mem_sbrk : Sbrk → ℕ → MemSys → ℕ × MemSys
mem_sbrk sbrk incr s =
    if leb (2 ^ 31) incr || ltb s.mem_max_addr (s.mem_brk + incr)
    then (sbrk_failed, s)
    else if not (sbrk s.sbrk_calls incr)
    then (sbrk_failed, record s { sbrk_calls = s.sbrk_calls + 1 })
    else (s.mem_brk, record s { mem_brk = s.mem_brk + incr; sbrk_calls = s.sbrk_calls + 1 })

unfoldable pub mem_heap_lo : MemSys → ℕ
mem_heap_lo s = s.heap

-- The pointer is one below the break, also when the heap is empty.
unfoldable pub mem_heap_hi : MemSys → ℕ
mem_heap_hi s = s.mem_brk - 1

unfoldable pub mem_heapsize : MemSys → ℕ
mem_heapsize s = s.mem_brk - s.heap
