-- ===== src/Memlib/Bounds.antt =====
-- What the simulated break promises its callers.
use mar_2015_dynamic_storage.Base.{ℕ, ◌+◌, ◌≡◌, ◌≤◌, ◌<◌, ◌⊎◌, true, false, arith, ◌^◌}
use mar_2015_dynamic_storage.Memlib.{
  MemSys, Sbrk, max_heap, sbrk_failed, mem_init, mem_reset_brk, mem_sbrk, mem_heapsize,
}

-- the heap lies in the mapping, below the address that stands for failure
pub record IsValid (s : MemSys) : Type 0 where
  pub low : s.heap ≤ s.mem_brk
  pub high : s.mem_brk ≤ s.mem_max_addr
  pub mapping : s.mem_max_addr ≡ s.heap + max_heap
  pub user_space : s.mem_max_addr < 2 ^ 47

-- what one call of `mem_sbrk` may do
abbrev pub SbrkResult : Sbrk → ℕ → MemSys → ℕ × MemSys → Type 0
SbrkResult sbrk incr s (p, s') =
    IsValid s'
    × (s'.heap ≡ s.heap)
    × ((p ≡ s.mem_brk)
          × (s'.mem_brk ≡ s.mem_brk + incr)
          × (incr < 2 ^ 31)
          × (s.mem_brk + incr ≤ s.mem_max_addr)
          × (sbrk s.sbrk_calls incr ≡ true)
        ⊎ (p ≡ sbrk_failed)
          × (s'.mem_brk ≡ s.mem_brk)
          × ((2 ^ 31 ≤ incr)
              ⊎ (s.mem_max_addr < s.mem_brk + incr)
              ⊎ (sbrk s.sbrk_calls incr ≡ false)))

-- On a valid system `mem_sbrk` keeps it valid, with its start. Either it returns the old break and moves the
-- break up by `incr`, when `incr` is not negative, the new break stays in the mapping and `sbrk`
-- succeeds; or it returns (void *)-1 and leaves the break, when one of these fails.
pub mem_sbrk_lem :
    (sbrk : Sbrk) (incr : ℕ) {s : MemSys}
    → IsValid s
    → SbrkResult sbrk incr s (mem_sbrk sbrk incr s)
unfolding mem_sbrk
mem_sbrk_lem sbrk incr v = ground arith

pub mem_init-IsValid :
    (mapped : ℕ) (s : MemSys)
    → mapped + max_heap < 2 ^ 47
    → IsValid (mem_init mapped s) × (mem_heapsize (mem_init mapped s) ≡ 0)
unfolding mem_init mem_heapsize
mem_init-IsValid mapped s h = ground arith

pub mem_reset_brk-IsValid :
    {s : MemSys} → IsValid s → IsValid (mem_reset_brk s) × (mem_heapsize (mem_reset_brk s) ≡ 0)
unfolding mem_reset_brk mem_heapsize
mem_reset_brk-IsValid v = ground arith
