-- ===== src/Seg/Heap/Refused.antt =====
-- A request to mm_malloc of mm-segregated list(97:100)/mm.c that no free block fits, while the break does not move.
use mar_2015_dynamic_storage.Base.{
  ℕ, ◌+◌, ◌/◌, ◌%◌, ◌^◌, ◌≤◌, ◌<◌, ◌≡◌, ◌⊎◌, inl, inr, false, List, ◌∷◌, some, arith, refl, sym,
  ◌∙◌, leb, ltb, ◌||◌, subst, Bool-cases,
}
use mar_2015_dynamic_storage.Machine.State.{State}
use mar_2015_dynamic_storage.Memlib.{Sbrk, MemSys, mem_sbrk, sbrk_failed}
use mar_2015_dynamic_storage.Seg.Sizes.{adjust, extend_size}
use mar_2015_dynamic_storage.Seg.Lists.{Lists}
use mar_2015_dynamic_storage.Seg.Fit.{null}
use mar_2015_dynamic_storage.Seg.Package.{mm_malloc, malloc_extend, extend_heap, even_bytes}
use mar_2015_dynamic_storage.Seg.Heap.{Block, end_of, FreeAt, IsHeap}
use mar_2015_dynamic_storage.Seg.Heap.Free.{FreeAt-right}
use mar_2015_dynamic_storage.Seg.Heap.Around.{free_block}
use mar_2015_dynamic_storage.Seg.Heap.Malloc.{IsFull, mm_malloc-heap}

-- mem_sbrk does not move the break by `n` bytes.
abbrev pub IsRefused : Sbrk → (n : ℕ) → MemSys → Type 0
IsRefused sbrk n sys =
    (2 ^ 31 ≤ n) ⊎ (sys.mem_max_addr < sys.mem_brk + n) ⊎ (sbrk sys.sbrk_calls n ≡ false)

mem_sbrk-IsRefused :
    (sbrk : Sbrk) (n : ℕ) (sys : MemSys)
    → IsRefused sbrk n sys
    → (calls : ℕ) × (mem_sbrk sbrk n sys ≡ (sbrk_failed, record sys { sbrk_calls = calls }))
unfolding mem_sbrk
mem_sbrk-IsRefused sbrk n sys h =
    elim (Bool-cases (leb (2 ^ 31) n || ltb sys.mem_max_addr (sys.mem_brk + n))) [
      | inl e ↦ (sys.sbrk_calls, rw e refl)
      | inr e ↦
          let system : sbrk sys.sbrk_calls n ≡ false = ground (arith, e, h) in
          (sys.sbrk_calls + 1, rw (e, system) refl)
    ]

-- If a heap holds the blocks `bs` between the start of the simulated heap and the break, no free one of them has the
-- adjusted size of a request of some bytes that does not wrap, and the break cannot move by what extend_heap asks for:
-- mm_malloc returns NULL, and of the state nothing changes but the count of the calls of sbrk.
pub mm_malloc-IsRefused :
    (sbrk : Sbrk) (size : ℕ) (s : State) (lists : Lists) (bp : ℕ) (bs : List Block)
    → IsHeap s.heap_listp s.free_listp s.mem lists bp bs
    → 0 < size
    → size + 11 < 2 ^ 64
    → s.sys.heap ≤ bp
    → end_of bp bs ≤ s.sys.mem_brk
    → IsFull bp bs (adjust size)
    → IsRefused sbrk (even_bytes (extend_size (adjust size) / 4) % 2 ^ 32) s.sys
    → (calls : ℕ) × (mm_malloc sbrk size s
        ≡ some (null, record s { sys = record s.sys { sbrk_calls = calls } }))
unfolding malloc_extend extend_heap
mm_malloc-IsRefused sbrk size s lists bp bs h some_bytes no_wrap start end full refused =
    let (calls, r) =
      mem_sbrk-IsRefused sbrk (even_bytes (extend_size (adjust size) / 4) % 2 ^ 32) s.sys refused in
    elim (mm_malloc-heap sbrk size s lists bp bs h some_bytes no_wrap start end) [
      | inl (f, e) ↦ (calls, e ∙ rw r refl)
      | inr (ls, rs, k, (row, fit, a)) ↦
          let fits = full (end_of bp ls) k (
            subst (λ t. FreeAt bp t (end_of bp ls) k) (sym row)
              (FreeAt-right bp ls (free_block k ∷ rs) (end_of bp ls) k (inl (refl, refl, refl)))) in
          absurd (omega (arith, fits, fit))
    ]
