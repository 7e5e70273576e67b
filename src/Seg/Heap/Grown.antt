-- ===== src/Seg/Heap/Grown.antt =====
-- A request that no free block fits, on the blocks of a heap: mm_malloc extends the heap and places the
-- request in the new block.
use mar_2015_dynamic_storage.Base.{
  ℕ, ◌+◌, ◌-◌, ◌/◌, ◌%◌, ◌^◌, ◌≤◌, ◌<◌, ◌≡◌, inl, inr, true, false, List, [], ◌∷◌, ◌++◌, arith,
  refl, sym, ap, ◌∙◌, subst, ◌==◌, leb, ltb,
}
use mar_2015_dynamic_storage.Machine.Memory.{Mem, get}
use mar_2015_dynamic_storage.Machine.State.{State}
use mar_2015_dynamic_storage.Machine.Word.{bit1}
use mar_2015_dynamic_storage.Memlib.{Sbrk, MemSys, mem_sbrk, sbrk_failed}
use mar_2015_dynamic_storage.Seg.{place, coalesce}
use mar_2015_dynamic_storage.Seg.Fit.{null}
use mar_2015_dynamic_storage.Seg.Sizes.{extend_size}
use mar_2015_dynamic_storage.Seg.Classes.{extend_bytes}
use mar_2015_dynamic_storage.Seg.Lists.{Lists}
use mar_2015_dynamic_storage.Seg.Package.{new_block, extend_heap, even_bytes, malloc_extend}
use mar_2015_dynamic_storage.Seg.Heap.{Block, IsBlockSize, end_of, IsHeap}
use mar_2015_dynamic_storage.Seg.Heap.Words.{le-end_of}
use mar_2015_dynamic_storage.Seg.Heap.Around.{free_block}
use mar_2015_dynamic_storage.Seg.Heap.Coalesce.{first_used}
use mar_2015_dynamic_storage.Seg.Heap.Allot.{allot, place-allot}
use mar_2015_dynamic_storage.Seg.Heap.Freed.{join_free, join-cases, join_start, coalesce-join_free}
use mar_2015_dynamic_storage.Seg.Heap.Extend.{new_block-IsLaidOut}

-- The heap ends at the break, `n` more bytes are granted and lie in the reach of the offsets, and the
-- last of their words has its second bit clear.
pub record CanGrow (sbrk : Sbrk) (s : State) (bp : ℕ) (bs : List Block) (n : ℕ) : Type 0 where
  pub at_break : end_of bp bs ≡ s.sys.mem_brk
  pub under_limit : s.sys.mem_brk + n ≤ s.sys.mem_max_addr
  pub granted : sbrk s.sys.sbrk_calls n ≡ true
  pub positive_int : n < 2 ^ 31
  pub address : s.sys.mem_brk + n < 2 ^ 64
  pub near : s.sys.mem_brk + n < s.heap_listp + 2 ^ 32
  pub clean : bit1 (get s.mem (s.sys.mem_brk + n - 4)) ≡ 0

-- the statics of memlib.c after a successful call
abbrev pub grown : ℕ → MemSys → MemSys
grown n sys = record sys { mem_brk = sys.mem_brk + n; sbrk_calls = sys.sbrk_calls + 1 }

pub even_bytes_mod : (words : ℕ) → even_bytes words % 8 ≡ 0
unfolding even_bytes
even_bytes_mod words = ground arith

module _ (sbrk : Sbrk) (s : State) (lists : Lists) (bp : ℕ) (bs : List Block)
    (h : IsHeap s.heap_listp s.free_listp s.mem lists bp bs) (words : ℕ)
    (least : 16 ≤ even_bytes words) (c : CanGrow sbrk s bp bs (even_bytes words)) where
  abbrev pub n : ℕ
  n = even_bytes words

  mem_sbrk-grown : mem_sbrk sbrk (n % 2 ^ 32) s.sys ≡ (s.sys.mem_brk, grown n s.sys)
  unfolding mem_sbrk
  mem_sbrk-grown =
      let same : n % 2 ^ 32 ≡ n = omega (arith, c.positive_int) in
      let small : leb (2 ^ 31) n ≡ false = ground (arith, c.positive_int) in
      let fits : ltb s.sys.mem_max_addr (s.sys.mem_brk + n) ≡ false =
        ground (arith, c.under_limit) in
      rw (same, small, fits, c.granted) refl

  -- the state after extend_heap
  unfoldable pub coalesced : ℕ → ℕ × State
  coalesced brk =
      let (bp', m) = coalesce s.heap_listp s.free_listp brk (new_block brk n s.mem) in
      (bp', record s { mem = m; sys = grown n s.sys })

  pub extend_heap-coalesced : extend_heap sbrk words s ≡ coalesced s.sys.mem_brk
  unfolding extend_heap coalesced
  extend_heap-coalesced =
      let there : (s.sys.mem_brk == sbrk_failed) ≡ false = ground (arith, c.address, least) in
      rw (mem_sbrk-grown, there) refl

  -- If a heap holds the blocks `bs` and the break can move by the bytes of `words`, which are at least 16: extend_heap
  -- returns the new block, joined with the last one if that is free, and the heap then holds it after
  -- the others.
  pub extend_heap-heap :
      (m : Mem) × (extend_heap sbrk words s
        ≡ (join_start bp bs, record s { mem = m; sys = grown n s.sys }))
      × ((after : Lists) × IsHeap s.heap_listp s.free_listp m after bp (join_free bs n []))
  unfolding coalesced first_used
  extend_heap-heap =
      let z : IsBlockSize n = (even_bytes_mod words, least, omega (arith, c.positive_int)) in
      let laid =
        new_block-IsLaidOut s.heap_listp s.free_listp s.mem lists bp bs h n z
          (omega (arith, c.near, c.at_break))
          (ap (λ t. bit1 (get s.mem (t + n - 4))) c.at_break ∙ c.clean) in
      let joined =
        coalesce-join_free s.heap_listp s.free_listp (new_block (end_of bp bs) n s.mem) lists bp bs
          [] n laid refl in
      let grown_state : State = (coalesced (end_of bp bs)).1 in
      (
        grown_state.mem,
        extend_heap-coalesced ∙ ap coalesced (sym c.at_break) ∙ ap (λ t. (t, grown_state)) joined.0,
        joined.1,
      )

module _ (sbrk : Sbrk) (s : State) (lists : Lists) (bp : ℕ) (bs : List Block)
    (h : IsHeap s.heap_listp s.free_listp s.mem lists bp bs) (asize : ℕ) (e : asize % 8 ≡ 0)
    (least : 16 ≤ asize) (bound : asize < 2 ^ 64)
    (c : CanGrow sbrk s bp bs (even_bytes (extend_size asize / 4))) where
  abbrev more : ℕ
  more = even_bytes (extend_size asize / 4)

  -- the extended heap, with its last block `front ++ free_block k ∷ []`
  abbrev pub Extended : (front : List Block) (k : ℕ) (m : Mem) → Lists → Type 0
  Extended front k m after =
      (join_free bs more [] ≡ front ++ free_block k ∷ [])
      × (more ≤ k)
      × (extend_heap sbrk (extend_size asize / 4) s
          ≡ (end_of bp front, record s { mem = m; sys = grown more s.sys }))
      × IsHeap s.heap_listp s.free_listp m after bp (front ++ free_block k ∷ [])

  pub extended :
      (front : List Block) × (k : ℕ) × (m : Mem) × (after : Lists) × Extended front k m after
  extended =
      let (m, x, (after, h₁)) =
        extend_heap-heap sbrk s lists bp bs h (extend_size asize / 4)
          (omega (arith, extend_bytes asize e bound)) c in
      let state : ℕ → ℕ × State = λ t. (t, record s { mem = m; sys = grown more s.sys }) in
      let on_row = λ (row : List Block). IsHeap s.heap_listp s.free_listp m after bp row in
      elim (join-cases bp bs more []) [
        | inl (p, row, at) ↦
            (bs, more, m, after, (row, omega arith, x ∙ ap state at, subst on_row row h₁))
        | inr (front, a, l, row, at) ↦
            (front, more + a, m, after, (row, omega arith, x ∙ ap state at, subst on_row row h₁))
      ]

  pub malloc_extend-placed :
      (front : List Block) (m : Mem)
      → extend_heap sbrk (extend_size asize / 4) s
        ≡ (end_of bp front, record s { mem = m; sys = grown more s.sys })
      → malloc_extend sbrk asize s ≡ (
        end_of bp front,
        record s {
          mem = place s.heap_listp s.free_listp (end_of bp front) asize m;
          sys = grown more s.sys;
        },
      )
  unfolding malloc_extend
  malloc_extend-placed front m x =
      let there : (end_of bp front == null) ≡ false = ground (arith, h.above, le-end_of bp front) in
      rw (x, there) refl

  -- If a heap holds the blocks `bs`, `asize` is a multiple of 8 from 16 on and below 2 ^ 64, the
  -- break stands where the blocks end, the system grants what the heap would be extended by and the
  -- limit of the heap allows it, it is below 2 ^ 31 bytes and in reach of 64-bit addresses and of the
  -- offsets, and the last word of those bytes has its second bit clear (as fresh memory has; memory
  -- used before mem_reset_brk may not): malloc_extend moves the break by it, joins the new block with
  -- the last one of `bs` if that is free, and returns the resulting block, which holds `asize` bytes.
  -- The heap then holds the parts of this block, split if enough is left, behind the others.
  pub malloc_extend-heap :
      (front : List Block) × (k : ℕ) × (m : Mem) × (after : Lists) × (join_free bs more []
        ≡ front ++ free_block k ∷ [])
      × (asize ≤ k)
      × (malloc_extend sbrk asize s
          ≡ (end_of bp front, record s { mem = m; sys = grown more s.sys }))
      × IsHeap s.heap_listp s.free_listp m after bp (front ++ (allot asize k ++ []))
  malloc_extend-heap =
      let (front, k, m, lists₁, (row, fit, x, h₁)) = extended in
      let large : asize ≤ k = omega (arith, fit, extend_bytes asize e bound) in
      let (after, h₂) =
        place-allot s.heap_listp s.free_listp m lists₁ bp front [] asize k h₁ e least large in
      (front, k, _, after, row, large, malloc_extend-placed front m x, h₂)
