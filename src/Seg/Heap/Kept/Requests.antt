-- ===== src/Seg/Heap/Kept/Requests.antt =====
-- What the payloads of used blocks hold after a call of mm_malloc or mm_free.
use mar_2015_dynamic_storage.Base.{
  ℕ, ◌+◌, ◌-◌, ◌/◌, ◌%◌, ◌^◌, ◌≤◌, ◌<◌, ◌≡◌, inl, inr, true, List, [], ◌∷◌, ◌++◌, Option, none,
  some, arith, refl, sym, ap, ◌∙◌, subst,
}
use mar_2015_dynamic_storage.Machine.Memory.{Mem, get}
use mar_2015_dynamic_storage.Machine.State.{State}
use mar_2015_dynamic_storage.Machine.Word.{bit1}
use mar_2015_dynamic_storage.Memlib.{Sbrk}
use mar_2015_dynamic_storage.Seg.{}
use mar_2015_dynamic_storage.Seg.Sizes.{adjust, extend_size}
use mar_2015_dynamic_storage.Seg.Classes.{adjust_least, extend_bytes}
use mar_2015_dynamic_storage.Seg.Lists.{Lists}
use mar_2015_dynamic_storage.Seg.Package.{
  mm_malloc, mm_free, malloc_extend, extend_heap, even_bytes, new_block, release,
}
use mar_2015_dynamic_storage.Seg.Heap.{Block, IsBlockSize, end_of, IsHeap}
use mar_2015_dynamic_storage.Seg.Heap.Words.{le-end_of}
use mar_2015_dynamic_storage.Seg.Heap.Around.{free_block, used_block}
use mar_2015_dynamic_storage.Seg.Heap.Release.{release-IsLaidOut}
use mar_2015_dynamic_storage.Seg.Heap.Extend.{get-new_block, new_block-IsLaidOut}
use mar_2015_dynamic_storage.Seg.Heap.Coalesce.{first_used}
use mar_2015_dynamic_storage.Seg.Heap.Freed.{freed, mm_free-freed}
use mar_2015_dynamic_storage.Seg.Heap.Malloc.{mm_malloc-heap}
use mar_2015_dynamic_storage.Seg.Heap.Grown.{
  CanGrow, even_bytes_mod, coalesced, extend_heap-coalesced, extended, malloc_extend-placed,
}
use mar_2015_dynamic_storage.Seg.Heap.Served.{adjust-lt}
use mar_2015_dynamic_storage.Seg.Heap.Used.{InPayload, InPayload-left, InPayload-bounds}
use mar_2015_dynamic_storage.Seg.Heap.Kept.{
  get-place_payload, get-coalesce_payload, get-release_payload, InPayload-join_free,
}

-- If a heap holds the blocks `ls`, a used block of `n` bytes and `rs`, and no free block follows:
-- mm_free of that block changes no word in the payload of another used block.
pub mm_free-payload :
    (sbrk : Sbrk) (s : State) (lists : Lists) (bp : ℕ) (ls rs : List Block) (n : ℕ)
    → IsHeap s.heap_listp s.free_listp s.mem lists bp (ls ++ used_block n ∷ rs)
    → first_used rs ≡ true
    → (w : ℕ) → InPayload bp (ls ++ free_block n ∷ rs) w
    → get (mm_free sbrk (end_of bp ls) s).mem w ≡ get s.mem w
unfolding freed
mm_free-payload sbrk s lists bp ls rs n h u w v =
    ap (λ t. get t.mem w) (mm_free-freed sbrk s lists bp ls rs n h)
    ∙ get-coalesce_payload s.heap_listp s.free_listp (release (end_of bp ls) n s.mem) lists bp ls rs
        n (release-IsLaidOut s.heap_listp s.free_listp s.mem lists bp ls rs n h) u w v
    ∙ get-release_payload s.heap_listp s.free_listp s.mem lists bp ls rs n h w v

module _ (sbrk : Sbrk) (s : State) (lists : Lists) (bp : ℕ) (bs : List Block)
    (h : IsHeap s.heap_listp s.free_listp s.mem lists bp bs) where
  extend_heap-payload :
      (words : ℕ)
      → 16 ≤ even_bytes words
      → CanGrow sbrk s bp bs (even_bytes words)
      → (w : ℕ) → InPayload bp bs w
      → get (extend_heap sbrk words s).1.mem w ≡ get s.mem w
  unfolding coalesced first_used
  extend_heap-payload words least c w u =
      let n = even_bytes words in
      let z : IsBlockSize n = (even_bytes_mod words, least, omega (arith, c.positive_int)) in
      let low : 8 ≤ end_of bp bs = omega (arith, le-end_of bp bs, h.aligned, h.room, h.above) in
      let laid =
        new_block-IsLaidOut s.heap_listp s.free_listp s.mem lists bp bs h n z
          (omega (arith, c.near, c.at_break))
          (ap (λ t. bit1 (get s.mem (t + n - 4))) c.at_break ∙ c.clean) in
      ap (λ t. get t.1.mem w)
        (extend_heap-coalesced sbrk s lists bp bs h words least c
          ∙ ap (coalesced sbrk s lists bp bs h words least c) (sym c.at_break))
      ∙ get-coalesce_payload s.heap_listp s.free_listp (new_block (end_of bp bs) n s.mem) lists bp
          bs [] n laid refl w (InPayload-left bp bs (free_block n ∷ []) w u)
      ∙ get-new_block s.mem (end_of bp bs) n (z.0, z.2) z.1 low w (InPayload-bounds bp bs w u).1

  malloc_extend-payload :
      (asize : ℕ)
      → asize % 8 ≡ 0
      → 16 ≤ asize
      → asize < 2 ^ 64
      → CanGrow sbrk s bp bs (even_bytes (extend_size asize / 4))
      → (w : ℕ) → InPayload bp bs w
      → get (malloc_extend sbrk asize s).1.mem w ≡ get s.mem w
  malloc_extend-payload asize e least bound c w u =
      let more = even_bytes (extend_size asize / 4) in
      let large = extend_bytes asize e bound in
      let (front, k, m, lists₁, (row, fit, x, h₁)) =
        extended sbrk s lists bp bs h asize e least bound c in
      let inside : InPayload bp (front ++ free_block k ∷ []) w =
        subst (λ t. InPayload bp t w) row
          (InPayload-join_free bp bs more [] w (InPayload-left bp bs (free_block more ∷ []) w u)) in
      ap (λ t. get t.1.mem w)
        (malloc_extend-placed sbrk s lists bp bs h asize e least bound c front m x)
      ∙ get-place_payload s.heap_listp s.free_listp m lists₁ bp front [] asize k h₁ e least
          (omega (arith, fit, large)) w inside
      ∙ ap (λ t. get t.1.mem w) (sym x)
      ∙ extend_heap-payload (extend_size asize / 4) (omega (arith, large)) c w u

  -- the memory of a result
  result_mem : Option (ℕ × State) → Mem
  result_mem none = s.mem
  result_mem (some r) = r.1.mem

  -- If the heap holds the blocks `bs` from `bp` on, not below the start of the simulated heap, a
  -- request of some bytes does not wrap, the break stands where the blocks end, the system grants
  -- what the heap would be extended by and the limit of the heap allows it, it is below 2 ^ 31 bytes
  -- and in reach of 64-bit addresses and of the offsets, and the last word of those bytes has its
  -- second bit clear (as fresh memory has; memory used before mem_reset_brk may not): mm_malloc
  -- changes no word in the payload of a used block.
  pub mm_malloc-payload :
      (size : ℕ)
      → 0 < size
      → size + 11 < 2 ^ 64
      → s.sys.heap ≤ bp
      → CanGrow sbrk s bp bs (even_bytes (extend_size (adjust size) / 4))
      → (q : ℕ) (t : State) → mm_malloc sbrk size s ≡ some (q, t)
      → (w : ℕ) → InPayload bp bs w
      → get t.mem w ≡ get s.mem w
  unfolding result_mem
  mm_malloc-payload size some_bytes no_wrap start c q t e w u =
      let (m8, m16, large, least) = adjust_least size no_wrap in
      elim (mm_malloc-heap sbrk size s lists bp bs h some_bytes no_wrap start
        (omega (arith, c.at_break))) [
          | inl (full, r) ↦
              ap (λ x. get (result_mem x) w) (sym e ∙ r)
              ∙ malloc_extend-payload (adjust size) m8 m16 (adjust-lt size no_wrap) c w u
          | inr (ls, rs, k, (row, fit, (m, at, r, g))) ↦
              ap (λ x. get (result_mem x) w) (sym e ∙ r)
              ∙ ap (λ x. get x w) at
              ∙ get-place_payload s.heap_listp s.free_listp s.mem lists bp ls rs (adjust size) k
                  (subst (λ x. IsHeap s.heap_listp s.free_listp s.mem lists bp x) row h) m8 m16 fit
                  w (subst (λ x. InPayload bp x w) row u)
        ]
