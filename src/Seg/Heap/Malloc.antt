-- ===== src/Seg/Heap/Malloc.antt =====
-- mm_malloc of mm-segregated list(97:100)/mm.c on the blocks of a heap.
use mar_2015_dynamic_storage.Base.{
  ℕ, ◌+◌, ◌^◌, ◌≤◌, ◌<◌, ◌≡◌, ◌⊎◌, inl, inr, true, false, List, ◌∷◌, ◌++◌, some, arith, refl, sym,
  ap, ◌∙◌, subst, ◌==◌, length,
}
use mar_2015_dynamic_storage.Machine.Memory.{Mem}
use mar_2015_dynamic_storage.Machine.State.{State}
use mar_2015_dynamic_storage.Memlib.{Sbrk}
use mar_2015_dynamic_storage.Blocks.{get_size, hdrp}
use mar_2015_dynamic_storage.Seg.{place}
use mar_2015_dynamic_storage.Seg.Sizes.{adjust, list_entry}
use mar_2015_dynamic_storage.Seg.Classes.{adjust_least, list_entry-lt}
use mar_2015_dynamic_storage.Seg.Fit.{null, find_fit}
use mar_2015_dynamic_storage.Seg.Lists.{Lists}
use mar_2015_dynamic_storage.Seg.Search.{find_fit_lem}
use mar_2015_dynamic_storage.Seg.Package.{mm_malloc, malloc_extend, init_if_needed, walk_fuel}
use mar_2015_dynamic_storage.Seg.Heap.{Block, end_of, FreeAt, IsMember, IsHeap}
use mar_2015_dynamic_storage.Seg.Heap.Words.{Tiled-Sizes}
use mar_2015_dynamic_storage.Seg.Heap.Around.{free_block}
use mar_2015_dynamic_storage.Seg.Heap.Allot.{allot, place-allot}
use mar_2015_dynamic_storage.Seg.Heap.Find.{
  searchable, length-end_of, FreeAt-get_size, FreeAt-split, All-Has,
}

-- no free block is large enough
abbrev pub IsFull : (bp : ℕ) → List Block → (asize : ℕ) → Type 0
IsFull bp bs asize = (x n : ℕ) → FreeAt bp bs x n → n < asize

module _ (heap_listp free_listp : ℕ) (m : Mem) (lists : Lists) (bp : ℕ) (bs : List Block)
    (h : IsHeap heap_listp free_listp m lists bp bs) (fuel asize : ℕ) (f : length bs ≤ fuel) where
  -- `p` is a free block that is large enough
  abbrev IsFit : ℕ → Type 0
  IsFit p = (n : ℕ) × FreeAt bp bs p n × (asize ≤ n)

  find_fit-FreeAt :
      (find_fit heap_listp m asize fuel free_listp ≡ some null) × IsFull bp bs asize
      ⊎ ((p : ℕ) × (find_fit heap_listp m asize fuel free_listp ≡ some p)
          × ((p == null) ≡ false)
          × IsFit p)
  find_fit-FreeAt =
      let s = searchable heap_listp free_listp m lists bp bs h fuel f in
      let (p, found, fit) = find_fit_lem heap_listp free_listp m lists fuel asize s in
      elim fit [
        | inl (e, small) ↦ inl (
          found ∙ ap some e,
          λ x n g.
              let listed = h.complete x n g in
              let less =
                All-Has (λ y. get_size m (hdrp y) < asize) x (lists (list_entry n))
                  (small (list_entry n) (list_entry-lt n)) listed in
              omega (arith, less, FreeAt-get_size m bp true bs x n h.tiled g),
        )
        | inr (ne, large, (i, k, low, listed)) ↦
            let (n, g, c) = All-Has (IsMember bp bs i) p (lists i) (h.members i k) listed in
            inr (
              p,
              found,
              ground (arith, ne),
              (n, g, omega (arith, large, FreeAt-get_size m bp true bs p n h.tiled g)),
            )
      ]

-- A request for `size` bytes is answered from the free block of `csize` bytes between `ls` and `rs`.
abbrev pub Answered :
    Sbrk → (size : ℕ) → State → (bp : ℕ) (bs ls rs : List Block) (csize : ℕ) → Type 0
Answered sbrk size s bp bs ls rs csize =
    (bs ≡ ls ++ free_block csize ∷ rs)
    × (adjust size ≤ csize)
    × ((m : Mem) × (m ≡ place s.heap_listp s.free_listp (end_of bp ls) (adjust size) s.mem)
        × (mm_malloc sbrk size s ≡ some (end_of bp ls, record s { mem = m }))
        × ((after : Lists) × IsHeap s.heap_listp s.free_listp m after bp
              (ls ++ (allot (adjust size) csize ++ rs))))

module _ (sbrk : Sbrk) (size : ℕ) (s : State) (lists : Lists) (bp : ℕ) (bs : List Block)
    (h : IsHeap s.heap_listp s.free_listp s.mem lists bp bs) (some_bytes : 0 < size)
    (no_wrap : size + 11 < 2 ^ 64) (start : s.sys.heap ≤ bp)
    (end : end_of bp bs ≤ s.sys.mem_brk) where
  fuel_enough : length bs ≤ walk_fuel s
  fuel_enough =
      omega (arith, length-end_of bp bs (Tiled-Sizes s.mem bp true bs h.tiled), start, end)

  initialised : init_if_needed sbrk s ≡ s
  unfolding init_if_needed
  initialised = let there : (s.heap_listp == 0) ≡ false = ground (arith, h.room) in rw there refl

  -- the state after the block `p` is given out
  abbrev given : ℕ → State → State
  given p t = record t { mem = place t.heap_listp t.free_listp p (adjust size) t.mem }

  mm_malloc-given :
      (p : ℕ)
      → find_fit s.heap_listp s.mem (adjust size) (walk_fuel s) s.free_listp ≡ some p
      → (p == null) ≡ false
      → mm_malloc sbrk size s ≡ some (p, given p s)
  unfolding mm_malloc
  mm_malloc-given p found there =
      let asked : (size == 0) ≡ false = ground arith in
      rw (initialised, asked, found, there) (ap (λ t. some (p, given p t)) initialised)

  -- If a heap holds the blocks `bs` from `bp` on, between the start of the heap and the break, and a request
  -- of some bytes does not wrap: mm_malloc ends. If no free block has the adjusted size, it extends the
  -- heap; otherwise it returns a free block that has, and the heap then holds that block's parts in its
  -- place, with all else as before.
  pub mm_malloc-heap :
      IsFull bp bs (adjust size)
        × (mm_malloc sbrk size s ≡ some (malloc_extend sbrk (adjust size) s))
      ⊎ ((ls : List Block) × (rs : List Block) × (csize : ℕ) × Answered sbrk size s bp bs ls rs
            csize)
  unfolding mm_malloc
  mm_malloc-heap =
      let asked : (size == 0) ≡ false = ground arith in
      elim (find_fit-FreeAt s.heap_listp s.free_listp s.mem lists bp bs h (walk_fuel s)
        (adjust size) fuel_enough) [
          | inl (found, full) ↦ inl (
            full,
            rw (initialised, asked, found)
                (ap (λ t. some (malloc_extend sbrk (adjust size) t)) initialised),
          )
          | inr (p, found, there, (n, g, c)) ↦
              let (ls, rs, e, at) = FreeAt-split bp bs p n g in
              let a = adjust_least size no_wrap in
              let placed =
                place-allot s.heap_listp s.free_listp s.mem lists bp ls rs (adjust size) n
                  (subst (λ t. IsHeap s.heap_listp s.free_listp s.mem lists bp t) e h) a.0 a.1 c in
              inr (
                ls,
                rs,
                n,
                (
                  e,
                  c,
                  (
                    place s.heap_listp s.free_listp (end_of bp ls) (adjust size) s.mem,
                    refl,
                    mm_malloc-given p found there ∙ ap (λ x. some (x, given x s)) (sym at),
                    placed,
                  ),
                ),
              )
        ]
