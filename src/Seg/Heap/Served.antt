-- ===== src/Seg/Heap/Served.antt =====
-- A request to mm_malloc of mm-segregated list(97:100)/mm.c, whether or not a free block fits.
use mar_2015_dynamic_storage.Base.{
  ℕ, ◌+◌, ◌-◌, ◌/◌, ◌%◌, ◌^◌, ◌≤◌, ◌<◌, ◌≡◌, inl, inr, true, List, [], ◌∷◌, ◌++◌, some, arith, refl,
  ap, ◌∙◌, subst, leb, Bool-cases,
}
use mar_2015_dynamic_storage.Machine.Memory.{}
use mar_2015_dynamic_storage.Machine.State.{State}
use mar_2015_dynamic_storage.Memlib.{Sbrk}
use mar_2015_dynamic_storage.Seg.Sizes.{adjust, extend_size}
use mar_2015_dynamic_storage.Seg.Classes.{adjust_least}
use mar_2015_dynamic_storage.Seg.Lists.{Lists}
use mar_2015_dynamic_storage.Seg.Package.{mm_malloc, even_bytes}
use mar_2015_dynamic_storage.Seg.Heap.{Block, end_of, IsHeap}
use mar_2015_dynamic_storage.Seg.Heap.Words.{Sizes, Tiled-Sizes}
use mar_2015_dynamic_storage.Seg.Heap.Around.{free_block, used_block}
use mar_2015_dynamic_storage.Seg.Heap.Allot.{allot}
use mar_2015_dynamic_storage.Seg.Heap.Malloc.{mm_malloc-heap}
use mar_2015_dynamic_storage.Seg.Heap.Grown.{CanGrow, malloc_extend-heap}

-- The first part of a block is used and as large as asked for.
pub allot-used_block :
    (asize csize : ℕ) (rs : List Block)
    → asize ≤ csize
    → (n : ℕ) × (others : List Block) × (allot asize csize ++ rs ≡ used_block n ∷ others)
      × (asize ≤ n)
unfolding allot
allot-used_block asize csize rs h = elim (Bool-cases (leb (asize + 16) csize)) [
  | inl e ↦ (asize, free_block (csize - asize) ∷ rs, rw e refl, omega arith)
  | inr e ↦ (csize, rs, rw e refl, h)
]

end_of_mod : (bp : ℕ) (ls rs : List Block) → bp % 8 ≡ 0 → Sizes (ls ++ rs) → end_of bp ls % 8 ≡ 0
unfolding end_of
end_of_mod bp [] rs h z = h
end_of_mod bp (b ∷ ls) rs h z = end_of_mod (bp + b.size) ls rs (omega (arith, h, z.0)) z.1

pub adjust-lt : (size : ℕ) → size + 11 < 2 ^ 64 → adjust size < 2 ^ 64
unfolding adjust
adjust-lt size h = ground arith

-- A request for `size` bytes leads to the state `t`, and its payload lies behind the blocks `front`.
abbrev pub Served : Sbrk → (size : ℕ) → State → (bp : ℕ) → (front : List Block) → State → Type 0
Served sbrk size s bp front t =
    (mm_malloc sbrk size s ≡ some (end_of bp front, t))
    × (end_of bp front % 8 ≡ 0)
    × ((n : ℕ) × (others : List Block) × (after : Lists) × (size + 4 ≤ n)
        × IsHeap t.heap_listp t.free_listp t.mem after bp (front ++ used_block n ∷ others))

module _ (sbrk : Sbrk) (size : ℕ) (s : State) (lists : Lists) (bp : ℕ) (bs : List Block)
    (h : IsHeap s.heap_listp s.free_listp s.mem lists bp bs) (some_bytes : 0 < size)
    (no_wrap : size + 11 < 2 ^ 64) (start : s.sys.heap ≤ bp)
    (c : CanGrow sbrk s bp bs (even_bytes (extend_size (adjust size) / 4))) where
  served :
      (front rs : List Block) (k : ℕ) (t : State) (after : Lists)
      → mm_malloc sbrk size s ≡ some (end_of bp front, t)
      → adjust size ≤ k
      → IsHeap t.heap_listp t.free_listp t.mem after bp (front ++ (allot (adjust size) k ++ rs))
      → Served sbrk size s bp front t
  served front rs k t after e fit g =
      let (n, others, row, large) = allot-used_block (adjust size) k rs fit in
      (
        e,
        end_of_mod bp front (allot (adjust size) k ++ rs) h.aligned
            (Tiled-Sizes t.mem bp true (front ++ (allot (adjust size) k ++ rs)) g.tiled),
        (
          n,
          others,
          after,
          omega (arith, large, adjust_least size no_wrap),
          subst (λ u. IsHeap t.heap_listp t.free_listp t.mem after bp (front ++ u)) row g,
        ),
      )

  -- If a heap holds blocks from `bp` on, not below the start of the simulated heap, a request of some
  -- bytes does not wrap, the break stands where the blocks end, the system grants what the heap would
  -- be extended by and the limit of the heap allows it, it is below 2 ^ 31 bytes and in reach of
  -- 64-bit addresses and of the offsets, and the last word of those bytes has its second bit clear
  -- (as fresh memory has; memory used before mem_reset_brk may not): mm_malloc ends and returns a
  -- payload, not NULL. It lies at a multiple of 8 in a used block that holds the request and a
  -- header, and the blocks again tile the heap, exactly the free ones listed.
  pub mm_malloc-Served : (front : List Block) × (t : State) × Served sbrk size s bp front t
  mm_malloc-Served =
      let (m8, m16, large, least) = adjust_least size no_wrap in
      elim (mm_malloc-heap sbrk size s lists bp bs h some_bytes no_wrap start
        (omega (arith, c.at_break))) [
          | inl (full, e) ↦
              let (front, k, m, after, row, fit, extended, g) =
                malloc_extend-heap sbrk s lists bp bs h (adjust size) m8 m16
                  (adjust-lt size no_wrap) c in
              (front, _, served front [] k _ after (e ∙ ap some extended) fit g)
          | inr (ls, rs, k, (row, fit, (m, at, e, (after, g)))) ↦
              (ls, _, served ls rs k _ after e fit g)
        ]
