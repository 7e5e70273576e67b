-- ===== src/Seg/Heap/Extend.antt =====
-- extend_heap of mm-segregated list(97:100)/mm.c on the blocks of a heap: a free block takes the place of
-- the epilogue.
use mar_2015_dynamic_storage.Base.{
  ℕ, ◌+◌, ◌-◌, ◌*◌, ◌^◌, ◌≤◌, ◌<◌, ◌≡◌, inl, inr, true, List, [], ◌∷◌, ◌++◌, All, All-map, arith,
  refl, ap, ◌∙◌,
}
use mar_2015_dynamic_storage.Machine.Memory.{Mem, get, put, get-put-Apart}
use mar_2015_dynamic_storage.Machine.State.{}
use mar_2015_dynamic_storage.Machine.Word.{bit1}
use mar_2015_dynamic_storage.Memlib.{}
use mar_2015_dynamic_storage.Blocks.{get_size, put_hd}
use mar_2015_dynamic_storage.Links.Chain.{Clear}
use mar_2015_dynamic_storage.Seg.Lists.{Lists, IsFreeLists}
use mar_2015_dynamic_storage.Seg.Frame.{Outside, IsSize, get-put_hd-Apart, put-IsFreeLists}
use mar_2015_dynamic_storage.Seg.Place.{get-put_hd_self}
use mar_2015_dynamic_storage.Seg.Search.{Has}
use mar_2015_dynamic_storage.Seg.Sizes.{list_entry}
use mar_2015_dynamic_storage.Seg.Package.{new_block}
use mar_2015_dynamic_storage.Seg.Heap.{
  Block, bit, IsBlockSize, end_of, last_used, Row, Tiled, FreeAt, IsMember, IsLaidOut, IsHeap,
}
use mar_2015_dynamic_storage.Seg.Heap.Words.{
  Sizes, Row-Sizes, Row-same, Tiled-split, Tiled-join, RowWord-bounds, FreeAt-bounds, bit_bound,
  end_of-append, le-end_of,
}
use mar_2015_dynamic_storage.Seg.Heap.Free.{FreeAt-left, FreeAt-append}
use mar_2015_dynamic_storage.Seg.Heap.Around.{free_block, used_block}
use mar_2015_dynamic_storage.Seg.Heap.Release.{sized, sized_words}
use mar_2015_dynamic_storage.Seg.Heap.Coalesce.{}
use mar_2015_dynamic_storage.Seg.Heap.Freed.{}

append_nil : (xs : List Block) → xs ++ [] ≡ xs
append_nil [] = refl
append_nil (x ∷ xs) = ap (λ t. x ∷ t) (append_nil xs)

module _ (m : Mem) (brk n : ℕ) (z : IsSize n) (least : 16 ≤ n) (pos : 8 ≤ brk) where
  abbrev with_sizes : Mem
  with_sizes = sized m brk n z least pos

  new_block-sized : new_block brk n m ≡ put_hd (brk + n - 4) 1 with_sizes
  unfolding new_block sized
  new_block-sized =
      let size₁ : get_size (put_hd (brk - 4) n m) (brk - 4) ≡ n =
        omega (arith, z, get-put_hd_self m (brk - 4) n (omega (arith, z)) z.1) in
      let size₂ : get_size (put (put_hd (brk - 4) n m) (brk + n - 8) n) (brk - 4) ≡ n =
        omega (arith, z, (sized_words m brk n z least pos).0) in
      rw (size₁, size₂) refl

  new_block_words :
      bit1 (get m (brk + n - 4)) ≡ 0
      → (get (new_block brk n m) (brk - 4) ≡ n + bit1 (get m (brk - 4)))
        × (get (new_block brk n m) (brk + n - 8) ≡ n)
        × (get (new_block brk n m) (brk + n - 4) ≡ 1)
  new_block_words clean =
      let w = sized_words m brk n z least pos in
      rw new_block-sized (
        get-put_hd-Apart with_sizes (brk + n - 4) 1 (brk - 4) (inr (omega arith)) ∙ w.0,
        get-put_hd-Apart with_sizes (brk + n - 4) 1 (brk + n - 8) (inr (omega arith)) ∙ w.1,
        omega (
          arith,
          get-put_hd_self with_sizes (brk + n - 4) 1 (omega arith) (omega arith),
          w.2,
          clean,
        ),
      )

  pub get-new_block : (w : ℕ) → w + 8 ≤ brk → get (new_block brk n m) w ≡ get m w
  unfolding sized
  get-new_block w k = rw new_block-sized (
      get-put_hd-Apart with_sizes (brk + n - 4) 1 w (inr (omega arith))
      ∙ get-put-Apart (put_hd (brk - 4) n m) (brk + n - 8) n w (inr (omega arith))
      ∙ get-put_hd-Apart m (brk - 4) n w (inr (omega arith)))

  new_block-IsFreeLists :
      (heap_listp free_listp : ℕ) (lists : Lists)
      → IsFreeLists heap_listp free_listp m lists
      → ((w : ℕ) → brk ≤ w + 4 → Outside free_listp lists w)
      → IsFreeLists heap_listp free_listp (new_block brk n m) lists
  unfolding sized
  new_block-IsFreeLists heap_listp free_listp lists l o =
      let write = put-IsFreeLists heap_listp free_listp in
      rw new_block-sized (
        write _ lists
          (write _ lists (write m lists l (brk - 4) _ (o (brk - 4) (omega arith))) (brk + n - 8) n
            (o (brk + n - 8) (omega arith)))
          (brk + n - 4) _ (o (brk + n - 4) (omega arith)))

-- `n` bytes behind the heap, whose last word has the second bit clear, become a block.
module _ (heap_listp free_listp : ℕ) (m : Mem) (lists : Lists) (bp : ℕ) (bs : List Block)
    (h : IsHeap heap_listp free_listp m lists bp bs) (n : ℕ) (z : IsBlockSize n)
    (near : end_of bp bs + n < heap_listp + 2 ^ 32)
    (clean : bit1 (get m (end_of bp bs + n - 4)) ≡ 0) where
  abbrev brk : ℕ
  brk = end_of bp bs

  low : (bp ≤ brk) × (8 ≤ bp)
  low = (le-end_of bp bs, omega (arith, h.aligned, h.room, h.above))

  own : Row m bp true bs × (get m (brk - 4) ≡ 1 + 2 * bit (last_used true bs))
  own = Tiled-split m bp true bs [] (rw (append_nil bs) h.tiled)

  sizes : Sizes bs
  sizes = Row-Sizes m bp true bs own.0

  beyond-Outside : (w : ℕ) → brk ≤ w + 4 → Outside free_listp lists w
  beyond-Outside w k = record {
    heads = λ i r. omega (arith, h.heads, low);
    blocks = λ i r.
        All-map (IsMember bp bs i) (Clear w)
          (λ x a. omega (arith, FreeAt-bounds bp bs x a.0 sizes a.1)) (lists i) (h.members i r);
  }

  abbrev after : Mem
  after = new_block brk n m

  words :
      (get after (brk - 4) ≡ n + bit1 (get m (brk - 4)))
      × (get after (brk + n - 8) ≡ n)
      × (get after (brk + n - 4) ≡ 1)
  words = new_block_words m brk n (z.0, z.2) z.1 (omega (arith, low)) clean

  kept : (w : ℕ) → w + 8 ≤ brk → get after w ≡ get m w
  kept = get-new_block m brk n (z.0, z.2) z.1 (omega (arith, low))

  Tiled-after : Tiled after bp true (bs ++ free_block n ∷ [])
  Tiled-after =
      Tiled-join after bp true bs (free_block n ∷ [])
        (Row-same m after bp true bs
          (λ w r. kept w (RowWord-bounds bp bs w (omega (arith, low)) sizes r).1) own.0)
        ((omega (arith, words.0, own.1, bit_bound (last_used true bs)), z, λ u. words.1), words.2)

  members_after : (i : ℕ) → i < 24 → All (IsMember bp (bs ++ used_block n ∷ []) i) (lists i)
  members_after i k =
      All-map (IsMember bp bs i) (IsMember bp (bs ++ used_block n ∷ []) i)
        (λ x a. (a.0, FreeAt-left bp bs (used_block n ∷ []) x a.0 a.1, a.2)) (lists i)
        (h.members i k)

  complete_after :
      (x s : ℕ) → FreeAt bp (bs ++ used_block n ∷ []) x s → Has x (lists (list_entry s))
  complete_after x s f = elim (FreeAt-append bp bs (used_block n ∷ []) x s f) [
    | inl a ↦ h.complete x s a
    | inr (inl a) ↦ cc
    | inr (inr a) ↦ absurd a
  ]

  pub new_block-IsLaidOut :
      IsLaidOut heap_listp free_listp after lists bp
        (bs ++ free_block n ∷ [])
        (bs ++ used_block n ∷ [])
  unfolding end_of
  new_block-IsLaidOut = record {
    tiled = Tiled-after;
    in_memory =
        new_block-IsFreeLists m brk n (z.0, z.2) z.1 (omega (arith, low)) heap_listp free_listp
          lists h.in_memory beyond-Outside;
    members = members_after;
    complete = complete_after;
    room = h.room;
    heads = h.heads;
    above = h.above;
    near = omega (arith, near, end_of-append bp bs (free_block n ∷ []));
    aligned = h.aligned;
  }
