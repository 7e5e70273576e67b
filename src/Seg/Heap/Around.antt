-- ===== src/Seg/Heap/Around.antt =====
-- A block `b` of a heap between the rows `ls` and `rs`: where it lies, which words no list uses, and the
-- heap after a change of this block.
use mar_2015_dynamic_storage.Base.{
  ℕ, ◌+◌, ◌-◌, ◌*◌, ◌^◌, ◌≤◌, ◌<◌, ◌≡◌, ◌⊎◌, inl, inr, true, false, List, ◌∷◌, ◌++◌, arith, sym,
  subst,
}
use mar_2015_dynamic_storage.Machine.Memory.{Mem, get}
use mar_2015_dynamic_storage.Seg.Lists.{Lists}
use mar_2015_dynamic_storage.Seg.Frame.{Outside}
use mar_2015_dynamic_storage.Seg.Heap.{Block, bit, end_of, last_used, InPlace, Row, Tiled, IsHeap}
use mar_2015_dynamic_storage.Seg.Heap.Words.{
  RowWord, Sizes, Row-Sizes, Row-same, Tiled-Sizes, Tiled-split, Tiled-join, Tiled-prev,
  end_of-append, le-end_of, RowWord-Outside, RowWord-bounds,
}
use mar_2015_dynamic_storage.Seg.Heap.Free.{RowWord-right, RowWord-left, next_word}

abbrev pub free_block : ℕ → Block
free_block n = record { size = n; used = false }

abbrev pub used_block : ℕ → Block
used_block n = record { size = n; used = true }

module _ (heap_listp free_listp : ℕ) (m : Mem) (lists : Lists) (bp : ℕ) (ls : List Block)
    (b : Block) (rs : List Block) (h : IsHeap heap_listp free_listp m lists bp (ls ++ b ∷ rs)) where
  abbrev all : List Block
  all = ls ++ b ∷ rs

  abbrev here : ℕ
  here = end_of bp ls

  pub all-Sizes : Sizes all
  all-Sizes = Tiled-Sizes m bp true all h.tiled

  pub own : InPlace m here (last_used true ls) b × Tiled m (here + b.size) b.used rs
  own = (Tiled-split m bp true ls (b ∷ rs) h.tiled).1

  pub low : bp ≤ here
  low = le-end_of bp ls

  pub end_all : end_of bp all ≡ end_of (here + b.size) rs
  unfolding end_of
  end_all = end_of-append bp ls (b ∷ rs)

  pub high : here + b.size < heap_listp + 2 ^ 32
  high = omega (arith, h.near, end_all, le-end_of (here + b.size) rs)

  pub word-Outside : (w : ℕ) → RowWord here (b ∷ rs) w → Outside free_listp lists w
  word-Outside w r =
      RowWord-Outside heap_listp free_listp m lists bp all all h all-Sizes w
        (inl (RowWord-right bp ls (b ∷ rs) w r))

  -- the words behind the block
  pub rest-Outside :
      (w : ℕ)
      → RowWord (here + b.size) rs w ⊎ (w ≡ end_of (here + b.size) rs - 4)
      → Outside free_listp lists w
  rest-Outside w (inl r) = word-Outside w (inr (inr r))
  rest-Outside w (inr e) =
      RowWord-Outside heap_listp free_listp m lists bp all all h all-Sizes w
        (inr (omega (arith, e, end_all)))

  -- the words before it
  row-Outside : (w : ℕ) → RowWord bp ls w → Outside free_listp lists w
  row-Outside w r =
      RowWord-Outside heap_listp free_listp m lists bp all all h all-Sizes w
        (inl (RowWord-left bp ls (b ∷ rs) w r))

  pub next-Outside : Outside free_listp lists (here + b.size - 4)
  next-Outside = rest-Outside (here + b.size - 4) (next_word (here + b.size) rs)

  -- In the memory `k` the blocks `cs` stand in the place of `b`, all words around it are as before, and the next
  -- header says whether the block before it is used.
  pub Tiled-replace :
      (k : Mem) (cs : List Block)
      → end_of here cs ≡ here + b.size
      → Row k here (last_used true ls) cs
      → (get k (here + b.size - 4) + 2 * bit b.used
          ≡ get m (here + b.size - 4) + 2 * bit (last_used (last_used true ls) cs))
      → ((w : ℕ)
          → Outside free_listp lists w
          → (w + 8 ≤ here) ⊎ (here + b.size ≤ w)
          → get k w ≡ get m w)
      → Tiled k bp true (ls ++ (cs ++ rs))
  Tiled-replace k cs e row next same =
      let q = last_used (last_used true ls) cs in
      let (before, t) = Tiled-split m bp true ls (b ∷ rs) h.tiled in
      let front : Row k bp true ls =
        Row-same m k bp true ls
          (λ w r. same w (row-Outside w r) (
            inl
              (RowWord-bounds bp ls w (omega (arith, h.room, h.above))
                (Row-Sizes m bp true ls before) r).1))
          before in
      let back : Tiled k (here + b.size) q rs =
        Tiled-prev m k (here + b.size) b.used q rs (omega (arith, h.room, h.above, low)) next
          (λ w l r. same w (rest-Outside w r) (inr l)) t.1 in
      Tiled-join k bp true ls (cs ++ rs) front
        (Tiled-join k here (last_used true ls) cs rs row (subst (λ t. Tiled k t q rs) (sym e) back))
