-- ===== src/Seg/Heap/Place.antt =====
-- place on a heap: a free block becomes a used one, and what is left over a free one.
pub mod Split
pub mod Whole
use mar_2015_dynamic_storage.Base.{
  ℕ, zero, suc, ◌+◌, ◌-◌, ◌*◌, ◌%◌, ◌^◌, ◌≤◌, ◌<◌, ◌≡◌, ◌≢◌, ◌⊎◌, inl, inr, Bool, true, false, List,
  [], ◌∷◌, ◌++◌, All, All-map, arith, refl, sym, ap, ◌∙◌, subst,
}
use mar_2015_dynamic_storage.Machine.Memory.{Mem, Apart, get}
use mar_2015_dynamic_storage.Blocks.{get_size}
use mar_2015_dynamic_storage.Links.Chain.{Clear, Far}
use mar_2015_dynamic_storage.Seg.Sizes.{list_entry}
use mar_2015_dynamic_storage.Seg.Classes.{list_entry-lt}
use mar_2015_dynamic_storage.Seg.Lists.{Lists, head, IsFreeLists, IsNew}
use mar_2015_dynamic_storage.Seg.Frame.{Outside, IsSize}
use mar_2015_dynamic_storage.Seg.Search.{Has}
use mar_2015_dynamic_storage.Seg.Removed.{removed, All-removed, IsNew-removed}
use mar_2015_dynamic_storage.Seg.Place.{Placed}
use mar_2015_dynamic_storage.Seg.Heap.{
  Block, bit, IsBlockSize, end_of, last_used, InPlace, Row, Tiled, FreeAt, IsMember, IsHeap,
}
use mar_2015_dynamic_storage.Seg.Heap.Words.{
  RowWord, Sizes, Tiled-Sizes, Tiled-split, end_of-append, le-end_of, RowWord-Outside, bit_bound,
  first_header, RowWord-bounds, FreeAt-bounds,
}
use mar_2015_dynamic_storage.Seg.Heap.Around.{
  free_block, used_block, all-Sizes, own, low, end_all, high, word-Outside, rest-Outside,
  next-Outside,
}
use mar_2015_dynamic_storage.Seg.Heap.Free.{
  FreeAt-right, FreeAt-around, FreeAt-other, RowWord-right, RowWord-left, next_word, Has-split,
  Has-removed, All-both,
}

-- The free block of `csize` bytes behind the row `ls`, of which `asize` bytes are to be allocated; its
-- list holds it between `xs` and `ys`.
module _ (heap_listp free_listp : ℕ) (m : Mem) (lists : Lists) (bp : ℕ) (ls rs : List Block)
    (csize : ℕ) (xs ys : List ℕ)
    (h : IsHeap heap_listp free_listp m lists bp (ls ++ free_block csize ∷ rs))
    (listed : lists (list_entry csize) ≡ xs ++ end_of bp ls ∷ ys) where
  abbrev pub all : List Block
  all = ls ++ free_block csize ∷ rs

  abbrev pub here : ℕ
  here = end_of bp ls

  pub placed :
      (asize : ℕ)
      → asize % 8 ≡ 0
      → 16 ≤ asize
      → asize ≤ csize
      → Placed heap_listp free_listp m lists here asize csize xs ys
  placed asize e k f =
      let ((a, s, foot), t) = (own heap_listp free_listp m lists bp ls (free_block csize) rs h) in
      let (v, at, low2, small) = first_header m (here + csize) false rs t in
      record {
        header_size = omega (arith, a, s, bit_bound (last_used true ls));
        sizes = ((s.0, s.2), (e, omega (arith, s)));
        min_size = k;
        fits = f;
        above = (
          h.room,
          omega (arith, h.above, (low heap_listp free_listp m lists bp ls (free_block csize) rs h)),
        );
        listed = listed;
        header =
            (word-Outside heap_listp free_listp m lists bp ls (free_block csize) rs h) (here - 4)
              (inl refl);
        next_header = (next-Outside heap_listp free_listp m lists bp ls (free_block csize) rs h);
        next_word = omega (arith, at, small);
      }

  abbrev pub between : Lists
  between = removed lists (list_entry csize) here xs ys listed

  pub fresh : IsNew heap_listp free_listp between here
  fresh =
      IsNew-removed lists (list_entry csize) here xs ys listed heap_listp free_listp m h.in_memory
        (list_entry-lt csize)
        (omega (arith, h.above, (low heap_listp free_listp m lists bp ls (free_block csize) rs h)))
        (omega (arith, (high heap_listp free_listp m lists bp ls (free_block csize) rs h)))

  -- The lists without the block hold the free blocks of each row that has `bs` in the block's place, if
  -- none of these is free.
  pub members_between :
      (bs : List Block)
      → end_of here bs ≡ here + csize
      → (i : ℕ) → i < 24
      → All (IsMember bp (ls ++ (bs ++ rs)) i) (between i)
  members_between bs e i r =
      All-both (IsMember bp all i) (Far here) (IsMember bp (ls ++ (bs ++ rs)) i) (between i)
        (λ y a f. (
          a.0,
          FreeAt-other bp ls (free_block csize) bs rs y a.0 e (λ q. omega (arith, q, f)) a.1,
          a.2,
        ))
        (All-removed lists (list_entry csize) here xs ys listed (IsMember bp all i) i
          (h.members i r))
        (fresh.far i r)

  pub Has-between : (y s : ℕ) → y ≢ here → FreeAt bp all y s → Has y (between (list_entry s))
  Has-between y s ne f =
      Has-removed lists (list_entry csize) here xs ys listed (list_entry s) y ne (h.complete y s f)

  -- No list uses a word inside the block behind its links.
  pub inner-Outside : (w : ℕ) → here + 8 ≤ w → w + 4 ≤ here + csize → Outside free_listp lists w
  inner-Outside w a b = record {
    heads = λ i k. omega (
      arith,
      h.heads,
      h.room,
      h.above,
      (low heap_listp free_listp m lists bp ls (free_block csize) rs h),
    );
    blocks = λ i k.
        All-map (IsMember bp all i) (Clear w) (λ y q. apart y q.0 q.1) (lists i) (h.members i k);
  }
    where
      apart : (y s : ℕ) → FreeAt bp all y s → Clear w y
      apart y s f = omega (
        arith,
        FreeAt-around bp ls (free_block csize) rs y s
            (all-Sizes heap_listp free_listp m lists bp ls (free_block csize) rs h) f,
      )

  -- A part of the block is new to the lists if it leaves 16 bytes before it and 16 are left.
  pub inner_new :
      (asize : ℕ)
      → 16 ≤ asize
      → asize + 16 ≤ csize
      → IsNew heap_listp free_listp lists (here + asize)
  inner_new asize a b = record {
    above =
        omega (arith, h.above, (low heap_listp free_listp m lists bp ls (free_block csize) rs h));
    near = omega (arith, (high heap_listp free_listp m lists bp ls (free_block csize) rs h));
    clear = λ i k. omega (
      arith,
      h.heads,
      h.room,
      h.above,
      (low heap_listp free_listp m lists bp ls (free_block csize) rs h),
    );
    far = λ i k.
        All-map (IsMember bp all i) (Far (here + asize)) (λ y q. apart y q.0 q.1) (lists i)
          (h.members i k);
  }
    where
      apart : (y s : ℕ) → FreeAt bp all y s → Far (here + asize) y
      apart y s f = omega (
        arith,
        FreeAt-around bp ls (free_block csize) rs y s
            (all-Sizes heap_listp free_listp m lists bp ls (free_block csize) rs h) f,
      )
