-- ===== src/Seg/Heap/Place/Split.antt =====
-- place on a heap where at least 16 bytes of the block are left over.
use mar_2015_dynamic_storage.Base.{
  ℕ, ◌+◌, ◌-◌, ◌%◌, ◌≤◌, ◌<◌, ◌≡◌, ◌≢◌, ◌⊎◌, inl, inr, true, false, List, [], ◌∷◌, ◌++◌, All, arith,
  refl, sym, ap, subst,
}
use mar_2015_dynamic_storage.Machine.Memory.{Mem, get}
use mar_2015_dynamic_storage.Seg.{place}
use mar_2015_dynamic_storage.Seg.Sizes.{list_entry}
use mar_2015_dynamic_storage.Seg.Lists.{Lists}
use mar_2015_dynamic_storage.Seg.Frame.{Outside}
use mar_2015_dynamic_storage.Machine.Word.{bit1, clear_bit1}
use mar_2015_dynamic_storage.Seg.Search.{Has}
use mar_2015_dynamic_storage.Seg.Place.{Placed}
use mar_2015_dynamic_storage.Seg.Place.Split.{Rest, place-IsSplit, get-place_split}
use mar_2015_dynamic_storage.Links.Chain.{}
use mar_2015_dynamic_storage.Seg.Heap.{Block, end_of, last_used, Tiled, FreeAt, IsMember, IsHeap}
use mar_2015_dynamic_storage.Seg.Heap.Words.{
  Tiled-split, Row-Sizes, bit_bound, first_header, end_of-append, Tiled-Sizes, Sizes, FreeAt-bounds,
}
use mar_2015_dynamic_storage.Seg.Heap.Free.{
  FreeAt-append, FreeAt-left, FreeAt-right, added, Has-added, Has-added_self, All-added,
}
use mar_2015_dynamic_storage.Seg.Heap.Around.{free_block, used_block, own, Tiled-replace}
use mar_2015_dynamic_storage.Seg.Heap.Place.{
  placed, between, members_between, Has-between, inner-Outside, inner_new,
}

module _ (heap_listp free_listp : ℕ) (m : Mem) (lists : Lists) (bp : ℕ) (ls rs : List Block)
    (asize rest : ℕ) (xs ys : List ℕ)
    (h : IsHeap heap_listp free_listp m lists bp (ls ++ free_block (asize + rest) ∷ rs))
    (listed : lists (list_entry (asize + rest)) ≡ xs ++ end_of bp ls ∷ ys) (e : asize % 8 ≡ 0)
    (least : 16 ≤ asize) (over : 16 ≤ rest) where
  abbrev here : ℕ
  here = end_of bp ls

  abbrev after : Mem
  after = place heap_listp free_listp here asize m

  -- the row after the split
  abbrev blocks : List Block
  blocks = ls ++ used_block asize ∷ free_block rest ∷ rs

  p : Placed heap_listp free_listp m lists here asize (asize + rest) xs ys
  p =
      placed heap_listp free_listp m lists bp ls rs (asize + rest) xs ys h listed asize e least
        (omega arith)

  r : Rest heap_listp free_listp lists here asize rest
  r = record {
    min_size = over;
    new =
        inner_new heap_listp free_listp m lists bp ls rs (asize + rest) xs ys h listed asize least
          (omega arith);
    header =
        inner-Outside heap_listp free_listp m lists bp ls rs (asize + rest) xs ys h listed
          (here + asize - 4) (omega arith) (omega arith);
    footer =
        inner-Outside heap_listp free_listp m lists bp ls rs (asize + rest) xs ys h listed
          (here + (asize + rest) - 8) (omega arith) (omega arith);
  }

  words :
      (get after (here - 4) ≡ asize + 1 + bit1 (get m (here - 4)))
      × (get after (here + asize - 4) ≡ rest + 2)
      × (get after (here + (asize + rest) - 8) ≡ rest)
      × (get after (here + (asize + rest) - 4) ≡ clear_bit1 (get m (here + (asize + rest) - 4)))
  words = (place-IsSplit heap_listp free_listp m lists here asize rest xs ys h.in_memory p r).1

  pub get-after :
      (w : ℕ)
      → Outside free_listp lists w
      → (w + 8 ≤ here) ⊎ (here + (asize + rest) ≤ w)
      → get after w ≡ get m w
  get-after w o a =
      get-place_split heap_listp free_listp m lists here asize rest xs ys h.in_memory p r w o
        (omega (arith, a)) (omega (arith, a)) (omega (arith, a)) (omega (arith, a))
        (omega (arith, a))

  Tiled-after : Tiled after bp true blocks
  unfolding end_of last_used
  Tiled-after =
      let ((a, s, f), t) =
        own heap_listp free_listp m lists bp ls (free_block (asize + rest)) rs h in
      let (v, at, low2, small) = first_header m (here + (asize + rest)) false rs t in
      let end : here + asize + rest ≡ here + (asize + rest) = omega arith in
      Tiled-replace heap_listp free_listp m lists bp ls (free_block (asize + rest)) rs h after
        (used_block asize ∷ free_block rest ∷ []) end
        (
          (
            omega (arith, words.0, a, s, e, bit_bound (last_used true ls)),
            (e, least, omega (arith, s)),
            λ u. cc,
          ),
          (
            (
              omega (arith, words.1),
              (omega (arith, s, e), over, omega (arith, s)),
              λ u. rw end words.2,
            ),
            tt,
          ),
        )
        (omega (arith, words.3, at, low2, small)) (λ w o r. get-after w o r)

  abbrev lists_after : Lists
  lists_after =
      added (between heap_listp free_listp m lists bp ls rs (asize + rest) xs ys h listed)
        (list_entry rest) (here + asize)

  Sizes-before : Sizes ls × Sizes rs
  Sizes-before = (
    Row-Sizes m bp true ls (Tiled-split m bp true ls (free_block (asize + rest) ∷ rs) h.tiled).0,
    Tiled-Sizes m (here + (asize + rest)) false rs
        (own heap_listp free_listp m lists bp ls (free_block (asize + rest)) rs h).1,
  )

  part_free : FreeAt bp blocks (here + asize) rest
  unfolding end_of
  part_free =
      FreeAt-right bp ls (used_block asize ∷ free_block rest ∷ rs) (here + asize) rest
        (inr (inl (refl, refl, refl)))

  members_after : (i : ℕ) → i < 24 → All (IsMember bp blocks i) (lists_after i)
  unfolding end_of
  members_after i k =
      All-added (between heap_listp free_listp m lists bp ls rs (asize + rest) xs ys h listed)
        (list_entry rest) (here + asize) (IsMember bp blocks) i
        (members_between heap_listp free_listp m lists bp ls rs (asize + rest) xs ys h listed
          (used_block asize ∷ free_block rest ∷ []) (omega arith) i k)
        (rest, part_free, refl)

  -- the free blocks of the old row but the one at `here` stay listed
  kept :
      (y s : ℕ)
      → y ≢ here
      → FreeAt bp (ls ++ free_block (asize + rest) ∷ rs) y s
      → Has y (lists_after (list_entry s))
  kept y s ne f =
      Has-added (between heap_listp free_listp m lists bp ls rs (asize + rest) xs ys h listed)
        (list_entry rest) (here + asize) (list_entry s) y
        (Has-between heap_listp free_listp m lists bp ls rs (asize + rest) xs ys h listed y s ne f)

  part_listed : (y s : ℕ) → y ≡ here + asize → s ≡ rest → Has y (lists_after (list_entry s))
  part_listed y s p q =
      subst (λ t. Has t (lists_after (list_entry s))) (sym p)
        (subst (λ t. Has (here + asize) (lists_after (list_entry t))) (sym q)
          (Has-added_self
            (between heap_listp free_listp m lists bp ls rs (asize + rest) xs ys h listed)
            (list_entry rest) (here + asize)))

  complete_after : (y s : ℕ) → FreeAt bp blocks y s → Has y (lists_after (list_entry s))
  unfolding end_of
  complete_after y s f =
      let end : here + asize + rest ≡ here + (asize + rest) = omega arith in
      let (z, n) = Sizes-before in
      elim (FreeAt-append bp ls (used_block asize ∷ free_block rest ∷ rs) y s f) [
        | inl a ↦
            kept y s (omega (arith, FreeAt-bounds bp ls y s z a))
              (FreeAt-left bp ls (free_block (asize + rest) ∷ rs) y s a)
        | inr (inl a) ↦ cc
        | inr (inr (inl a)) ↦ part_listed y s a.0 a.1
        | inr (inr (inr a)) ↦
            let g = subst (λ t. FreeAt t rs y s) end a in
            kept y s (omega (arith, FreeAt-bounds (here + (asize + rest)) rs y s n g, least))
              (FreeAt-right bp ls (free_block (asize + rest) ∷ rs) y s (inr g))
      ]

  pub place-IsHeap_split : IsHeap heap_listp free_listp after lists_after bp blocks
  unfolding end_of
  place-IsHeap_split =
      let end : here + asize + rest ≡ here + (asize + rest) = omega arith in
      record {
        tiled = Tiled-after;
        in_memory =
            (place-IsSplit heap_listp free_listp m lists here asize rest xs ys h.in_memory p r).0;
        members = members_after;
        complete = complete_after;
        room = h.room;
        heads = h.heads;
        above = h.above;
        near = omega (
          arith,
          h.near,
          end_of-append bp ls (free_block (asize + rest) ∷ rs),
          end_of-append bp ls (used_block asize ∷ free_block rest ∷ rs),
          ap (λ t. end_of t rs) end,
        );
        aligned = h.aligned;
      }
