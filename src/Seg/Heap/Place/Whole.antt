-- ===== src/Seg/Heap/Place/Whole.antt =====
-- place on a heap where the whole block is allocated.
use mar_2015_dynamic_storage.Base.{
  ℕ, ◌+◌, ◌-◌, ◌%◌, ◌≤◌, ◌<◌, ◌≡◌, ◌≢◌, inl, inr, true, false, List, [], ◌∷◌, ◌++◌, arith, refl,
}
use mar_2015_dynamic_storage.Machine.Memory.{Mem, Apart, get}
use mar_2015_dynamic_storage.Seg.{place}
use mar_2015_dynamic_storage.Seg.Sizes.{list_entry}
use mar_2015_dynamic_storage.Seg.Lists.{Lists}
use mar_2015_dynamic_storage.Seg.Frame.{Outside}
use mar_2015_dynamic_storage.Machine.Word.{bit1, set_bit1}
use mar_2015_dynamic_storage.Seg.Search.{Has}
use mar_2015_dynamic_storage.Seg.Place.{Placed, place-IsWhole, get-place_whole}
use mar_2015_dynamic_storage.Seg.Heap.{Block, end_of, last_used, Tiled, FreeAt, IsHeap}
use mar_2015_dynamic_storage.Seg.Heap.Words.{
  bit_bound, first_header, end_of-append, Tiled-Sizes, Sizes,
}
use mar_2015_dynamic_storage.Seg.Heap.Free.{FreeAt-other, FreeAt-around}
use mar_2015_dynamic_storage.Seg.Heap.Around.{free_block, used_block, own, Tiled-replace}
use mar_2015_dynamic_storage.Seg.Heap.Place.{placed, between, members_between, Has-between}

module _ (heap_listp free_listp : ℕ) (m : Mem) (lists : Lists) (bp : ℕ) (ls rs : List Block)
    (csize : ℕ) (xs ys : List ℕ)
    (h : IsHeap heap_listp free_listp m lists bp (ls ++ free_block csize ∷ rs))
    (listed : lists (list_entry csize) ≡ xs ++ end_of bp ls ∷ ys) (asize : ℕ) (e : asize % 8 ≡ 0)
    (least : 16 ≤ asize) (fits : asize ≤ csize) (few : csize < asize + 16) where
  abbrev here : ℕ
  here = end_of bp ls

  abbrev after : Mem
  after = place heap_listp free_listp here asize m

  pub get-after :
      (w : ℕ)
      → Outside free_listp lists w
      → Apart (here - 4) w
      → Apart (here + csize - 4) w
      → get after w ≡ get m w
  get-after w o a b =
      get-place_whole heap_listp free_listp m lists here asize csize xs ys h.in_memory
        (placed heap_listp free_listp m lists bp ls rs csize xs ys h listed asize e least fits) w
        few o a b

  p : Placed heap_listp free_listp m lists here asize csize xs ys
  p = placed heap_listp free_listp m lists bp ls rs csize xs ys h listed asize e least fits

  words :
      (get after (here - 4) ≡ csize + 1 + bit1 (get m (here - 4)))
      × (get after (here + csize - 4) ≡ set_bit1 (get m (here + csize - 4)))
  words = (place-IsWhole heap_listp free_listp m lists here asize csize xs ys h.in_memory p few).1

  Tiled-after : Tiled after bp true (ls ++ used_block csize ∷ rs)
  unfolding end_of last_used
  Tiled-after =
      let ((a, s, f), t) = own heap_listp free_listp m lists bp ls (free_block csize) rs h in
      let (v, at, low2, small) = first_header m (here + csize) false rs t in
      Tiled-replace heap_listp free_listp m lists bp ls (free_block csize) rs h after
        (used_block csize ∷ []) refl
        ((omega (arith, words.0, a, s, bit_bound (last_used true ls)), s, λ u. cc), tt)
        (omega (arith, words.1, at, low2, small))
        (λ w o r. get-after w o (omega (arith, r, least, fits)) (omega (arith, r, least, fits)))

  Sizes-after : Sizes (ls ++ used_block csize ∷ rs)
  Sizes-after = Tiled-Sizes after bp true (ls ++ used_block csize ∷ rs) Tiled-after

  not_here : (y s : ℕ) → FreeAt bp (ls ++ used_block csize ∷ rs) y s → y ≢ here
  not_here y s f q = elim (FreeAt-around bp ls (used_block csize) rs y s Sizes-after f) [
    | inl a ↦ omega (arith, a, q)
    | inr (inl a) ↦ cc
    | inr (inr a) ↦ omega (arith, a, q, least, fits)
  ]

  complete_after :
      (y s : ℕ)
      → FreeAt bp (ls ++ used_block csize ∷ rs) y s
      → Has y (between heap_listp free_listp m lists bp ls rs csize xs ys h listed (list_entry s))
  unfolding end_of
  complete_after y s f =
      Has-between heap_listp free_listp m lists bp ls rs csize xs ys h listed y s (not_here y s f) (
        FreeAt-other bp ls (used_block csize) (free_block csize ∷ []) rs y s refl (not_here y s f)
          f)

  pub place-IsHeap_whole :
      IsHeap heap_listp free_listp after
        (between heap_listp free_listp m lists bp ls rs csize xs ys h listed)
        bp
        (ls ++ used_block csize ∷ rs)
  unfolding end_of
  place-IsHeap_whole = record {
    tiled = Tiled-after;
    in_memory =
        (place-IsWhole heap_listp free_listp m lists here asize csize xs ys h.in_memory p few).0;
    members =
        members_between heap_listp free_listp m lists bp ls rs csize xs ys h listed
          (used_block csize ∷ []) refl;
    complete = complete_after;
    room = h.room;
    heads = h.heads;
    above = h.above;
    near = omega (
      arith,
      h.near,
      end_of-append bp ls (free_block csize ∷ rs),
      end_of-append bp ls (used_block csize ∷ rs),
    );
    aligned = h.aligned;
  }
