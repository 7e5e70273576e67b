-- ===== src/Seg/Heap/Kept.antt =====
-- What the payloads of used blocks hold when mm_malloc and mm_free of mm-segregated list(97:100)/mm.c
-- change the heap round them.
pub mod Requests
use mar_2015_dynamic_storage.Base.{
  ℕ, ◌+◌, ◌-◌, ◌%◌, ◌^◌, ◌≤◌, ◌<◌, ◌≡◌, ◌⊎◌, inl, inr, Bool, true, false, List, [], ◌∷◌, ◌++◌,
  arith, refl, sym, ap, ◌∙◌, subst, leb, Bool-cases,
}
use mar_2015_dynamic_storage.Machine.Memory.{Mem, get}
use mar_2015_dynamic_storage.Seg.{place, coalesce}
use mar_2015_dynamic_storage.Seg.Sizes.{list_entry}
use mar_2015_dynamic_storage.Seg.Lists.{Lists}
use mar_2015_dynamic_storage.Seg.Package.{release}
use mar_2015_dynamic_storage.Seg.Heap.{Block, end_of, IsLaidOut, IsHeap}
use mar_2015_dynamic_storage.Seg.Heap.Words.{end_of-append, first_header}
use mar_2015_dynamic_storage.Seg.Heap.Free.{Has-split, FreeAt-right}
use mar_2015_dynamic_storage.Seg.Heap.Around.{free_block, used_block, all-Sizes, own, low}
use mar_2015_dynamic_storage.Seg.Heap.Place.Whole
use mar_2015_dynamic_storage.Seg.Heap.Place.Split
use mar_2015_dynamic_storage.Seg.Heap.Release.{get-release}
use mar_2015_dynamic_storage.Seg.Heap.Coalesce.{first_used}
use mar_2015_dynamic_storage.Seg.Heap.Coalesce.Alone.{get-coalesce_alone}
use mar_2015_dynamic_storage.Seg.Heap.Coalesce.Before.{get-coalesce_before}
use mar_2015_dynamic_storage.Seg.Heap.Freed.{join_free, join-cases, row_append, IsLaidOut-append}
use mar_2015_dynamic_storage.Seg.Heap.Used.{
  InPayload, InPayload-Outside, InPayload-around, InPayload-append, InPayload-left, InPayload-right,
}

pub get-place_payload :
    (heap_listp free_listp : ℕ) (m : Mem) (lists : Lists) (bp : ℕ) (ls rs : List Block)
    (asize csize : ℕ)
    → IsHeap heap_listp free_listp m lists bp (ls ++ free_block csize ∷ rs)
    → asize % 8 ≡ 0
    → 16 ≤ asize
    → asize ≤ csize
    → (w : ℕ) → InPayload bp (ls ++ free_block csize ∷ rs) w
    → get (place heap_listp free_listp (end_of bp ls) asize m) w ≡ get m w
get-place_payload heap_listp free_listp m lists bp ls rs asize csize h e least fits w u =
    let here = end_of bp ls in
    let all = ls ++ free_block csize ∷ rs in
    let listed =
      h.complete here csize
        (FreeAt-right bp ls (free_block csize ∷ rs) here csize (inl (refl, refl, refl))) in
    let (xs, ys, at) = Has-split here (lists (list_entry csize)) listed in
    let far = InPayload-around bp ls csize rs w u in
    let o =
      InPayload-Outside heap_listp free_listp m lists bp all all h
        (all-Sizes heap_listp free_listp m lists bp ls (free_block csize) rs h) w u in
    elim (Bool-cases (leb (asize + 16) csize)) [
      | inl many ↦
          let parts : csize ≡ asize + (csize - asize) = omega arith in
          Split.get-after heap_listp free_listp m lists bp ls rs asize (csize - asize) xs ys
            (subst (λ t. IsHeap heap_listp free_listp m lists bp (ls ++ free_block t ∷ rs)) parts h)
            (ap (λ t. lists (list_entry t)) (sym parts) ∙ at) e least (ground (arith, many)) w o
            (omega (arith, far, parts))
      | inr few ↦
          Whole.get-after heap_listp free_listp m lists bp ls rs csize xs ys h at asize e least fits
            (ground (arith, few)) w o (omega (arith, far, least, fits))
            (omega (arith, far, least, fits))
    ]

pub get-coalesce_payload :
    (heap_listp free_listp : ℕ) (m : Mem) (lists : Lists) (bp : ℕ) (ls rs : List Block) (n : ℕ)
    → IsLaidOut heap_listp free_listp m lists bp (ls ++ free_block n ∷ rs) (ls ++ used_block n ∷ rs)
    → first_used rs ≡ true
    → (w : ℕ) → InPayload bp (ls ++ free_block n ∷ rs) w
    → get (coalesce heap_listp free_listp (end_of bp ls) m).1 w ≡ get m w
unfolding end_of
get-coalesce_payload heap_listp free_listp m lists bp ls rs n h u w v =
    elim (join-cases bp ls n rs) [
      | inl (p, e, at) ↦ get-coalesce_alone heap_listp free_listp m lists bp ls rs n h p u w v
      | inr (front, a, l, e, at) ↦
          let h₂ = IsLaidOut-append heap_listp free_listp m lists bp ls front rs a n l h in
          let here : end_of bp ls ≡ end_of bp front + a =
            ap (end_of bp) l ∙ end_of-append bp front (free_block a ∷ []) in
          rw here (
            get-coalesce_before heap_listp free_listp m lists bp front rs a n h₂ u w
              (subst (λ t. InPayload bp t w) (row_append ls front a (free_block n) rs l) v))
    ]

pub get-release_payload :
    (heap_listp free_listp : ℕ) (m : Mem) (lists : Lists) (bp : ℕ) (ls rs : List Block) (n : ℕ)
    → IsHeap heap_listp free_listp m lists bp (ls ++ used_block n ∷ rs)
    → (w : ℕ) → InPayload bp (ls ++ free_block n ∷ rs) w
    → get (release (end_of bp ls) n m) w ≡ get m w
get-release_payload heap_listp free_listp m lists bp ls rs n h w v =
    let here = end_of bp ls in
    let b = used_block n in
    let ((a, s, f), t) = own heap_listp free_listp m lists bp ls b rs h in
    let (x, at, low2, small) = first_header m (here + n) true rs t in
    let under = low heap_listp free_listp m lists bp ls b rs h in
    get-release m here n (s.0, s.2) s.1 (omega (arith, under, h.aligned, h.room, h.above))
      (omega (arith, at, small)) w (InPayload-around bp ls n rs w v)

-- A payload stays one when the free block behind `ls` is joined with the one before.
pub InPayload-join_free :
    (bp : ℕ) (ls : List Block) (n : ℕ) (rs : List Block) (w : ℕ)
    → InPayload bp (ls ++ free_block n ∷ rs) w
    → InPayload bp (join_free ls n rs) w
unfolding end_of
InPayload-join_free bp ls n rs w v = elim (join-cases bp ls n rs) [
  | inl (p, e, at) ↦ rw e v
  | inr (front, a, l, e, at) ↦
      rw e (
        merge front a (subst (λ t. InPayload bp t w) (row_append ls front a (free_block n) rs l) v))
]
  where
    merge :
        (front : List Block) (a : ℕ)
        → InPayload bp (front ++ free_block a ∷ free_block n ∷ rs) w
        → InPayload bp (front ++ free_block (n + a) ∷ rs) w
    merge front a u = elim (InPayload-append bp front (free_block a ∷ free_block n ∷ rs) w u) [
      | inl v ↦ InPayload-left bp front (free_block (n + a) ∷ rs) w v
      | inr (inl v) ↦ cc
      | inr (inr (inl v)) ↦ cc
      | inr (inr (inr v)) ↦
          let end : end_of bp front + a + n ≡ end_of bp front + (n + a) = omega arith in
          InPayload-right bp front (free_block (n + a) ∷ rs) w
            (inr (subst (λ t. InPayload t rs w) end v))
    ]
