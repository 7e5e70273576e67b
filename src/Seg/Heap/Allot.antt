-- ===== src/Seg/Heap/Allot.antt =====
-- What place does to the blocks of a heap: a part of the free block that is as large as asked for, or the
-- whole block if too little would be left over.
use mar_2015_dynamic_storage.Base.{
  ℕ, ◌+◌, ◌-◌, ◌%◌, ◌≤◌, ◌≡◌, List, [], ◌∷◌, ◌++◌, arith, refl, sym, ap, ◌∙◌, subst, leb,
  if◌then◌else◌, Bool-cases, inl, inr,
}
use mar_2015_dynamic_storage.Machine.Memory.{Mem}
use mar_2015_dynamic_storage.Seg.{place}
use mar_2015_dynamic_storage.Seg.Sizes.{list_entry}
use mar_2015_dynamic_storage.Seg.Lists.{Lists}
use mar_2015_dynamic_storage.Seg.Heap.{Block, end_of, IsHeap}
use mar_2015_dynamic_storage.Seg.Heap.Free.{Has-split, FreeAt-right}
use mar_2015_dynamic_storage.Seg.Heap.Around.{free_block, used_block}
use mar_2015_dynamic_storage.Seg.Heap.Place.Whole.{place-IsHeap_whole}
use mar_2015_dynamic_storage.Seg.Heap.Place.Split.{place-IsHeap_split}

-- The blocks that a free block of `csize` bytes becomes when `asize` bytes are asked for.
unfoldable pub allot : (asize csize : ℕ) → List Block
allot asize csize =
    if leb (asize + 16) csize
    then used_block asize ∷ free_block (csize - asize) ∷ []
    else used_block csize ∷ []

-- If a heap holds the blocks `ls`, a free block of `csize` bytes and the blocks `rs`, and `asize` is a
-- multiple of 8 from 16 to `csize`: after place the heap holds `ls`, the free block's parts and `rs`.
pub place-allot :
    (heap_listp free_listp : ℕ) (m : Mem) (lists : Lists) (bp : ℕ) (ls rs : List Block)
    (asize csize : ℕ)
    → IsHeap heap_listp free_listp m lists bp (ls ++ free_block csize ∷ rs)
    → asize % 8 ≡ 0
    → 16 ≤ asize
    → asize ≤ csize
    → (after : Lists) × IsHeap heap_listp free_listp
        (place heap_listp free_listp (end_of bp ls) asize m)
        after
        bp
        (ls ++ (allot asize csize ++ rs))
unfolding allot end_of
place-allot heap_listp free_listp m lists bp ls rs asize csize h e least fits =
    let here = end_of bp ls in
    let listed =
      h.complete here csize
        (FreeAt-right bp ls (free_block csize ∷ rs) here csize (inl (refl, refl, refl))) in
    let (xs, ys, at) = Has-split here (lists (list_entry csize)) listed in
    elim (Bool-cases (leb (asize + 16) csize)) [
      | inl many ↦
          let parts : csize ≡ asize + (csize - asize) = omega arith in
          let after =
            place-IsHeap_split heap_listp free_listp m lists bp ls rs asize (csize - asize) xs ys
              (subst (λ t. IsHeap heap_listp free_listp m lists bp (ls ++ free_block t ∷ rs)) parts
                h)
              (ap (λ t. lists (list_entry t)) (sym parts) ∙ at) e least (ground (arith, many)) in
          rw many (_, after)
      | inr few ↦ rw few (
        _,
        place-IsHeap_whole heap_listp free_listp m lists bp ls rs csize xs ys h at asize e least
            fits (ground (arith, few)),
      )
    ]
