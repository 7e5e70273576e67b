-- ===== src/Explicit/Lists.antt =====
-- The free list of mm-explicit list(82:100)/mm.c: insertion, deletion, and the search for a fit.
use mar_2015_dynamic_storage.Base.{ℕ, ◌≤◌, ◌≡◌, List, [], ◌∷◌, some, length}
use mar_2015_dynamic_storage.Machine.Memory.{Mem, get}
use mar_2015_dynamic_storage.Links.Chain.{IsFreeList}
use mar_2015_dynamic_storage.Links.Insert.{Fits, insert-cons}
use mar_2015_dynamic_storage.Links.Delete.{delete-erase}
use mar_2015_dynamic_storage.Seg.Fit.{find_block}
use mar_2015_dynamic_storage.Seg.Search.{
  first_fit, Finds, find_block-first_fit, first_fit-Finds, Linked-pos,
}
use mar_2015_dynamic_storage.Explicit.{freelist_insert, freelist_delete, find_fit}

module _ (heap_listp free_listp : ℕ) (m : Mem) (xs : List ℕ)
    (l : IsFreeList heap_listp m free_listp xs) where
  -- If the list is well linked: freelist_insert puts a new block in front of the list, and
  -- freelist_delete takes it out again: the list is then as before.
  pub freelist_delete-freelist_insert :
      (bp : ℕ)
      → Fits heap_listp free_listp bp xs
      → IsFreeList heap_listp (freelist_insert heap_listp free_listp bp m) free_listp (bp ∷ xs)
        × IsFreeList heap_listp
            (freelist_delete heap_listp free_listp bp (freelist_insert heap_listp free_listp bp m))
            free_listp
            xs
  unfolding freelist_insert freelist_delete
  freelist_delete-freelist_insert bp f =
      let there = insert-cons heap_listp free_listp bp m xs l f in
      (there, delete-erase heap_listp free_listp bp _ [] xs there)

  -- If the list is well linked, with fuel for each block of the list, find_fit ends. It returns NULL
  -- if all blocks of the list are too small, and a block of the list that is large enough otherwise.
  pub find_fit-Finds :
      (asize fuel : ℕ)
      → length xs ≤ fuel
      → (p : ℕ) × (find_fit heap_listp free_listp m asize fuel ≡ some p) × Finds m asize p xs
  unfolding find_fit find_block
  find_fit-Finds asize fuel h = (
    first_fit m asize xs,
    find_block-first_fit heap_listp m asize fuel free_listp xs l.linked h,
    first_fit-Finds m asize xs (Linked-pos heap_listp m 0 (get m free_listp) xs l.linked),
  )
