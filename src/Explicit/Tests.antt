-- ===== src/Explicit/Tests.antt =====
-- The explicit free list with one block at 2000.
use mar_2015_dynamic_storage.Base.{ℕ, ◌≡◌, refl, [], ◌∷◌, some, arith}
use mar_2015_dynamic_storage.Machine.Memory.{Mem, get, put}
use mar_2015_dynamic_storage.Links.Chain.{IsFreeList}
use mar_2015_dynamic_storage.Links.Insert.{Fits}
use mar_2015_dynamic_storage.Seg.Search.{Finds}
use mar_2015_dynamic_storage.Explicit.{freelist_insert, freelist_delete, find_fit}
use mar_2015_dynamic_storage.Explicit.Lists.{freelist_delete-freelist_insert, find_fit-Finds}

abbrev one_block : Mem
one_block = put (put (λ a. 0) 1996 32) 1004 896

one_block-IsFreeList : IsFreeList 1104 one_block 1004 (2000 ∷ [])
unfolding get put
one_block-IsFreeList = record {
  linked = ((refl, omega arith, omega arith, refl), refl);
  clear = (omega arith, tt);
  spaced = (tt, tt);
}

fits : Fits 1104 1004 2032 (2000 ∷ [])
fits = record {
  above = omega arith;
  near = omega arith;
  clear = omega arith;
  far = (omega arith, tt);
}

freelist_delete-freelist_insert_example :
    IsFreeList 1104 (freelist_insert 1104 1004 2032 one_block) 1004 (2032 ∷ 2000 ∷ [])
    × IsFreeList 1104
        (freelist_delete 1104 1004 2032 (freelist_insert 1104 1004 2032 one_block))
        1004
        (2000 ∷ [])
freelist_delete-freelist_insert_example =
    freelist_delete-freelist_insert 1104 1004 one_block (2000 ∷ []) one_block-IsFreeList 2032 fits

find_fit-Finds_example :
    (p : ℕ) × (find_fit 1104 1004 one_block 24 1 ≡ some p) × Finds one_block 24 p (2000 ∷ [])
find_fit-Finds_example =
    find_fit-Finds 1104 1004 one_block (2000 ∷ []) one_block-IsFreeList 24 1 (omega arith)
