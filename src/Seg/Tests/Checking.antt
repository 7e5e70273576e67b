-- ===== src/Seg/Tests/Checking.antt =====
-- A heap behind its prologue at 1104 under the checker: a used block of 32 bytes at 1112 and a free one at 1144.
use mar_2015_dynamic_storage.Base.{◌≡◌, List, [], ◌∷◌, some, refl}
use mar_2015_dynamic_storage.Machine.Memory.{Mem, get, put}
use mar_2015_dynamic_storage.Links
use mar_2015_dynamic_storage.Seg.{list_of, freelist_insert}
use mar_2015_dynamic_storage.Seg.Sizes.{list_entry}
use mar_2015_dynamic_storage.Seg.Heap.{Block}
use mar_2015_dynamic_storage.Seg.Heap.Around.{free_block, used_block}
use mar_2015_dynamic_storage.Seg.Check.{
  footer_mismatch, not_coalesced, too_small, checkblock, check_epilogue, check_from, mm_checkheap,
}

abbrev row : List Block
row = used_block 32 ∷ free_block 32 ∷ []

-- the prologue, the headers, the footer and the epilogue
abbrev row_words : Mem
row_words = put (put (put (put (put (put (λ a. 0) 1100 9) 1104 9) 1108 35) 1140 34) 1168 32) 1172 1

abbrev laid : Mem
laid = freelist_insert 1104 1004 1144 row_words

-- The payload of the used block is all zero.
mm_checkheap_run :
    mm_checkheap laid 4 1104
    ≡ some (
        not_coalesced 1104 1112
        ∷ too_small 1104
        ∷ not_coalesced 1104 1112
        ∷ too_small 1104
        ∷ footer_mismatch
        ∷ too_small 1112
        ∷ footer_mismatch
        ∷ too_small 1144
        ∷ [])
unfolding mm_checkheap check_from checkblock check_epilogue freelist_insert Links.insert list_of
    list_entry get put
mm_checkheap_run = refl
