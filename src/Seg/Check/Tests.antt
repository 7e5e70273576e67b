-- ===== src/Seg/Check/Tests.antt =====
-- A heap of a prologue block at 1104 and a block of 32 bytes at 1112 under the checker.
use mar_2015_dynamic_storage.Base.{◌%◌, ◌≤◌, ◌≡◌, ◌↔◌, ◌⊎◌, []}
use mar_2015_dynamic_storage.Machine.Memory.{Mem, get, put}
use mar_2015_dynamic_storage.Blocks.{get_size, get_alloc, hdrp, ftrp, next_blkp}
use mar_2015_dynamic_storage.Seg.Check.{checkblock}
use mar_2015_dynamic_storage.Seg.Check.Reports.{checkblock_iff}

abbrev small_heap : Mem
small_heap = put (put (put (λ a. 0) 1100 9) 1108 33) 1140 1

checkblock_iff_example : (checkblock small_heap 1112 ≡ []) ↔ (
    (1112 % 8 ≡ 0)
    × (get small_heap (hdrp 1112) ≡ get small_heap (ftrp small_heap 1112))
    × ((get_alloc small_heap (hdrp 1112) ≡ 0)
        ⊎ (get_alloc small_heap (hdrp (next_blkp small_heap 1112)) ≡ 0))
    × (16 ≤ get_size small_heap 1112))
checkblock_iff_example = checkblock_iff small_heap 1112
