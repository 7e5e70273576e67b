-- ===== src/Driver/Ranges.antt =====
-- add_range, remove_range and clear_ranges of malloclab-handout/mdriver.c: the extents of the
-- payloads that are allocated, newest first.
pub mod Accepts
pub mod Separated
use mar_2015_dynamic_storage.Base.{
  ℕ, ◌+◌, ◌-◌, ◌%◌, ◌^◌, Bool, true, false, ◌&&◌, ◌||◌, not, List, [], ◌∷◌, ◌==◌, leb, ltb,
  if◌then◌else◌,
}
use mar_2015_dynamic_storage.Memlib.{MemSys, mem_heap_lo, mem_heap_hi}

-- `range_t` without its link
pub record Range : Type 0 where
  pub lo : ℕ
  pub hi : ℕ
  pub index : ℕ

-- What add_range does: it returns 1 with the new list, reports one of three errors and returns 0, or
-- stops at the assertion `size > 0`.
pub data AddResult : Type 0 where
  added : List Range → AddResult
  not_aligned outside_heap overlaps : AddResult
  assertion_failed : AddResult

-- `IS_ALIGNED(p)`
unfoldable pub is_aligned : ℕ → Bool
is_aligned p = p % 8 == 0

-- the test of the loop over the ranges
unfoldable pub hits : (lo hi : ℕ) → Range → Bool
hits lo hi p = leb p.lo lo && leb lo p.hi || leb p.lo hi && leb hi p.hi

unfoldable pub any_hit : (lo hi : ℕ) → List Range → Bool
any_hit lo hi [] = false
any_hit lo hi (p ∷ ps) = if hits lo hi p then true else any_hit lo hi ps

-- the test for the extent of the heap
unfoldable pub is_outside : MemSys → (lo hi : ℕ) → Bool
is_outside sys lo hi =
    ltb lo (mem_heap_lo sys)
    || ltb (mem_heap_hi sys) lo
    || ltb hi (mem_heap_lo sys)
    || ltb (mem_heap_hi sys) hi

-- `size` is the bit pattern of an `int`. `unchecked` is `ignore_ranges || debug_mode == DBG_NONE`.
unfoldable pub add_range : Bool → MemSys → List Range → (lo size index : ℕ) → AddResult
add_range unchecked sys ranges lo size index =
    let hi = lo + size - 1 in
    if size == 0 || leb (2 ^ 31) size
    then assertion_failed
    else if not (is_aligned lo)
    then not_aligned
    else if is_outside sys lo hi
    then outside_heap
    else if unchecked
    then added ranges
    else if any_hit lo hi ranges
    then overlaps
    else added (record { lo = lo; hi = hi; index = index } ∷ ranges)

-- the first range that starts at `lo` is dropped
unfoldable pub remove_range : List Range → ℕ → List Range
remove_range [] lo = []
remove_range (p ∷ ps) lo = if p.lo == lo then ps else p ∷ remove_range ps lo

unfoldable pub clear_ranges : List Range → List Range
clear_ranges ranges = []
