-- ===== src/Seg.antt =====
-- mm-segregated list(97:100)/mm.c: the free lists and the operations on single blocks. The children
-- hold the searches, the calls of the package and the proofs.
pub mod Check
pub mod Coalesce
pub mod Classes
pub mod Fit
pub mod Frame
pub mod Heap
pub mod Lists
pub mod Package
pub mod Place
pub mod Removed
pub mod Search
pub mod Sizes
mod Tests
use mar_2015_dynamic_storage.Base.{
  ℕ, ◌+◌, ◌-◌, ◌*◌, ◌%◌, ◌^◌, Bool, true, false, ◌&&◌, not, ◌==◌, leb, if◌then◌else◌,
}
use mar_2015_dynamic_storage.Machine.Memory.{Mem, put}
use mar_2015_dynamic_storage.Blocks.{
  wsize, dsize, pack, get_size, get_alloc, hdrp, ftrp, next_blkp, prev_blkp, put_hd, prev_alloc,
  prev_unalloc, get_prev_alloc,
}
use mar_2015_dynamic_storage.Links
use Sizes.{list_entry}

-- the word that heads the free list of a size
unfoldable pub list_of : ℕ → ℕ → ℕ
list_of free_listp size = free_listp + wsize * list_entry size

module _ (heap_listp free_listp : ℕ) where
  unfoldable pub freelist_insert : ℕ → Mem → Mem
  freelist_insert bp m = Links.insert heap_listp (list_of free_listp (get_size m (hdrp bp))) bp m

  unfoldable pub freelist_delete : ℕ → Mem → Mem
  freelist_delete bp m = Links.delete heap_listp (list_of free_listp (get_size m (hdrp bp))) bp m

  -- Case 2 of `coalesce`: the next block is free.
  unfoldable pub coalesce_next : ℕ → Mem → ℕ × Mem
  coalesce_next bp m =
      let size = get_size m (hdrp bp) + get_size m (hdrp (next_blkp m bp)) in
      let m₁ = put_hd (hdrp bp) (pack size false) m in
      let m₂ : Mem = put m₁ (ftrp m₁ bp) (pack size false) in (bp, freelist_insert bp m₂)

  -- Case 3: the previous block is free.
  unfoldable pub coalesce_prev : ℕ → Mem → ℕ × Mem
  coalesce_prev bp m =
      let m₁ = freelist_delete (prev_blkp m bp) m in
      let size = get_size m (hdrp bp) + get_size m₁ (hdrp (prev_blkp m₁ bp)) in
      let m₂ : Mem = put m₁ (ftrp m₁ bp) (pack size false) in
      let m₃ = put_hd (hdrp (prev_blkp m₂ bp)) (pack size false) m₂ in
      let bp' = prev_blkp m₃ bp in (bp', freelist_insert bp' m₃)

  -- Case 4: both neighbours are free. Two sizes are added as `unsigned int`.
  unfoldable pub coalesce_both : ℕ → Mem → ℕ × Mem
  coalesce_both bp m =
      let m₁ = freelist_delete (prev_blkp m bp) m in
      let m₂ = freelist_delete (next_blkp m₁ bp) m₁ in
      let neighbours =
        (get_size m₂ (hdrp (prev_blkp m₂ bp)) + get_size m₂ (ftrp m₂ (next_blkp m₂ bp))) % 2 ^ 32 in
      let size = get_size m (hdrp bp) + neighbours in
      let m₃ = put_hd (hdrp (prev_blkp m₂ bp)) (pack size false) m₂ in
      let m₄ : Mem = put m₃ (ftrp m₃ (next_blkp m₃ bp)) (pack size false) in
      let bp' = prev_blkp m₄ bp in (bp', freelist_insert bp' m₄)

  -- The block pointer that it returns, and the memory.
  unfoldable pub coalesce : ℕ → Mem → ℕ × Mem
  coalesce bp m =
      let prev_is_alloc = not (get_prev_alloc m bp == 0) in
      let next_is_alloc = not (get_alloc m (hdrp (next_blkp m bp)) == 0) in
      if prev_is_alloc && next_is_alloc
      then (bp, freelist_insert bp m)
      else if prev_is_alloc && not next_is_alloc
      then coalesce_next bp m
      else if not prev_is_alloc && next_is_alloc
      then coalesce_prev bp m
      else coalesce_both bp m

  -- `csize - asize` is of type `size_t`.
  unfoldable pub place : ℕ → ℕ → Mem → Mem
  place bp asize m =
      let csize = get_size m (hdrp bp) in
      let rest = (csize + 2 ^ 64 - asize) % 2 ^ 64 in
      let m₁ = freelist_delete bp m in
      if leb (2 * dsize) rest
      then (let m₂ = prev_alloc bp (put_hd (hdrp bp) (pack asize true) m₁) in
          let bp' = next_blkp m₂ bp in
          let m₃ = put_hd (hdrp bp') (pack rest false) m₂ in
          let m₄ : Mem = put m₃ (ftrp m₃ bp') (pack rest false) in
          freelist_insert bp' (prev_unalloc bp' m₄))
      else prev_alloc bp (put_hd (hdrp bp) (pack csize true) m₁)
