-- ===== src/Explicit.antt =====
-- mm-explicit list(82:100)/mm.c: one free list, and footers on allocated blocks too. The children
-- hold the calls of the package and the proofs.
pub mod Check
pub mod Lists
pub mod Package
mod Tests
use mar_2015_dynamic_storage.Base.{
  ℕ, ◌+◌, ◌-◌, ◌*◌, ◌%◌, ◌^◌, ◌/◌, Option, some, true, false, ◌&&◌, not, ◌==◌, leb, if◌then◌else◌,
}
use mar_2015_dynamic_storage.Machine.Memory.{Mem, get, put}
use mar_2015_dynamic_storage.Blocks.{
  wsize, dsize, pack, get_size, get_alloc, hdrp, ftrp, next_blkp, prev_blkp, off_ptr,
}
use mar_2015_dynamic_storage.Links
use mar_2015_dynamic_storage.Seg.Fit.{null, walk}

module _ (heap_listp free_listp : ℕ) where
  unfoldable pub freelist_insert : ℕ → Mem → Mem
  freelist_insert bp m = Links.insert heap_listp free_listp bp m

  unfoldable pub freelist_delete : ℕ → Mem → Mem
  freelist_delete bp m = Links.delete heap_listp free_listp bp m

  -- Case 2 of `coalesce`: the next block is free.
  unfoldable pub coalesce_next : ℕ → Mem → ℕ × Mem
  coalesce_next bp m =
      let size = get_size m (hdrp bp) + get_size m (hdrp (next_blkp m bp)) in
      let m₁ : Mem = put m (hdrp bp) (pack size false) in
      let m₂ : Mem = put m₁ (ftrp m₁ bp) (pack size false) in (bp, freelist_insert bp m₂)

  -- Case 3: the previous block is free.
  unfoldable pub coalesce_prev : ℕ → Mem → ℕ × Mem
  coalesce_prev bp m =
      let m₁ = freelist_delete (prev_blkp m bp) m in
      let size = get_size m (hdrp bp) + get_size m₁ (hdrp (prev_blkp m₁ bp)) in
      let m₂ : Mem = put m₁ (ftrp m₁ bp) (pack size false) in
      let m₃ : Mem = put m₂ (hdrp (prev_blkp m₂ bp)) (pack size false) in
      let bp' = prev_blkp m₃ bp in (bp', freelist_insert bp' m₃)

  -- Case 4: both neighbours are free. Two sizes are added as `unsigned int`.
  unfoldable pub coalesce_both : ℕ → Mem → ℕ × Mem
  coalesce_both bp m =
      let m₁ = freelist_delete (prev_blkp m bp) m in
      let m₂ = freelist_delete (next_blkp m₁ bp) m₁ in
      let neighbours =
        (get_size m₂ (hdrp (prev_blkp m₂ bp)) + get_size m₂ (ftrp m₂ (next_blkp m₂ bp))) % 2 ^ 32 in
      let size = get_size m (hdrp bp) + neighbours in
      let m₃ : Mem = put m₂ (hdrp (prev_blkp m₂ bp)) (pack size false) in
      let m₄ : Mem = put m₃ (ftrp m₃ (next_blkp m₃ bp)) (pack size false) in
      let bp' = prev_blkp m₄ bp in (bp', freelist_insert bp' m₄)

  -- The block pointer that it returns, and the memory. The neighbours' state is read from the
  -- previous block's footer and the next block's header.
  unfoldable pub coalesce : ℕ → Mem → ℕ × Mem
  coalesce bp m =
      let prev_is_alloc = not (get_alloc m (ftrp m (prev_blkp m bp)) == 0) in
      let next_is_alloc = not (get_alloc m (hdrp (next_blkp m bp)) == 0) in
      if prev_is_alloc && next_is_alloc
      then (bp, freelist_insert bp m)
      else if prev_is_alloc && not next_is_alloc
      then coalesce_next bp m
      else if not prev_is_alloc && next_is_alloc
      then coalesce_prev bp m
      else coalesce_both bp m

  -- `csize - asize` is of type `size_t`.
  unfoldable pub place : ℕ → ℕ → Mem → Mem
  place bp asize m =
      let csize = get_size m (hdrp bp) in
      let rest = (csize + 2 ^ 64 - asize) % 2 ^ 64 in
      let m₁ = freelist_delete bp m in
      if leb (2 * dsize) rest
      then (let m₂ : Mem = put m₁ (hdrp bp) (pack asize true) in
          let m₃ : Mem = put m₂ (ftrp m₂ bp) (pack asize true) in
          let bp' = next_blkp m₃ bp in
          let m₄ : Mem = put m₃ (hdrp bp') (pack rest false) in
          let m₅ : Mem = put m₄ (ftrp m₄ bp') (pack rest false) in freelist_insert bp' m₅)
      else (let m₂ : Mem = put m₁ (hdrp bp) (pack csize true) in
          put m₂ (ftrp m₂ bp) (pack csize true))

  -- The walk of the loop is that of the segregated allocator's find_block.
  unfoldable pub find_fit : Mem → ℕ → ℕ → Option ℕ
  find_fit m asize fuel =
      if get m free_listp == 0
      then some null
      else walk heap_listp m asize fuel (off_ptr heap_listp m free_listp)

-- The block size for a request of `size` bytes, in `size_t` arithmetic.
unfoldable pub adjust : ℕ → ℕ
adjust size =
    if leb size dsize then 2 * dsize else dsize * ((size + dsize + (dsize - 1)) % 2 ^ 64 / dsize)

-- CHUNKSIZE is `(1<<9)+(1<<8)+(1<<7)` with no parentheses round it.
abbrev pub chunk_size : ℕ
chunk_size = 2 ^ 9 + 2 ^ 8 + 2 ^ 7

-- `CHUNKSIZE/WSIZE` divides only the last term.
abbrev pub chunk_words : ℕ
chunk_words = 2 ^ 9 + 2 ^ 8 + 2 ^ 7 / wsize

-- `MAX(asize,CHUNKSIZE)`
unfoldable pub extend_size : ℕ → ℕ
extend_size asize = if leb asize chunk_size then chunk_size else asize
