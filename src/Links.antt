-- ===== src/Links.antt =====
-- The doubly linked list of free blocks that starts in the word at `list`: a block's first payload
-- word is the offset of the next block, its second that of the previous one, and 0 is no block. The
-- bodies of freelist_insert and freelist_delete, which the two mm.c files share.
pub mod Branches
pub mod Chain
pub mod Delete
pub mod Insert
pub mod Relink
use mar_2015_dynamic_storage.Base.{ℕ, ◌+◌, ◌==◌, ◌&&◌, not, if◌then◌else◌}
use mar_2015_dynamic_storage.Machine.Memory.{Mem, get, put}
use mar_2015_dynamic_storage.Blocks.{wsize, ptr_off, off_ptr}

module _ (heap_listp list bp : ℕ) (m : Mem) where
  unfoldable pub insert : Mem
  insert =
      if get m list == 0
      then put (put (ptr_off heap_listp list bp m) bp 0) (bp + wsize) 0
      else let m₁ : Mem = put (put m bp (get m list)) (bp + wsize) 0 in
        let m₂ : Mem = ptr_off heap_listp (off_ptr heap_listp m₁ list + wsize) bp m₁ in
        ptr_off heap_listp list bp m₂

  -- `GET(bp)==0&&GET(bp+WSIZE)==0`
  unfoldable pub delete_only : Mem
  delete_only = if get m bp == 0 && get m (bp + wsize) == 0 then put m list 0 else m

  -- `GET(bp)==0&&GET(bp+WSIZE)!=0`
  unfoldable pub delete_last : Mem
  delete_last =
      if get m bp == 0 && not (get m (bp + wsize) == 0)
      then put m (off_ptr heap_listp m (bp + wsize)) 0
      else m

  -- `GET(bp)!=0&&GET(bp+WSIZE)==0`
  unfoldable pub delete_first : Mem
  delete_first =
      if not (get m bp == 0) && get m (bp + wsize) == 0
      then (let m₁ : Mem = put m (off_ptr heap_listp m bp + wsize) 0 in put m₁ list (get m₁ bp))
      else m

  -- `GET(bp)!=0&&GET(bp+WSIZE)!=0`
  unfoldable pub delete_middle : Mem
  delete_middle =
      if not (get m bp == 0) && not (get m (bp + wsize) == 0)
      then (let m₁ : Mem = put m (off_ptr heap_listp m bp + wsize) (get m (bp + wsize)) in
          put m₁ (off_ptr heap_listp m₁ (bp + wsize)) (get m₁ bp))
      else m

unfoldable pub delete : ℕ → ℕ → ℕ → Mem → Mem
delete heap_listp list bp m =
    let m₁ = delete_only heap_listp list bp m in
    let m₂ = delete_last heap_listp list bp m₁ in
    let m₃ = delete_first heap_listp list bp m₂ in delete_middle heap_listp list bp m₃
