-- ===== src/Seg/Fit.antt =====
-- find_block and find_fit of mm-segregated list(97:100)/mm.c. The walk along a free list takes
-- fuel; `none` is a walk that the fuel did not suffice for. NULL is the pointer 0.
use mar_2015_dynamic_storage.Base.{
  ℕ, zero, suc, ◌+◌, ◌-◌, ◌*◌, Option, none, some, ◌==◌, leb, if◌then◌else◌,
}
use mar_2015_dynamic_storage.Machine.Memory.{Mem, get}
use mar_2015_dynamic_storage.Blocks.{wsize, get_size, hdrp, off_ptr}
use mar_2015_dynamic_storage.Seg.Sizes.{list_num, list_entry}

abbrev pub null : ℕ
null = 0

module _ (heap_listp : ℕ) (m : Mem) (asize : ℕ) where
  -- the loop of find_block, at the block `bp`
  unfoldable pub walk : ℕ → ℕ → Option ℕ
  walk zero bp = none
  walk (suc fuel) bp =
      let rest = walk fuel (off_ptr heap_listp m bp) in
      if bp == null
      then some null
      else if leb asize (get_size m (hdrp bp))
      then some bp
      else if get m bp == 0
      then some null
      else rest

  -- `list` is the address of a list's first word.
  unfoldable pub find_block : ℕ → ℕ → Option ℕ
  find_block fuel list =
      if get m list == 0 then some null else walk fuel (off_ptr heap_listp m list)

  -- the loop of find_fit with `n` lists left, from the list `entry` on
  unfoldable pub fit_from : ℕ → (free_listp n entry : ℕ) → Option ℕ
  fit_from fuel free_listp zero entry = some null
  fit_from fuel free_listp (suc n) entry =
      let rest = fit_from fuel free_listp n (entry + 1) in
      if get m (free_listp + wsize * entry) == 0
      then rest
      else elim (find_block fuel (free_listp + entry * wsize)) [
        | none ↦ none
        | some bp ↦ if bp == null then rest else some bp
      ]

  unfoldable pub find_fit : ℕ → ℕ → Option ℕ
  find_fit fuel free_listp =
      fit_from fuel free_listp (list_num - list_entry asize) (list_entry asize)
