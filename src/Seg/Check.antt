-- ===== src/Seg/Check.antt =====
-- checkblock and mm_checkheap of mm-segregated list(97:100)/mm.c. The messages that they print are
-- a list, in order.
pub mod Reports
pub mod Verbose
pub mod Walk
mod Tests
use mar_2015_dynamic_storage.Base.{
  ℕ, zero, suc, ◌*◌, ◌%◌, Bool, ◌&&◌, ◌||◌, not, List, [], ◌∷◌, ◌++◌, Option, none, some, ◌==◌, ltb,
  if◌then◌else◌,
}
use mar_2015_dynamic_storage.Machine.Memory.{Mem, get}
use mar_2015_dynamic_storage.Blocks.{dsize, get_size, get_alloc, hdrp, ftrp, next_blkp}

pub data Message : Type 0 where
  not_aligned : ℕ → Message
  footer_mismatch : Message
  not_coalesced : ℕ → ℕ → Message
  too_small : ℕ → Message
  bad_prologue_header bad_prologue_footer bad_epilogue_header : Message

abbrev pub report : Bool → Message → List Message
report test msg = if test then msg ∷ [] else []

unfoldable pub checkblock : Mem → ℕ → List Message
checkblock m bp =
    report (not (bp % 8 == 0)) (not_aligned bp)
    ++ (report (not (get m (hdrp bp) == get m (ftrp m bp))) footer_mismatch
        ++ (report
              (not (get_alloc m (hdrp bp) == 0) && not (get_alloc m (hdrp (next_blkp m bp)) == 0))
              (not_coalesced bp (next_blkp m bp))
            ++ report (ltb (get_size m bp) (dsize * 2)) (too_small bp)))

unfoldable pub check_epilogue : Mem → ℕ → List Message
check_epilogue m bp =
    report (not (get_size m (hdrp bp) == 0) || get_alloc m (hdrp bp) == 0) bad_epilogue_header

-- The walk from `bp` to the epilogue, on fuel; `none` means that the fuel ran out.
unfoldable pub check_from : Mem → ℕ → ℕ → Option (List Message)
check_from m zero bp = none
check_from m (suc fuel) bp =
    let rest = check_from m fuel (next_blkp m bp) in
    if get_size m (hdrp bp) == 0
    then some (check_epilogue m bp)
    else elim rest [ none ↦ none | some msgs ↦ some (checkblock m bp ++ msgs) ]

unfoldable pub mm_checkheap : Mem → (fuel heap_listp : ℕ) → Option (List Message)
mm_checkheap m fuel heap_listp = elim (check_from m fuel heap_listp) [
  | none ↦ none
  | some msgs ↦ some (
      report (not (get_size m (hdrp heap_listp) == dsize) || get_alloc m (hdrp heap_listp) == 0)
        bad_prologue_header
      ++ (report
            (not (get_size m (ftrp m heap_listp) == dsize) || get_alloc m (ftrp m heap_listp) == 0)
            bad_prologue_footer
          ++ (checkblock m heap_listp ++ msgs)))
]
