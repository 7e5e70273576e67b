-- ===== src/Seg/Check/Verbose.antt =====
-- printblock and mm_checkheap with `verbose` of mm-segregated list(97:100)/mm.c: what they print, line by line.
-- printblock runs mm_checkheap once more for each block.
use mar_2015_dynamic_storage.Base.{
  ℕ, zero, suc, ◌≡◌, ◌||◌, Bool, not, List, [], ◌∷◌, ◌++◌, map, Option, none, some, ◌==◌,
  if◌then◌else◌, refl, Bool-cases, Option-cases, inl, inr, arith,
}
use mar_2015_dynamic_storage.Machine.Memory.{Mem}
use mar_2015_dynamic_storage.Blocks.{dsize, get_size, get_alloc, hdrp, ftrp, next_blkp}
use mar_2015_dynamic_storage.Seg.Check.{
  Message, bad_prologue_header, bad_prologue_footer, report, checkblock, check_epilogue, check_from,
  mm_checkheap,
}

-- A letter is 'a' where the flag is set, and 'f' otherwise.
pub data Line : Type 0 where
  message : Message → Line
  heap : ℕ → Line
  end_of_list : ℕ → Line
  block : (bp hsize : ℕ) (halloc : Bool) (fsize : ℕ) (falloc : Bool) → Line

-- the last part of printblock
unfoldable pub block_line : Mem → ℕ → Line
block_line m bp =
    if get_size m (hdrp bp) == 0
    then end_of_list bp
    else block bp (get_size m (hdrp bp)) (not (get_alloc m (hdrp bp) == 0)) (get_size m (ftrp m bp))
        (not (get_alloc m (ftrp m bp) == 0))

unfoldable pub printblock : Mem → (fuel heap_listp bp : ℕ) → Option (List Line)
printblock m fuel heap_listp bp = elim (mm_checkheap m fuel heap_listp) [
  | none ↦ none
  | some msgs ↦ some (map message msgs ++ block_line m bp ∷ [])
]

-- The walk from `bp` on with `n` rounds left; `fuel` is that of the walks in printblock.
unfoldable pub print_from : Mem → (fuel heap_listp n bp : ℕ) → Option (List Line)
print_from m fuel heap_listp zero bp = none
print_from m fuel heap_listp (suc n) bp =
    let rest = print_from m fuel heap_listp n (next_blkp m bp) in
    elim (printblock m fuel heap_listp bp) [
      | none ↦ none
      | some shown ↦
          if get_size m (hdrp bp) == 0
          then some (shown ++ map message (check_epilogue m bp))
          else elim rest [
            | none ↦ none
            | some lines ↦ some (shown ++ (map message (checkblock m bp) ++ lines))
          ]
    ]

-- what mm_checkheap prints before its loop
unfoldable pub heading : Mem → (heap_listp : ℕ) → List Line
heading m heap_listp =
    heap heap_listp
    ∷ map message (
        report (not (get_size m (hdrp heap_listp) == dsize) || get_alloc m (hdrp heap_listp) == 0)
          bad_prologue_header
        ++ (report
              (not (get_size m (ftrp m heap_listp) == dsize)
                || get_alloc m (ftrp m heap_listp) == 0)
              bad_prologue_footer
            ++ checkblock m heap_listp))

unfoldable pub checkheap_verbose : Mem → (fuel heap_listp : ℕ) → Option (List Line)
checkheap_verbose m fuel heap_listp = elim (print_from m fuel heap_listp fuel heap_listp) [
  | none ↦ none
  | some lines ↦ some (heading m heap_listp ++ lines)
]

print_from-ends :
    (m : Mem) (fuel heap_listp n bp : ℕ) (checked msgs : List Message)
    → mm_checkheap m fuel heap_listp ≡ some checked
    → check_from m n bp ≡ some msgs
    → (lines : List Line) × (print_from m fuel heap_listp n bp ≡ some lines)
unfolding print_from printblock check_from
print_from-ends m fuel heap_listp zero bp checked msgs c h = cc
print_from-ends m fuel heap_listp (suc n) bp checked msgs c h =
    let shown = map message checked ++ block_line m bp ∷ [] in
    elim (Bool-cases (get_size m (hdrp bp) == 0)) [
      | inl e ↦ (shown ++ map message (check_epilogue m bp), rw (c, e, print_from, printblock) refl)
      | inr e ↦ elim (Option-cases (check_from m n (next_blkp m bp))) [
        | inl f ↦ absurd (ground (arith, h, e, f))
        | inr (rest, f) ↦
            let (lines, g) =
              print_from-ends m fuel heap_listp n (next_blkp m bp) checked rest c f in
            (
              shown ++ (map message (checkblock m bp) ++ lines),
              rw (c, e, g, print_from, printblock) refl,
            )
      ]
    ]

-- Where mm_checkheap ends, it also ends with `verbose`.
pub checkheap_verbose-ends :
    (m : Mem) (fuel heap_listp : ℕ) (msgs : List Message)
    → mm_checkheap m fuel heap_listp ≡ some msgs
    → (lines : List Line) × (checkheap_verbose m fuel heap_listp ≡ some lines)
unfolding mm_checkheap checkheap_verbose
checkheap_verbose-ends m fuel heap_listp msgs h =
    elim (Option-cases (check_from m fuel heap_listp)) [
      | inl f ↦ absurd (ground (arith, h, f))
      | inr (rest, f) ↦
          let (lines, g) = print_from-ends m fuel heap_listp fuel heap_listp msgs rest h f in
          (heading m heap_listp ++ lines, rw (g, checkheap_verbose) refl)
    ]
