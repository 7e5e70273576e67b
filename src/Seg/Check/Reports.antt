-- ===== src/Seg/Check/Reports.antt =====
-- When checkblock of mm-segregated list(97:100)/mm.c reports nothing.
use mar_2015_dynamic_storage.Base.{
  ℕ, ◌%◌, ◌≤◌, ◌≡◌, ◌↔◌, ◌⊎◌, refl, Bool, true, false, not, ◌&&◌, List, [], ◌++◌, ◌==◌, ltb, arith,
}
use mar_2015_dynamic_storage.Machine.Memory.{Mem, get}
use mar_2015_dynamic_storage.Blocks.{get_size, get_alloc, hdrp, ftrp, next_blkp}
use mar_2015_dynamic_storage.Seg.Check.{
  Message, not_aligned, footer_mismatch, not_coalesced, too_small, report, checkblock,
}

report_iff :
    (test : Bool) (msg : Message) (rest : List Message)
    → (report test msg ++ rest ≡ []) ↔ ((test ≡ false) × (rest ≡ []))
report_iff true msg rest = (λ e. ground arith, λ e. ground arith)
report_iff false msg rest = (λ e. (refl, e), λ e. e.1)

report_alone_iff : (test : Bool) (msg : Message) → (report test msg ≡ []) ↔ (test ≡ false)
report_alone_iff true msg = (λ e. ground arith, λ e. ground arith)
report_alone_iff false msg = (λ e. refl, λ e. refl)

-- checkblock is silent exactly if the block is aligned, the words of its header and footer agree, not
-- both it and the next block are allocated, and the word at its payload, read as a header, gives a
-- size of at least 16. A free block after a free one is not reported.
pub checkblock_iff :
    (m : Mem) (bp : ℕ)
    → (checkblock m bp ≡ []) ↔ (
        (bp % 8 ≡ 0)
        × (get m (hdrp bp) ≡ get m (ftrp m bp))
        × ((get_alloc m (hdrp bp) ≡ 0) ⊎ (get_alloc m (hdrp (next_blkp m bp)) ≡ 0))
        × (16 ≤ get_size m bp))
unfolding checkblock
checkblock_iff m bp =
    let next = next_blkp m bp in
    let small = report (ltb (get_size m bp) 16) (too_small bp) in
    let both = not (get_alloc m (hdrp bp) == 0) && not (get_alloc m (hdrp next) == 0) in
    let third = report_iff both (not_coalesced bp next) small in
    let differ = not (get m (hdrp bp) == get m (ftrp m bp)) in
    let second = report_iff differ footer_mismatch (report both (not_coalesced bp next) ++ small) in
    let first =
      report_iff (not (bp % 8 == 0)) (not_aligned bp)
        (report differ footer_mismatch ++ (report both (not_coalesced bp next) ++ small)) in
    let fourth = report_alone_iff (ltb (get_size m bp) 16) (too_small bp) in
    (
      λ e.
          let (e₁, r₁) = first.0 e in
          let (e₂, r₂) = second.0 r₁ in
          let (e₃, r₃) = third.0 r₂ in
          let e₄ = fourth.0 r₃ in
          (ground (arith, e₁), ground (arith, e₂), ground (arith, e₃), ground (arith, e₄)),
      λ (a, b, c, d).
          let r₂ = third.1 (ground (arith, c), fourth.1 (ground (arith, d))) in
          let r₁ = second.1 (ground (arith, b), r₂) in first.1 (ground (arith, a), r₁),
    )
