-- ===== src/Driver/Valid/Sound.antt =====
-- What the verdict of eval_mm_valid says of the payloads.
use mar_2015_dynamic_storage.Base.{
  ℕ, ◌%◌, ◌^◌, ◌≡◌, refl, Bool, List, [], ◌∷◌, none, some, ◌||◌, ◌==◌, arith, if◌then◌else◌, subst,
  ◌∙◌, Option-cases, Bool-cases, inl, inr, get_or, ltb, not, ◌&&◌,
}
use mar_2015_dynamic_storage.Memlib.{mem_reset_brk}
use mar_2015_dynamic_storage.Driver.Package.{Package}
use mar_2015_dynamic_storage.Driver.Ranges.{
  Range, AddResult, added, not_aligned, outside_heap, overlaps, assertion_failed, add_range,
  clear_ranges, remove_range,
}
use mar_2015_dynamic_storage.Driver.Ranges.Separated.{
  Separated, add_range-Separated, remove_range-Separated,
}
use mar_2015_dynamic_storage.Driver.Trace.{Op, alloc, realloc, free}
use mar_2015_dynamic_storage.Driver.Valid.{
  Config, Driver, Outcome, running, invalid, aborted, hanging, null, is_none, is_expensive,
  malloc_error, and_then, randomize_block, check_index, check_all, record_range, remember,
  check_copy, eval_alloc, eval_realloc, eval_free, eval_op, eval_ops, eval_mm_valid,
}

module _ (pkg : Package) (cfg : Config) where
  -- the ranges of an evaluation that goes on
  abbrev pub Good : Driver pkg → Type 0
  Good d = Separated d.ranges

  abbrev pub Holds : Outcome pkg → Type 0
  Holds (running d) = Good d
  Holds (invalid d) = Unit
  Holds aborted = Unit
  Holds hanging = Unit

  Holds-and_then :
      (o : Outcome pkg) (k : Driver pkg → Outcome pkg)
      → Holds o
      → ((d : Driver pkg) → Good d → Holds (k d))
      → Holds (and_then pkg o k)
  unfolding and_then
  Holds-and_then (running d) k h f = f d h
  Holds-and_then (invalid d) k h f = tt
  Holds-and_then aborted k h f = tt
  Holds-and_then hanging k h f = tt

  ranges-check_index : (i : ℕ) (d : Driver pkg) → (check_index pkg cfg i d).ranges ≡ d.ranges
  unfolding check_index malloc_error
  ranges-check_index i d = ground arith

  ranges-randomize_block :
      (i : ℕ) (d : Driver pkg) → (randomize_block pkg cfg i d).ranges ≡ d.ranges
  unfolding randomize_block
  ranges-randomize_block i d = ground arith

  ranges-check_all : (rs : List Range) (d : Driver pkg) → (check_all pkg cfg rs d).ranges ≡ d.ranges
  unfolding check_all
  ranges-check_all [] d = refl
  ranges-check_all (r ∷ rs) d =
      rw (ranges-check_all rs (check_index pkg cfg r.index d)) (ranges-check_index r.index d)

  record_range-Holds :
      (p size index : ℕ) (d : Driver pkg) → Good d → Holds (record_range pkg cfg p size index d)
  unfolding record_range
  record_range-Holds p size index d g = go _ refl
    where
      unchecked : Bool
      unchecked = d.trace.ignore_ranges || is_none cfg.debug_mode

      result : AddResult
      result = add_range unchecked (pkg.sys d.state) d.ranges p (size % 2 ^ 32) index

      go : (r : AddResult) → result ≡ r → Holds (record_range pkg cfg p size index d)
      go (added rs) e =
          rw (e, Holds)
            (add_range-Separated unchecked (pkg.sys d.state) d.ranges p (size % 2 ^ 32) index rs g
              e)
      go not_aligned e = rw (e, Holds) tt
      go outside_heap e = rw (e, Holds) tt
      go overlaps e = rw (e, Holds) tt
      go assertion_failed e = rw (e, Holds) tt

  eval_alloc-Holds :
      (index size : ℕ) (d : Driver pkg) → Good d → Holds (eval_alloc pkg cfg index size d)
  unfolding eval_alloc remember
  eval_alloc-Holds index size d g = elim (Option-cases (pkg.mm_malloc size d.state)) [
    | inl e ↦ rw (e, Holds) tt
    | inr ((p, s), e) ↦
        rw (e, Holds)
          (elim (Bool-cases (p == null)) [
            | inl h ↦ rw h tt
            | inr h ↦ rw h (
                Holds-and_then (record_range pkg cfg p size index (record d { state = s })) _
                  (record_range-Holds p size index (record d { state = s }) g)
                  (λ d₁ g₁.
                    rw (ranges-randomize_block index (remember pkg cfg index p size d₁)) g₁))
          ])
  ]

  ranges-check_copy :
      (index newp size : ℕ) (d : Driver pkg)
      → (check_copy pkg cfg index newp size d).ranges ≡ d.ranges
  unfolding check_copy remember
  ranges-check_copy index newp size d = ranges-randomize_block index _ ∙ ranges-check_index index _

  eval_realloc-Holds :
      (index size : ℕ) (d : Driver pkg) → Good d → Holds (eval_realloc pkg cfg index size d)
  unfolding eval_realloc
  eval_realloc-Holds index size d₀ g₀ =
      let d = check_index pkg cfg index d₀ in
      let oldp = get_or d.trace.blocks index 0 in
      let g : Good d = rw (ranges-check_index index d₀) g₀ in
      elim (Option-cases (pkg.mm_realloc oldp size d.state)) [
        | inl e ↦ rw (e, Holds) tt
        | inr ((newp, s), e) ↦
            let d₁ : Driver pkg = record d { state = s; ranges = remove_range d.ranges oldp } in
            let g₁ = remove_range-Separated d.ranges oldp g in
            rw (e, Holds)
              (elim (Bool-cases (newp == null && not (size == 0))) [
                | inl h ↦ rw h tt
                | inr h ↦ rw h (elim (Bool-cases (not (newp == null) && size == 0)) [
                  | inl k ↦ rw k tt
                  | inr k ↦ rw k (
                      Holds-and_then
                        (if ltb 0 size then record_range pkg cfg newp size index d₁ else running d₁)
                        _
                        (elim (Bool-cases (ltb 0 size)) [
                          | inl t ↦ rw t (record_range-Holds newp size index d₁ g₁)
                          | inr t ↦ rw t g₁
                        ])
                        (λ d₂ g₂. rw (ranges-check_copy index newp size d₂) g₂))
                ])
              ])
      ]

  eval_op-Holds : (op : Op) (d : Driver pkg) → Good d → Holds (eval_op pkg cfg op d)
  unfolding eval_op eval_free
  eval_op-Holds (alloc index size) d g = eval_alloc-Holds index size d g
  eval_op-Holds (realloc index size) d g = eval_realloc-Holds index size d g
  eval_op-Holds (free none) d g = g
  eval_op-Holds (free (some index)) d g =
      remove_range-Separated (check_index pkg cfg index d).ranges
        (get_or (check_index pkg cfg index d).trace.blocks index 0)
        (rw (ranges-check_index index d) g)

  eval_ops-Holds : (ops : List Op) (d : Driver pkg) → Good d → Holds (eval_ops pkg cfg ops d)
  unfolding eval_ops
  eval_ops-Holds [] d g = g
  eval_ops-Holds (op ∷ ops) d g =
      Holds-and_then (eval_op pkg cfg op _) (eval_ops pkg cfg ops)
        (eval_op-Holds op _ (elim (Bool-cases (is_expensive cfg.debug_mode)) [
          | inl e ↦ rw (e, ranges-check_all d.ranges d) g
          | inr e ↦ rw e g
        ]))
        (eval_ops-Holds ops)

  eval_mm_valid-Holds : (d : Driver pkg) → Holds (eval_mm_valid pkg cfg d)
  unfolding eval_mm_valid clear_ranges
  eval_mm_valid-Holds d =
      let reset = pkg.with_sys (mem_reset_brk (pkg.sys d.state)) d.state in
      elim (Bool-cases (pkg.mm_init reset).0) [
        | inl e ↦ rw e (eval_ops-Holds d.trace.ops _ tt)
        | inr e ↦ rw e tt
      ]

  -- When eval_mm_valid returns 1, every range that it still holds is aligned and not empty, and each
  -- is, for every older one, either disjoint from it or strictly around it.
  pub eval_mm_valid-Separated :
      (d d' : Driver pkg) → eval_mm_valid pkg cfg d ≡ running d' → Separated d'.ranges
  eval_mm_valid-Separated d d' e = subst Holds e (eval_mm_valid-Holds d)
