-- ===== src/Driver/Valid/Errors.antt =====
-- What the verdict of eval_mm_valid says of the count of errors.
use mar_2015_dynamic_storage.Base.{
  ℕ, ◌%◌, ◌^◌, ◌≤◌, ◌<◌, ◌≡◌, refl, List, [], ◌∷◌, none, some, ◌||◌, ◌==◌, arith, if◌then◌else◌,
  Bool-cases, Option-cases, inl, inr, get_or, ltb, not, ◌&&◌,
}
use mar_2015_dynamic_storage.Memlib.{mem_reset_brk}
use mar_2015_dynamic_storage.Driver.Package.{Package}
use mar_2015_dynamic_storage.Driver.Ranges.{
  Range, AddResult, added, not_aligned, outside_heap, overlaps, assertion_failed, add_range,
  remove_range,
}
use mar_2015_dynamic_storage.Driver.RandomData.{garbled}
use mar_2015_dynamic_storage.Driver.Trace.{Op, alloc, realloc, free}
use mar_2015_dynamic_storage.Driver.Valid.{
  Config, Driver, Outcome, running, invalid, aborted, hanging, null, is_none, is_expensive,
  malloc_error, and_then, randomize_block, check_index, check_all, record_range, remember,
  check_copy, eval_alloc, eval_realloc, eval_free, eval_op, eval_ops, eval_mm_valid,
}

module _ (pkg : Package) (cfg : Config) where
  -- From `n` errors on, a run that is invalid has counted one more.
  abbrev pub Counted : ℕ → Outcome pkg → Type 0
  Counted n (running d) = n ≤ d.errors
  Counted n (invalid d) = n < d.errors
  Counted n aborted = Unit
  Counted n hanging = Unit

  Counted-trans : (m n : ℕ) (o : Outcome pkg) → m ≤ n → Counted n o → Counted m o
  Counted-trans m n (running d) l h = omega arith
  Counted-trans m n (invalid d) l h = omega arith
  Counted-trans m n aborted l h = tt
  Counted-trans m n hanging l h = tt

  Counted-and_then :
      (n : ℕ) (o : Outcome pkg) (k : Driver pkg → Outcome pkg)
      → Counted n o
      → ((d : Driver pkg) → Counted d.errors (k d))
      → Counted n (and_then pkg o k)
  unfolding and_then
  Counted-and_then n (running d) k h f = Counted-trans n d.errors (k d) h (f d)
  Counted-and_then n (invalid d) k h f = h
  Counted-and_then n aborted k h f = tt
  Counted-and_then n hanging k h f = tt

  randomize_block-errors :
      (index : ℕ) (d : Driver pkg) → (randomize_block pkg cfg index d).errors ≡ d.errors
  unfolding randomize_block
  randomize_block-errors index d = elim (Bool-cases (is_none cfg.debug_mode)) [
    | inl e ↦ rw e refl
    | inr e ↦ rw e refl
  ]

  check_index-errors :
      (index : ℕ) (d : Driver pkg) → d.errors ≤ (check_index pkg cfg index d).errors
  unfolding check_index malloc_error
  check_index-errors index d = elim (Bool-cases (is_none cfg.debug_mode)) [
    | inl e ↦ rw e (omega arith)
    | inr e ↦
        elim (Bool-cases (
          garbled cfg.random_data (get_or d.trace.blocks index 0)
            (get_or d.trace.block_rand_base index 0) (get_or d.trace.block_sizes index 0) 0
            (pkg.mem d.state)
          == 0)) [ inl f ↦ rw (e, f) (omega arith) | inr f ↦ rw (e, f) (omega arith) ]
  ]

  check_all-errors : (rs : List Range) (d : Driver pkg) → d.errors ≤ (check_all pkg cfg rs d).errors
  unfolding check_all
  check_all-errors [] d = omega arith
  check_all-errors (r ∷ rs) d =
      omega
        (arith, check_index-errors r.index d, check_all-errors rs (check_index pkg cfg r.index d))

  record_range-Counted :
      (p size index : ℕ) (d : Driver pkg) → Counted d.errors (record_range pkg cfg p size index d)
  unfolding record_range malloc_error
  record_range-Counted p size index d =
      go
        (add_range (d.trace.ignore_ranges || is_none cfg.debug_mode) (pkg.sys d.state) d.ranges p
          (size % 2 ^ 32) index)
        refl
    where
      go :
          (r : AddResult)
          → add_range
              (d.trace.ignore_ranges || is_none cfg.debug_mode)
              (pkg.sys d.state)
              d.ranges
              p
              (size % 2 ^ 32)
              index
            ≡ r
          → Counted d.errors (record_range pkg cfg p size index d)
      go (added rs) e = rw (e, Counted) (omega arith)
      go not_aligned e = rw (e, Counted) (omega arith)
      go outside_heap e = rw (e, Counted) (omega arith)
      go overlaps e = rw (e, Counted) (omega arith)
      go assertion_failed e = rw (e, Counted) tt

  eval_alloc-Counted :
      (index size : ℕ) (d : Driver pkg) → Counted d.errors (eval_alloc pkg cfg index size d)
  unfolding eval_alloc remember malloc_error
  eval_alloc-Counted index size d = elim (Option-cases (pkg.mm_malloc size d.state)) [
    | inl e ↦ rw (e, Counted) tt
    | inr ((p, s), e) ↦
        rw (e, Counted)
          (elim (Bool-cases (p == null)) [
            | inl h ↦ rw h (omega arith)
            | inr h ↦ rw h (
                Counted-and_then d.errors
                  (record_range pkg cfg p size index (record d { state = s })) _
                  (record_range-Counted p size index (record d { state = s }))
                  (λ d₁.
                    omega (arith, randomize_block-errors index (remember pkg cfg index p size d₁))))
          ])
  ]

  check_copy-errors :
      (index newp size : ℕ) (d : Driver pkg)
      → d.errors ≤ (check_copy pkg cfg index newp size d).errors
  unfolding check_copy remember
  check_copy-errors index newp size d =
      let kept =
        if ltb size (get_or d.trace.block_sizes index 0)
        then size
        else get_or d.trace.block_sizes index 0 in
      let d₁ = check_index pkg cfg index (remember pkg cfg index newp kept d) in
      omega (
        arith,
        check_index-errors index (remember pkg cfg index newp kept d),
        randomize_block-errors index (remember pkg cfg index newp size d₁),
      )

  eval_realloc-Counted :
      (index size : ℕ) (d : Driver pkg) → Counted d.errors (eval_realloc pkg cfg index size d)
  unfolding eval_realloc malloc_error
  eval_realloc-Counted index size d₀ =
      let d = check_index pkg cfg index d₀ in
      let oldp = get_or d.trace.blocks index 0 in
      let low = check_index-errors index d₀ in
      elim (Option-cases (pkg.mm_realloc oldp size d.state)) [
        | inl e ↦ rw (e, Counted) tt
        | inr ((newp, s), e) ↦
            let d₁ : Driver pkg = record d { state = s; ranges = remove_range d.ranges oldp } in
            rw (e, Counted)
              (elim (Bool-cases (newp == null && not (size == 0))) [
                | inl h ↦ rw h (omega (arith, low))
                | inr h ↦ rw h (elim (Bool-cases (not (newp == null) && size == 0)) [
                  | inl k ↦ rw k (omega (arith, low))
                  | inr k ↦ rw k (
                      Counted-and_then d₀.errors
                        (if ltb 0 size then record_range pkg cfg newp size index d₁ else running d₁)
                        _
                        (elim (Bool-cases (ltb 0 size)) [
                          | inl t ↦ rw t (
                              Counted-trans d₀.errors d₁.errors
                                (record_range pkg cfg newp size index d₁) low
                                (record_range-Counted newp size index d₁))
                          | inr t ↦ rw t low
                        ])
                        (λ d₂. check_copy-errors index newp size d₂))
                ])
              ])
      ]

  eval_op-Counted : (op : Op) (d : Driver pkg) → Counted d.errors (eval_op pkg cfg op d)
  unfolding eval_op eval_free
  eval_op-Counted (alloc index size) d = eval_alloc-Counted index size d
  eval_op-Counted (realloc index size) d = eval_realloc-Counted index size d
  eval_op-Counted (free none) d = omega arith
  eval_op-Counted (free (some index)) d = check_index-errors index d

  eval_ops-Counted : (ops : List Op) (d : Driver pkg) → Counted d.errors (eval_ops pkg cfg ops d)
  unfolding eval_ops
  eval_ops-Counted [] d = omega arith
  eval_ops-Counted (op ∷ ops) d =
      Counted-and_then d.errors (eval_op pkg cfg op _) (eval_ops pkg cfg ops)
        (Counted-trans d.errors _ (eval_op pkg cfg op _)
          (elim (Bool-cases (is_expensive cfg.debug_mode)) [
            | inl e ↦ rw e (check_all-errors d.ranges d)
            | inr e ↦ rw e (omega arith)
          ])
          (eval_op-Counted op _))
        (λ d₁. eval_ops-Counted ops d₁)

  -- On every trace and for every package, where eval_mm_valid returns 0 it has raised the count of errors, and where it
  -- returns 1 it has not lowered it.
  pub eval_mm_valid-errors : (d : Driver pkg) → Counted d.errors (eval_mm_valid pkg cfg d)
  unfolding eval_mm_valid malloc_error
  eval_mm_valid-errors d =
      elim (Bool-cases (pkg.mm_init (pkg.with_sys (mem_reset_brk (pkg.sys d.state)) d.state)).0) [
        | inl e ↦ rw e (eval_ops-Counted d.trace.ops _)
        | inr e ↦ rw e (omega arith)
      ]
