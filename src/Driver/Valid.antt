-- ===== src/Driver/Valid.antt =====
-- eval_mm_valid of malloclab-handout/mdriver.c, over the interface of mm.h. What mm_checkheap prints
-- in the expensive debug mode is left out.
pub mod Sound
pub mod Errors
use mar_2015_dynamic_storage.Base.{
  ℕ, zero, suc, ◌+◌, ◌%◌, ◌^◌, Bool, true, false, ◌&&◌, ◌||◌, not, List, [], ◌∷◌, Option, none,
  some, ◌==◌, ltb, if◌then◌else◌, get_or, set,
}
use mar_2015_dynamic_storage.Memlib.{mem_reset_brk}
use mar_2015_dynamic_storage.Driver.Package.{Package}
use mar_2015_dynamic_storage.Driver.Ranges.{
  Range, AddResult, added, not_aligned, outside_heap, overlaps, assertion_failed, add_range,
  remove_range, clear_ranges,
}
use mar_2015_dynamic_storage.Driver.RandomData.{fill, garbled}
use mar_2015_dynamic_storage.Driver.Trace.{
  Op, alloc, realloc, free, DebugMode, dbg_none, dbg_cheap, dbg_expensive, Trace, reinit_trace,
}

abbrev pub null : ℕ
null = 0

-- The globals that an evaluation reads: `random k` is the k-th result of `random()`.
pub record Config : Type 0 where
  pub debug_mode : DebugMode
  pub random_data : ℕ → ℕ
  pub random : ℕ → ℕ

abbrev pub is_none : DebugMode → Bool
is_none dbg_none = true
is_none dbg_cheap = false
is_none dbg_expensive = false

abbrev pub is_expensive : DebugMode → Bool
is_expensive dbg_none = false
is_expensive dbg_cheap = false
is_expensive dbg_expensive = true

module _ (pkg : Package) where
  -- What changes: the package's state, the trace's arrays, the ranges, the global `errors`, and how
  -- often `random()` has been called.
  pub record Driver : Type 0 where
    pub state : pkg.State
    pub trace : Trace
    pub ranges : List Range
    pub errors : ℕ
    pub randoms : ℕ

  -- The evaluation goes on; returns 0; stops at an assertion; or waits for a call for ever.
  pub data Outcome : Type 0 where
    running : Driver → Outcome
    invalid : Driver → Outcome
    aborted : Outcome
    hanging : Outcome

  -- `malloc_error`
  unfoldable pub malloc_error : Driver → Driver
  malloc_error d = record d { errors = d.errors + 1 }

  unfoldable pub and_then : Outcome → (Driver → Outcome) → Outcome
  and_then (running d) k = k d
  and_then (invalid d) k = invalid d
  and_then aborted k = aborted
  and_then hanging k = hanging

  module _ (cfg : Config) where
    unfoldable pub randomize_block : ℕ → Driver → Driver
    randomize_block index d =
        if is_none cfg.debug_mode
        then d
        else (let base = cfg.random d.randoms in
            let block = get_or d.trace.blocks index 0 in
            let size = get_or d.trace.block_sizes index 0 in
            record d {
              state =
                  pkg.with_mem (fill cfg.random_data block base size 0 (pkg.mem d.state)) d.state;
              trace = record (d.trace) { block_rand_base = set d.trace.block_rand_base index base };
              randoms = d.randoms + 1;
            })

    unfoldable pub check_index : ℕ → Driver → Driver
    check_index index d =
        if is_none cfg.debug_mode
        then d
        else (let block = get_or d.trace.blocks index 0 in
            let size = get_or d.trace.block_sizes index 0 in
            let base = get_or d.trace.block_rand_base index 0 in
            if garbled cfg.random_data block base size 0 (pkg.mem d.state) == 0
            then d
            else malloc_error d)

    -- the loop of the expensive mode over the ranges
    unfoldable pub check_all : List Range → Driver → Driver
    check_all [] d = d
    check_all (r ∷ rs) d = check_all rs (check_index r.index d)

    -- add_range with its error message
    unfoldable pub record_range : (p size index : ℕ) → Driver → Outcome
    record_range p size index d =
        elim (add_range (d.trace.ignore_ranges || is_none cfg.debug_mode) (pkg.sys d.state) d.ranges
          p (size % 2 ^ 32) index) [
            | added rs ↦ running (record d { ranges = rs })
            | not_aligned ↦ invalid (malloc_error d)
            | outside_heap ↦ invalid (malloc_error d)
            | overlaps ↦ invalid (malloc_error d)
            | assertion_failed ↦ aborted
          ]

    -- `trace->blocks[index] = p; trace->block_sizes[index] = size;`
    unfoldable pub remember : (index p size : ℕ) → Driver → Driver
    remember index p size d = record d {
      trace = record (d.trace) {
        blocks = set d.trace.blocks index p;
        block_sizes = set d.trace.block_sizes index size;
      };
    }

    unfoldable pub eval_alloc : (index size : ℕ) → Driver → Outcome
    eval_alloc index size d = elim (pkg.mm_malloc size d.state) [
      | none ↦ hanging
      | some (p, s) ↦
          if p == null
          then invalid (malloc_error (record d { state = s }))
          else and_then (record_range p size index (record d { state = s }))
              (λ d₁. running (randomize_block index (remember index p size d₁)))
    ]

    -- The copy is checked up to the smaller of the two sizes.
    unfoldable pub check_copy : (index newp size : ℕ) → Driver → Driver
    check_copy index newp size d =
        let old = get_or d.trace.block_sizes index 0 in
        let kept = if ltb size old then size else old in
        randomize_block index
          (remember index newp size (check_index index (remember index newp kept d)))

    unfoldable pub eval_realloc : (index size : ℕ) → Driver → Outcome
    eval_realloc index size d₀ =
        let d = check_index index d₀ in
        let oldp = get_or d.trace.blocks index 0 in
        elim (pkg.mm_realloc oldp size d.state) [
          | none ↦ hanging
          | some (newp, s) ↦
              if newp == null && not (size == 0)
              then invalid (malloc_error (record d { state = s }))
              else if not (newp == null) && size == 0
              then invalid (malloc_error (record d { state = s }))
              else (let d₁ : Driver = record d { state = s; ranges = remove_range d.ranges oldp } in
                  and_then (if ltb 0 size then record_range newp size index d₁ else running d₁)
                    (λ d₂. running (check_copy index newp size d₂)))
        ]

    unfoldable pub eval_free : Option ℕ → Driver → Outcome
    eval_free none d = running (record d { state = pkg.mm_free null d.state })
    eval_free (some index) d₀ =
        let d = check_index index d₀ in
        let p = get_or d.trace.blocks index 0 in
        running (record d { state = pkg.mm_free p d.state; ranges = remove_range d.ranges p })

    unfoldable pub eval_op : Op → Driver → Outcome
    eval_op (alloc index size) = eval_alloc index size
    eval_op (realloc index size) = eval_realloc index size
    eval_op (free index) = eval_free index

    unfoldable pub eval_ops : List Op → Driver → Outcome
    eval_ops [] d = running d
    eval_ops (op ∷ ops) d =
        let checked = if is_expensive cfg.debug_mode then check_all d.ranges d else d in
        and_then (eval_op op checked) (eval_ops ops)

    -- The driver ends in `running` where the code returns 1.
    unfoldable pub eval_mm_valid : Driver → Outcome
    eval_mm_valid d =
        let reset = pkg.with_sys (mem_reset_brk (pkg.sys d.state)) d.state in
        let (done, s) = pkg.mm_init reset in
        let d₁ : Driver = record d {
          state = s;
          trace = reinit_trace d.trace;
          ranges = clear_ranges d.ranges;
        } in
        if done then eval_ops d.trace.ops d₁ else invalid (malloc_error d₁)
