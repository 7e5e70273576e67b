-- ===== src/Driver/Util.antt =====
-- eval_mm_util of malloclab-handout/mdriver.c: a trace is run, and the high-water mark of the bytes
-- that are allocated is kept. Its `int`s are bit patterns. The result is the pair of numbers of
-- which the code returns the quotient.
pub mod Highwater
use mar_2015_dynamic_storage.Base.{
  ℕ, ◌+◌, ◌-◌, ◌%◌, ◌^◌, Bool, ◌&&◌, not, List, [], ◌∷◌, Option, none, some, ◌==◌, if◌then◌else◌,
  get_or, set,
}
use mar_2015_dynamic_storage.Machine.Word.{to_int, to_size_t, lt_int}
use mar_2015_dynamic_storage.Memlib.{mem_reset_brk, mem_heapsize}
use mar_2015_dynamic_storage.Driver.Package.{Package}
use mar_2015_dynamic_storage.Driver.Result.{Result, done, app_error, hanging, bind}
use mar_2015_dynamic_storage.Driver.Trace.{Op, alloc, realloc, free, Trace, reinit_trace}

module _ (pkg : Package) where
  -- the package's state, the trace's arrays, and the two locals that the loop carries
  pub record Util : Type 0 where
    pub state : pkg.State
    pub blocks : List ℕ
    pub block_sizes : List ℕ
    pub total_size : ℕ
    pub max_total_size : ℕ

  unfoldable pub util_alloc : (index size : ℕ) → Util → Result Util
  util_alloc index size u = elim (pkg.mm_malloc (to_size_t size) u.state) [
    | none ↦ hanging
    | some (p, s) ↦
        if p == 0
        then app_error
        else done (record u {
          state = s;
          blocks = set u.blocks index p;
          block_sizes = set u.block_sizes index (to_size_t size);
          total_size = (u.total_size + size) % 2 ^ 32;
        })
  ]

  unfoldable pub util_realloc : (index newsize : ℕ) → Util → Result Util
  util_realloc index newsize u =
      let oldsize = to_int (get_or u.block_sizes index 0) in
      elim (pkg.mm_realloc (get_or u.blocks index 0) (to_size_t newsize) u.state) [
        | none ↦ hanging
        | some (newp, s) ↦
            if newp == 0 && not (newsize == 0)
            then app_error
            else done (record u {
              state = s;
              blocks = set u.blocks index newp;
              block_sizes = set u.block_sizes index (to_size_t newsize);
              total_size = (u.total_size + newsize + 2 ^ 32 - oldsize) % 2 ^ 32;
            })
      ]

  unfoldable pub util_free : Option ℕ → Util → Result Util
  util_free none u = done (record u { state = pkg.mm_free 0 u.state })
  util_free (some index) u =
      let size = to_int (get_or u.block_sizes index 0) in
      done (record u {
        state = pkg.mm_free (get_or u.blocks index 0) u.state;
        total_size = (u.total_size + 2 ^ 32 - size) % 2 ^ 32;
      })

  unfoldable pub util_op : Op → Util → Result Util
  util_op (alloc index size) u = util_alloc index (to_int size) u
  util_op (realloc index size) u = util_realloc index (to_int size) u
  util_op (free index) u = util_free index u

  -- the last statement of the loop's body
  unfoldable pub raise_max : Util → Util
  raise_max u = record u {
    max_total_size =
        if lt_int u.max_total_size u.total_size then u.total_size else u.max_total_size;
  }

  unfoldable pub util_ops : List Op → Util → Result Util
  util_ops [] u = done u
  util_ops (op ∷ ops) u = bind (util_op op u) (λ u₁. util_ops ops (raise_max u₁))

  -- the state before the first request, or `app_error`
  unfoldable pub start : Trace → pkg.State → Result Util
  start trace s =
      let t = reinit_trace trace in
      let (ok, s₁) = pkg.mm_init (pkg.with_sys (mem_reset_brk (pkg.sys s)) s) in
      if ok
      then done (record {
        state = s₁;
        blocks = t.blocks;
        block_sizes = t.block_sizes;
        total_size = 0;
        max_total_size = 0;
      })
      else app_error

  -- `max_total_size` and `mem_heapsize()`, and the state
  unfoldable pub eval_mm_util : Trace → pkg.State → Result ((ℕ × ℕ) × Util)
  eval_mm_util trace s = bind (start trace s) (λ u.
      bind (util_ops trace.ops u)
        (λ u₁. done ((u₁.max_total_size, mem_heapsize (pkg.sys u₁.state)), u₁)))
