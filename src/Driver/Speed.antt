-- ===== src/Driver/Speed.antt =====
-- eval_mm_speed of malloclab-handout/mdriver.c: the run of a trace that is timed.
pub mod Same
use mar_2015_dynamic_storage.Base.{
  ℕ, Bool, ◌&&◌, not, List, [], ◌∷◌, Option, none, some, ◌==◌, if◌then◌else◌, get_or, set,
}
use mar_2015_dynamic_storage.Machine.Word.{to_int, to_size_t}
use mar_2015_dynamic_storage.Memlib.{mem_reset_brk}
use mar_2015_dynamic_storage.Driver.Package.{Package}
use mar_2015_dynamic_storage.Driver.Result.{Result, done, app_error, hanging, bind}
use mar_2015_dynamic_storage.Driver.Trace.{Op, alloc, realloc, free, Trace, reinit_trace}

module _ (pkg : Package) where
  pub record Speed : Type 0 where
    pub state : pkg.State
    pub blocks : List ℕ

  unfoldable pub speed_alloc : (index size : ℕ) → Speed → Result Speed
  speed_alloc index size r = elim (pkg.mm_malloc (to_size_t size) r.state) [
    | none ↦ hanging
    | some (p, s) ↦
        if p == 0 then app_error else done (record { state = s; blocks = set r.blocks index p })
  ]

  unfoldable pub speed_realloc : (index newsize : ℕ) → Speed → Result Speed
  speed_realloc index newsize r =
      elim (pkg.mm_realloc (get_or r.blocks index 0) (to_size_t newsize) r.state) [
        | none ↦ hanging
        | some (newp, s) ↦
            if newp == 0 && not (newsize == 0)
            then app_error
            else done (record { state = s; blocks = set r.blocks index newp })
      ]

  unfoldable pub speed_free : Option ℕ → Speed → Result Speed
  speed_free none r = done (record r { state = pkg.mm_free 0 r.state })
  speed_free (some index) r =
      done (record r { state = pkg.mm_free (get_or r.blocks index 0) r.state })

  unfoldable pub speed_op : Op → Speed → Result Speed
  speed_op (alloc index size) r = speed_alloc index (to_int size) r
  speed_op (realloc index size) r = speed_realloc index (to_int size) r
  speed_op (free index) r = speed_free index r

  unfoldable pub speed_ops : List Op → Speed → Result Speed
  speed_ops [] r = done r
  speed_ops (op ∷ ops) r = bind (speed_op op r) (speed_ops ops)

  unfoldable pub eval_mm_speed : Trace → pkg.State → Result Speed
  eval_mm_speed trace s =
      let t = reinit_trace trace in
      let (ok, s₁) = pkg.mm_init (pkg.with_sys (mem_reset_brk (pkg.sys s)) s) in
      if ok then speed_ops trace.ops (record { state = s₁; blocks = t.blocks }) else app_error
