-- ===== src/Driver/Libc.antt =====
-- eval_libc_valid and eval_libc_speed of malloclab-handout/mdriver.c: a trace on the C library's package,
-- which is a parameter. `unix_error` ends the program as `app_error` does.
pub mod Same
use mar_2015_dynamic_storage.Base.{
  ℕ, Bool, ◌&&◌, not, List, [], ◌∷◌, Option, none, some, ◌==◌, if◌then◌else◌, get_or, set,
}
use mar_2015_dynamic_storage.Machine.Word.{to_int, to_size_t}
use mar_2015_dynamic_storage.Driver.Result.{Result, done, app_error, bind}
use mar_2015_dynamic_storage.Driver.Trace.{Op, alloc, realloc, free, Trace, reinit_trace}

-- malloc, realloc and free of the C library
pub record LibraryPackage : Type 1 where
  pub State : Type 0
  pub lib_malloc : ℕ → State → ℕ × State
  pub lib_realloc : ℕ → ℕ → State → ℕ × State
  pub lib_free : ℕ → State → State

module _ (lib : LibraryPackage) where
  -- the library's state and `trace->blocks`
  pub record Run : Type 0 where
    pub state : lib.State
    pub blocks : List ℕ

  -- The size is passed as it stands in the trace.
  unfoldable pub valid_alloc : (index size : ℕ) → Run → Result Run
  valid_alloc index size r =
      let (p, s) = lib.lib_malloc size r.state in
      if p == 0 then app_error else done (record { state = s; blocks = set r.blocks index p })

  unfoldable pub libc_realloc : (index newsize : ℕ) → Run → Result Run
  libc_realloc index newsize r =
      let (newp, s) = lib.lib_realloc (get_or r.blocks index 0) (to_size_t newsize) r.state in
      if newp == 0 && not (newsize == 0)
      then app_error
      else done (record { state = s; blocks = set r.blocks index newp })

  unfoldable pub libc_free : Option ℕ → Run → Result Run
  libc_free none r = done (record r { state = lib.lib_free 0 r.state })
  libc_free (some index) r =
      done (record r { state = lib.lib_free (get_or r.blocks index 0) r.state })

  unfoldable pub valid_op : Op → Run → Result Run
  valid_op (alloc index size) r = valid_alloc index size r
  valid_op (realloc index size) r = libc_realloc index (to_int size) r
  valid_op (free index) r = libc_free index r

  unfoldable pub valid_ops : List Op → Run → Result Run
  valid_ops [] r = done r
  valid_ops (op ∷ ops) r = bind (valid_op op r) (valid_ops ops)

  -- The result 1 of the function is a run that is done.
  unfoldable pub eval_libc_valid : Trace → lib.State → Result Run
  eval_libc_valid trace s =
      valid_ops trace.ops (record { state = s; blocks = (reinit_trace trace).blocks })

  -- `size` is an `int` here.
  unfoldable pub libc_speed_alloc : (index size : ℕ) → Run → Result Run
  libc_speed_alloc index size r =
      let (p, s) = lib.lib_malloc (to_size_t size) r.state in
      if p == 0 then app_error else done (record { state = s; blocks = set r.blocks index p })

  unfoldable pub libc_speed_op : Op → Run → Result Run
  libc_speed_op (alloc index size) r = libc_speed_alloc index (to_int size) r
  libc_speed_op (realloc index size) r = libc_realloc index (to_int size) r
  libc_speed_op (free index) r = libc_free index r

  unfoldable pub libc_speed_ops : List Op → Run → Result Run
  libc_speed_ops [] r = done r
  libc_speed_ops (op ∷ ops) r = bind (libc_speed_op op r) (libc_speed_ops ops)

  unfoldable pub eval_libc_speed : Trace → lib.State → Result Run
  eval_libc_speed trace s =
      libc_speed_ops trace.ops (record { state = s; blocks = (reinit_trace trace).blocks })
