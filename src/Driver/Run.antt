-- ===== src/Driver/Run.antt =====
-- run_tests of malloclab-handout/mdriver.c: the package is tested on one trace after the other. What mmap
-- gives, the files, the alarm and the measurement of fsecs are parameters; what `verbose` prints is left out.
pub mod Errors
use mar_2015_dynamic_storage.Base.{
  ℕ, ◌-◌, ◌^◌, Bool, true, false, List, [], ◌∷◌, ◌++◌, Option, none, some, ltb, if◌then◌else◌,
}
use mar_2015_dynamic_storage.Machine.Memory.{Mem}
use mar_2015_dynamic_storage.Memlib.{mem_init}
use mar_2015_dynamic_storage.Machine.Doubles.{Doubles}
use mar_2015_dynamic_storage.Driver.Stats.{Stats}
use mar_2015_dynamic_storage.Driver.Package.{Package}
use mar_2015_dynamic_storage.Driver.Ranges.{Range}
use mar_2015_dynamic_storage.Driver.Result.{Result, done, app_error, hanging}
use mar_2015_dynamic_storage.Driver.Trace.{Trace}
use mar_2015_dynamic_storage.Driver.Read.{
  Scanner, ReadResult, parsed, unix_error, bad_weight, bad_ignore_ranges, bogus_type,
  assertion_failed, out_of_fuel, read_trace,
}
use mar_2015_dynamic_storage.Driver.Valid
use mar_2015_dynamic_storage.Driver.Valid.{Config, Driver, Outcome, running, invalid, eval_mm_valid}
use mar_2015_dynamic_storage.Driver.Util.{Util, eval_mm_util}
use mar_2015_dynamic_storage.Driver.Speed.{Speed, eval_mm_speed}

-- The conversion of an `int`, given as a bit pattern.
unfoldable pub int_value : (num : Doubles) → ℕ → num.Double
int_value num w =
    if ltb w (2 ^ 31) then num.of_int w else num.minus (num.of_int 0) (num.of_int (2 ^ 32 - w))

module _ (sc : Scanner) (pkg : Package) (num : Doubles) (cfg : Config) where
  open num use {Double, of_int, over}

  -- what changes from one trace to the next
  pub record Tests : Type 0 where
    pub state : pkg.State
    pub ranges : List Range
    pub errors : ℕ
    pub randoms : ℕ
    pub timed_out : Bool
    pub stats : List (Stats num)

  -- One trace file, with the arguments of read_trace; where mmap maps and what the memory holds then; and, if the
  -- alarm goes off during this trace, the package's state, the ranges and the calls of random() at that time.
  pub record Input : Type 0 where
    pub filename : List ℕ
    pub opened : Option sc.File
    pub fails : ℕ → Bool
    pub left : ℕ → ℕ
    pub size₀ : ℕ
    pub fuel : ℕ
    pub mapped : ℕ
    pub fresh : Mem
    pub alarm : Option (pkg.State × List Range × ℕ)

  -- All traces are done, or one with onetime_flag; the program has ended; or a call does not return.
  pub data Ended : Type 0 where
    finished : Tests → Ended
    exited : Ended
    waiting : Ended

  -- `mem_init`
  unfoldable pub map_heap : Input → Tests → Tests
  map_heap i s = record s {
    state = pkg.with_mem i.fresh (pkg.with_sys (mem_init i.mapped (pkg.sys s.state)) s.state);
  }

  -- timeout_handler, and the return of setjmp after it
  unfoldable pub handle_alarm : Input → Tests → Tests
  handle_alarm i s = elim i.alarm [
    | none ↦ s
    | some (state, ranges, randoms) ↦ record s {
      state = state;
      ranges = ranges;
      randoms = randoms;
      errors = 1;
      timed_out = true;
    }
  ]

  unfoldable pub new_stats : Input → (weight num_ops : ℕ) → Bool → (secs util : Double) → Stats num
  new_stats i weight num_ops valid secs util = record {
    filename = i.filename;
    weight = weight;
    ops = int_value num num_ops;
    valid = valid;
    secs = secs;
    util = util;
  }

  abbrev pub note : Stats num → Tests → Tests
  note x s = record s { stats = s.stats ++ x ∷ [] }

  abbrev pub driver : Trace → Tests → Driver pkg
  driver trace s = record {
    state = s.state;
    trace = trace;
    ranges = s.ranges;
    errors = s.errors;
    randoms = s.randoms;
  }

  abbrev pub after : Driver pkg → Tests → Tests
  after d s = record s {
    state = d.state;
    ranges = d.ranges;
    errors = d.errors;
    randoms = d.randoms;
  }

  abbrev pub unmeasured : Input → (weight num_ops : ℕ) → Bool → Tests → Tests
  unmeasured i weight num_ops valid s =
      note (new_stats i weight num_ops valid (of_int 0) (of_int 0)) s

  module _
      (fsecs : (pkg.State → Result (Speed pkg)) → pkg.State → Result (Double × pkg.State)) where
    -- `if (mm_stats[i].valid)`, and the end of the round
    unfoldable pub measure : Input → (weight num_ops : ℕ) → Trace → Tests → Ended
    measure i weight num_ops trace s = elim (eval_mm_util pkg trace s.state) [
      | app_error ↦ exited
      | hanging ↦ waiting
      | done (quotient, u) ↦
          let util = over (int_value num quotient.0) (of_int quotient.1) in
          elim (fsecs (eval_mm_speed pkg trace) u.state) [
            | app_error ↦ exited
            | hanging ↦ waiting
            | done (secs, state) ↦
                finished
                  (note (new_stats i weight num_ops true secs util) (record s { state = state }))
          ]
    ]

    module _ (onetime_flag : Bool) where
      -- the round after read_trace
      unfoldable pub test_trace : Input → (weight num_ops : ℕ) → Trace → Tests → Ended
      test_trace i weight num_ops trace s =
          if s.timed_out
          then finished (unmeasured i weight num_ops false s)
          else elim (eval_mm_valid pkg cfg (driver trace s)) [
            | running d ↦
                if onetime_flag
                then finished (unmeasured i weight num_ops true (after d s))
                else measure i weight num_ops trace (after d s)
            | invalid d ↦ finished (unmeasured i weight num_ops false (after d s))
            | Valid.aborted ↦ exited
            | Valid.hanging ↦ waiting
          ]

      -- the body of the loop
      unfoldable pub run_test : Input → Tests → Ended
      run_test i s₀ =
          let s = handle_alarm i (map_heap i s₀) in
          elim (read_trace sc i.opened i.fails i.left i.size₀ i.fuel) [
            | parsed trace weight num_ops ↦ test_trace i weight num_ops trace s
            | unix_error ↦ exited
            | bad_weight ↦ exited
            | bad_ignore_ranges ↦ exited
            | bogus_type c ↦ exited
            | assertion_failed ↦ exited
            | out_of_fuel ↦ waiting
          ]

      -- With onetime_flag the function returns after the first trace that has not timed out.
      unfoldable pub run_tests : List Input → Tests → Ended
      run_tests [] s = finished s
      run_tests (i ∷ rest) s = elim (run_test i s) [
        | exited ↦ exited
        | waiting ↦ waiting
        | finished s₁ ↦
            let others = run_tests rest s₁ in
            if onetime_flag then (if s₁.timed_out then others else finished s₁) else others
      ]
