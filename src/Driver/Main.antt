-- ===== src/Driver/Main.antt =====
-- main of malloclab-handout/mdriver.c after its options: the runs on the C library's package, and what is shown of
-- the tests of the package. Headings are left out, and calloc is taken to succeed.
pub mod Scored
use mar_2015_dynamic_storage.Base.{
  ℕ, ◌-◌, ◌^◌, Bool, true, false, List, [], ◌∷◌, ◌++◌, Option, none, some, ◌==◌, not, if◌then◌else◌,
  length,
}
use mar_2015_dynamic_storage.Machine.Doubles.{Doubles}
use mar_2015_dynamic_storage.Driver.Stats.{Stats}
use mar_2015_dynamic_storage.Driver.Package.{Package}
use mar_2015_dynamic_storage.Driver.Result.{Result, done, app_error, hanging, bind}
use mar_2015_dynamic_storage.Driver.Read.{
  Scanner, parsed, unix_error, bad_weight, bad_ignore_ranges, bogus_type, assertion_failed,
  out_of_fuel, read_trace,
}
use mar_2015_dynamic_storage.Driver.Libc.{LibraryPackage, Run, eval_libc_valid, eval_libc_speed}
use mar_2015_dynamic_storage.Driver.Valid.{Config}
use mar_2015_dynamic_storage.Driver.Run.{Tests, Input, new_stats}
use mar_2015_dynamic_storage.Driver.Options.{Options}
use mar_2015_dynamic_storage.Driver.Report.{Row, LastLine, printresults}
use mar_2015_dynamic_storage.Driver.Score.{
  Totals, no_totals, accumulate, avg_mm_util, avg_mm_throughput, p1, p2, perfindex, autoresult,
}

module _ (sc : Scanner) (pkg : Package) (num : Doubles) (cfg : Config) where
  open num use {Double, of_int, decimal, times}

  module _ (lib : LibraryPackage)
      (fsecs : (lib.State → Result (Run lib)) → lib.State → Result (Double × lib.State)) where
    -- one round of the loop over the files: the evaluation ends the program where the library's package fails
    unfoldable pub libc_test : Input sc pkg num cfg → lib.State → Result (Stats num × lib.State)
    libc_test i s = elim (read_trace sc i.opened i.fails i.left i.size₀ i.fuel) [
      | parsed trace weight num_ops ↦ bind (eval_libc_valid lib trace s) (λ r.
          bind (fsecs (eval_libc_speed lib trace) r.state)
            (λ q. done (new_stats sc pkg num cfg i weight num_ops true q.0 (of_int 0), q.1)))
      | unix_error ↦ app_error
      | bad_weight ↦ app_error
      | bad_ignore_ranges ↦ app_error
      | bogus_type c ↦ app_error
      | assertion_failed ↦ app_error
      | out_of_fuel ↦ hanging
    ]

    unfoldable pub libc_tests :
        List (Input sc pkg num cfg) → lib.State → Result (List (Stats num) × lib.State)
    libc_tests [] s = done ([], s)
    libc_tests (i ∷ rest) s =
        bind (libc_test i s) (λ r. bind (libc_tests rest r.1) (λ q. done (r.0 ∷ q.0, q.1)))

    -- `if (run_libc)`: the table of the library's package, if `verbose` is not 0
    unfoldable pub libc_report :
        Options
        → (errors : ℕ) → List (Input sc pkg num cfg)
        → lib.State
        → Result (Option (List (Row num) × LastLine num) × lib.State)
    libc_report o errors inputs s =
        if o.run_libc
        then bind (libc_tests inputs s) (λ r.
          if o.verbose == 0
          then done (none, r.1)
          else bind (printresults num errors r.0) (λ table. done (some table, r.1)))
        else done (none, s)

-- What is shown of the tests: nothing, whether the one trace was correct, or the table.
pub data Shown (num : Doubles) : Type 0 where
  nothing : Shown num
  checked : (correct : Bool) → Shown num
  table : List (Row num) → LastLine num → Shown num

-- The last lines: the three numbers of the performance index, or the number of errors; and the autoresult string.
pub data Verdict (num : Doubles) : Type 0 where
  scored : (util thru index : num.Double) → Verdict num
  terminated : (errors : ℕ) → Verdict num

module _ (num : Doubles) where
  open num use {Double, decimal, of_int, times}

  -- `mm_stats[num_tracefiles-1].valid`; an entry that was not reached is 0
  unfoldable pub last_valid : List (Stats num) → Bool
  last_valid [] = false
  last_valid (s ∷ []) = s.valid
  last_valid (s ∷ t ∷ rest) = last_valid (t ∷ rest)

  unfoldable pub show : Options → (errors : ℕ) → List (Stats num) → Result (Shown num)
  show o errors stats =
      if o.verbose == 0
      then done nothing
      else if o.onetime_flag
      then done (checked (last_valid stats))
      else bind (printresults num errors stats) (λ r. done (table r.0 r.1))

  unfoldable pub verdict : (errors : ℕ) → Totals num → Verdict num
  verdict errors t =
      if errors == 0
      then scored (times (p1 num (avg_mm_util num t)) (of_int 100))
          (times (p2 num (avg_mm_throughput num t)) (of_int 100)) (perfindex num errors t)
      else terminated errors

  -- what main shows after run_tests
  unfoldable pub report :
      Options
      → (errors : ℕ) → List (Stats num)
      → Result (Shown num × Verdict num × Option (ℕ × Double × Double × Double))
  report o errors stats = bind (show o errors stats) (λ shown.
      let t = accumulate num stats (no_totals num) in
      done
        (shown, verdict errors t, (if o.autograder then some (autoresult num errors t) else none)))
