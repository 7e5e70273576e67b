-- ===== src/Driver/Main/Scored.antt =====
-- What main shows where the tests have found no error.
use mar_2015_dynamic_storage.Base.{
  ℕ, ◌<◌, ◌^◌, ◌≡◌, ◌==◌, refl, false, List, [], none, some, arith, length, if◌then◌else◌,
}
use mar_2015_dynamic_storage.Machine.Doubles.{Doubles}
use mar_2015_dynamic_storage.Driver.Stats.{}
use mar_2015_dynamic_storage.Driver.Package.{Package}
use mar_2015_dynamic_storage.Driver.Result.{Result, done}
use mar_2015_dynamic_storage.Driver.Read.{Scanner}
use mar_2015_dynamic_storage.Driver.Valid.{Config}
use mar_2015_dynamic_storage.Driver.Speed.{Speed}
use mar_2015_dynamic_storage.Driver.Options.{Options}
use mar_2015_dynamic_storage.Driver.Run.{Tests, Input, finished, run_tests}
use mar_2015_dynamic_storage.Driver.Run.Errors.{run_tests-IsScored}
use mar_2015_dynamic_storage.Driver.Report.{Row}
use mar_2015_dynamic_storage.Driver.Report.Scored.{
  CountsExactly, scored_line, printresults-accumulate,
}
use mar_2015_dynamic_storage.Driver.Score.{Totals, no_totals, accumulate, autoresult}
use mar_2015_dynamic_storage.Driver.Main.{table, verdict, show, report}

module _ (sc : Scanner) (pkg : Package) (num : Doubles) (cfg : Config) (x : CountsExactly num)
    (fsecs : (pkg.State → Result (Speed pkg)) → pkg.State → Result (num.Double × pkg.State)) where
  -- the sums over the traces of a run
  abbrev pub totals : Tests sc pkg num cfg → Totals num
  totals t = accumulate num t.stats (no_totals num)

  -- If `double` counts ints exactly and 0 / 1 is 0, run_tests begins with no trace noted and no timeout and runs through
  -- fewer than 2 ^ 31 traces without onetime_flag, no error is counted at its end, and `verbose` is not 0: main goes on
  -- and shows the table of all traces and the performance index, and the last line of the table has the
  -- average utilization, the requests and the seconds that the index is computed from.
  pub report-run_tests :
      (o : Options) (inputs : List (Input sc pkg num cfg)) (s t : Tests sc pkg num cfg)
      → s.timed_out ≡ false
      → s.stats ≡ []
      → run_tests sc pkg num cfg fsecs false inputs s ≡ finished t
      → t.errors ≡ 0
      → length inputs < 2 ^ 31
      → (o.verbose == 0) ≡ false
      → o.onetime_flag ≡ false
      → (rows : List (Row num)) × (m : ℕ) × (n : ℕ) × (report num o t.errors t.stats
          ≡ done (
            table rows (scored_line num x m n (totals t)),
            verdict num 0 (totals t),
            (if o.autograder then some (autoresult num 0 (totals t)) else none),
          ))
  unfolding report show
  report-run_tests o inputs s t early empty e z few loud many =
      let (scored, count, in_time) =
        run_tests-IsScored sc pkg num cfg fsecs inputs s t early empty e z in
      let (rows, m, n, f) =
        printresults-accumulate num x t.stats scored (omega (arith, count, few)) in
      (rows, m, n, rw (z, loud, many, f) refl)
