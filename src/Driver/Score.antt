-- ===== src/Driver/Score.antt =====
-- The last part of main of malloclab-handout/mdriver.c: the sums over the traces, the two averages and the
-- performance index, as compiled without ALT_GRADING.
pub mod Bounds
use mar_2015_dynamic_storage.Base.{ℕ, ◌+◌, Bool, true, false, List, [], ◌∷◌, ◌==◌, if◌then◌else◌}
use mar_2015_dynamic_storage.Machine.Doubles.{Doubles}
use mar_2015_dynamic_storage.Driver.Stats.{Stats, counts_perf, counts_util}

module _ (num : Doubles) where
  open num use {Double, of_int, decimal, plus, minus, times, over, lt, same, to_float}

  pub record Totals : Type 0 where
    pub secs : Double
    pub ops : Double
    pub util : Double
    pub perf_weight : Double
    pub util_weight : Double
    pub numcorrect : ℕ

  unfoldable pub no_totals : Totals
  no_totals = record {
    secs = of_int 0;
    ops = of_int 0;
    util = of_int 0;
    perf_weight = of_int 0;
    util_weight = of_int 0;
    numcorrect = 0;
  }

  -- the `if` for the traces that count for the speed
  unfoldable pub add_perf : Stats num → Totals → Totals
  add_perf s t =
      if counts_perf num s
      then record t {
        secs = plus t.secs s.secs;
        ops = plus t.ops s.ops;
        perf_weight = plus t.perf_weight (of_int 1);
      }
      else t

  -- the `if` for those that count for the space
  unfoldable pub add_util : Stats num → Totals → Totals
  add_util s t =
      if counts_util num s
      then record t { util = plus t.util s.util; util_weight = plus t.util_weight (of_int 1) }
      else t

  unfoldable pub add_correct : Stats num → Totals → Totals
  add_correct s t = if s.valid then record t { numcorrect = t.numcorrect + 1 } else t

  unfoldable pub accumulate : List (Stats num) → Totals → Totals
  accumulate [] t = t
  accumulate (s ∷ rest) t = accumulate rest (add_correct s (add_util s (add_perf s t)))

  unfoldable pub avg_mm_util : Totals → Double
  avg_mm_util t = if same t.util_weight (of_int 0) then of_int 0 else over t.util t.util_weight

  -- where there are no errors
  unfoldable pub avg_mm_throughput : Totals → Double
  avg_mm_throughput t =
      if same t.perf_weight (of_int 0)
      then of_int 0
      else if same t.secs (of_int 0)
      then of_int 0
      else over t.ops t.secs

  abbrev pub min_speed : Double
  min_speed = decimal 3000000 0

  abbrev pub max_speed : Double
  max_speed = decimal 13000000 0

  abbrev pub min_space : Double
  min_space = decimal 60 2

  abbrev pub max_space : Double
  max_space = decimal 92 2

  abbrev pub weight_of_util : Double
  weight_of_util = decimal 61 2

  abbrev pub weight_of_perf : Double
  weight_of_perf = minus (decimal 10 1) weight_of_util

  unfoldable pub p1 : Double → Double
  p1 util =
      if lt util min_space
      then decimal 0 1
      else if lt max_space util
      then weight_of_util
      else times (over (minus util min_space) (minus max_space min_space)) weight_of_util

  unfoldable pub p2 : Double → Double
  p2 throughput =
      if lt throughput min_speed
      then decimal 0 1
      else if lt max_speed throughput
      then weight_of_perf
      else times (over (minus throughput min_speed) (minus max_speed min_speed)) weight_of_perf

  unfoldable pub perfindex : (errors : ℕ) → Totals → Double
  perfindex errors t =
      if errors == 0
      then times (plus (p1 (avg_mm_util t)) (p2 (avg_mm_throughput t))) (decimal 1000 1)
      else decimal 0 1

  -- the four numbers of the autoresult string
  unfoldable pub autoresult : (errors : ℕ) → Totals → ℕ × Double × Double × Double
  autoresult errors t = (
    t.numcorrect,
    to_float (perfindex errors t),
    over (if errors == 0 then avg_mm_throughput t else of_int 0) (decimal 10000 1),
    times (avg_mm_util t) (of_int 100),
  )
