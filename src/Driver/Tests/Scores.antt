-- ===== src/Driver/Tests/Scores.antt =====
-- The naive allocator is tested on one file; its score and the table, with hundredths as numbers.
use native.Mathlib.Nat.{mul-le-mul_right, div-le_of_le-mul}
use mar_2015_dynamic_storage.Base.{
  ℕ, ◌+◌, ◌-◌, ◌*◌, ◌/◌, ◌^◌, ◌≤◌, ◌≡◌, All, refl, arith, List, [], ◌∷◌, Option, none, some, false,
  length, ltb, ◌==◌,
}
use mar_2015_dynamic_storage.Machine.Memory.{get, put, memcpy}
use mar_2015_dynamic_storage.Memlib.{
  mem_init, mem_sbrk, mem_reset_brk, mem_heapsize, mem_heap_lo, mem_heap_hi,
}
use mar_2015_dynamic_storage.Machine.State.{State}
use mar_2015_dynamic_storage.Naive
use mar_2015_dynamic_storage.Machine.Doubles.{Doubles}
use mar_2015_dynamic_storage.Driver.Stats.{Stats, IsScored}
use mar_2015_dynamic_storage.Driver.Result.{Result, done, bind}
use mar_2015_dynamic_storage.Driver.Score.{
  Totals, no_totals, accumulate, perfindex, weight_of_util, weight_of_perf,
}
use mar_2015_dynamic_storage.Driver.Score.Bounds.{IsMonotone, Constants, perfindex-bounds}
use mar_2015_dynamic_storage.Driver.Report.{Row}
use mar_2015_dynamic_storage.Driver.Report.Scored.{CountsExactly, scored_line}
use mar_2015_dynamic_storage.Driver.Read.{Scanner, read_trace, read_ops, read_op, scan_pair, finish}
use mar_2015_dynamic_storage.Driver.Ranges.{
  add_range, is_aligned, is_outside, any_hit, hits, remove_range, clear_ranges,
}
use mar_2015_dynamic_storage.Driver.RandomData.{fill, garbled, poke}
use mar_2015_dynamic_storage.Driver.Trace.{reinit_trace}
use mar_2015_dynamic_storage.Driver.Valid.{
  eval_mm_valid, eval_ops, eval_op, eval_alloc, eval_realloc, eval_free, check_copy, remember,
  record_range, check_index, randomize_block, and_then, malloc_error,
}
use mar_2015_dynamic_storage.Driver.Util
use mar_2015_dynamic_storage.Driver.Util.{
  eval_mm_util, util_ops, util_op, util_alloc, util_realloc, util_free, raise_max,
}
use mar_2015_dynamic_storage.Driver.Speed.{
  Speed, eval_mm_speed, speed_ops, speed_op, speed_alloc, speed_realloc, speed_free,
}
use mar_2015_dynamic_storage.Driver.Run.{
  Tests, Input, Ended, finished, exited, waiting, run_tests, run_test, test_trace, measure,
  map_heap, handle_alarm, new_stats, int_value,
}
use mar_2015_dynamic_storage.Driver.Run.Errors.{run_tests-IsScored}
use mar_2015_dynamic_storage.Driver.Main.{table, verdict, report}
use mar_2015_dynamic_storage.Driver.Main.Scored.{report-run_tests}
use mar_2015_dynamic_storage.Driver.Tests.Choices.{chosen}
use mar_2015_dynamic_storage.Driver.Tests.{naive, boot, cheap}

-- A number stands for so many hundredths; differences stop at 0.
abbrev hundredths : Doubles
hundredths = record {
  Double = ℕ;
  of_int = λ n. 100 * n;
  decimal = λ d k. d * 100 / 10 ^ k;
  plus = λ a b. a + b;
  minus = λ a b. a - b;
  times = λ a b. a * b / 100;
  over = λ a b. a * 100 / b;
  to_float = λ a. a;
  lt = λ a b. ltb a b;
  same = λ a b. a == b;
}

abbrev Le : ℕ → ℕ → Type 0
Le a b = a ≤ b

hundredths-IsMonotone : IsMonotone hundredths Le
hundredths-IsMonotone = record {
  at_least = λ a b p q e. ground (arith, e);
  differences = λ lo x hi p q r. omega arith;
  ratios = λ a b p q r. (omega arith, div-le_of_le-mul b (omega (arith, q)));
  parts = λ a b p q r. (omega arith, omega (arith, mul-le-mul_right b q));
  sums = λ a b c d p q r s t. omega arith;
  multiples = λ a b c p q r s. (omega arith, omega (arith, mul-le-mul_right c q));
}

hundredths-Constants : Constants hundredths Le
hundredths-Constants = record {
  zero_le_zero = omega arith;
  hundred = omega arith;
  space = omega arith;
  speed = omega arith;
  space_range = (omega arith, refl);
  speed_range = (omega arith, refl);
  weights = omega arith;
  own_weights = omega arith;
  sum = omega arith;
  full = omega arith;
}

hundredths-CountsExactly : CountsExactly hundredths
hundredths-CountsExactly = record {
  counts = λ n h. omega arith;
  tells = λ n h. ground arith;
  none_of_one = refl;
}

-- A file is the sequence of its numbers and characters.
take : List ℕ → Option ℕ × List ℕ
take [] = (none, [])
take (n ∷ ns) = (some n, ns)

abbrev numbers : Scanner
numbers = record { File = List ℕ; scan_int = take; scan_ud = take; scan_word = take }

-- weight 1, two blocks, four requests, with ranges
abbrev file : List ℕ
file = 1 ∷ 2 ∷ 4 ∷ 0 ∷ b'a' ∷ 0 ∷ 2 ∷ b'a' ∷ 1 ∷ 3 ∷ b'r' ∷ 0 ∷ 9 ∷ b'f' ∷ 1 ∷ []

abbrev input : Input numbers naive hundredths cheap
input = record {
  filename = b't' ∷ [];
  opened = some file;
  fails = λ k. false;
  left = λ k. 0;
  size₀ = 0;
  fuel = 9;
  mapped = 2 ^ 35;
  fresh = λ a. 0;
  alarm = none;
}

abbrev before : Tests numbers naive hundredths cheap
before = record {
  state = boot;
  ranges = [];
  errors = 0;
  randoms = 0;
  timed_out = false;
  stats = [];
}

-- each run takes 2.50 seconds
abbrev fsecs : (State → Result (Speed naive)) → State → Result (ℕ × State)
fsecs f s = bind (f s) (λ r. done (250, r.state))

finished_of : Ended numbers naive hundredths cheap → Tests numbers naive hundredths cheap
finished_of (finished s) = s
finished_of exited = before
finished_of waiting = before

abbrev last : Tests numbers naive hundredths cheap
last = finished_of (run_tests numbers naive hundredths cheap fsecs false (input ∷ []) before)

runs :
    (run_tests numbers naive hundredths cheap fsecs false (input ∷ []) before ≡ finished last)
    × (last.errors ≡ 0)
unfolding finished_of take run_tests run_test test_trace measure map_heap handle_alarm new_stats
    int_value mem_init read_trace read_ops read_op scan_pair finish eval_mm_valid eval_ops eval_op
    eval_alloc eval_realloc eval_free check_copy remember record_range check_index randomize_block
    and_then malloc_error add_range is_aligned is_outside any_hit hits remove_range clear_ranges
    fill garbled poke reinit_trace mem_heap_lo mem_heap_hi mem_reset_brk mem_sbrk Naive.mm_init
    Naive.malloc Naive.free Naive.realloc Naive.align Naive.get_size Naive.put_size get put memcpy
    eval_mm_util util_ops util_op util_alloc util_realloc util_free raise_max Util.start
    mem_heapsize eval_mm_speed speed_ops speed_op speed_alloc speed_realloc speed_free
runs = (refl, refl)

run_tests-IsScored_example :
    All (IsScored hundredths) last.stats × (length last.stats ≡ 1) × (last.timed_out ≡ false)
run_tests-IsScored_example =
    run_tests-IsScored numbers naive hundredths cheap fsecs (input ∷ []) before last refl refl
      runs.0 runs.1

abbrev stats : List (Stats hundredths)
stats = last.stats

abbrev sums : Totals hundredths
sums = accumulate hundredths stats (no_totals hundredths)

perfindex-bounds_example :
    (0 ≤ perfindex hundredths 0 sums)
    × (perfindex hundredths 0 sums
        ≤ (weight_of_util hundredths + weight_of_perf hundredths) * 10000 / 100)
perfindex-bounds_example =
    perfindex-bounds hundredths Le hundredths-IsMonotone hundredths-Constants 0 sums (omega arith)
      (omega arith)

report-run_tests_example :
    (rows : List (Row hundredths)) × (m : ℕ) × (n : ℕ) × (report hundredths chosen last.errors
        last.stats
      ≡ done (
        table rows (scored_line hundredths hundredths-CountsExactly m n sums),
        verdict hundredths 0 sums,
        none,
      ))
report-run_tests_example =
    report-run_tests numbers naive hundredths cheap hundredths-CountsExactly fsecs chosen
      (input ∷ []) before last refl refl runs.0 runs.1 (omega arith) refl refl
