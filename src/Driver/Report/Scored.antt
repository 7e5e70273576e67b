-- ===== src/Driver/Report/Scored.antt =====
-- The table of printresults against the score of main: both sum over the traces, in their own variables.
use mar_2015_dynamic_storage.Base.{
  ℕ, ◌+◌, ◌^◌, ◌≤◌, ◌<◌, ◌≡◌, ◌⊎◌, inl, inr, List, [], ◌∷◌, All, refl, sym, ap, ◌∙◌, ◌==◌, arith,
  Bool-cases, if◌then◌else◌, length, some,
}
use mar_2015_dynamic_storage.Machine.Doubles.{Doubles}
use mar_2015_dynamic_storage.Driver.Stats.{Stats, IsScored, counts_perf, counts_util}
use mar_2015_dynamic_storage.Driver.Result.{done}
use mar_2015_dynamic_storage.Driver.Score.{
  Totals, no_totals, add_perf, add_util, add_correct, accumulate, avg_mm_util,
}
use mar_2015_dynamic_storage.Driver.Report.{
  Row, Sums, LastLine, no_sums, weight_mark, shown_row, sum_perf, sum_util, print_row, print_rows,
  aggregate, at_least_one, last_line, printresults,
}

-- What `double` is known for: it counts `int`s exactly, and 0 / 1 is 0.
pub record CountsExactly (num : Doubles) : Type 0 where
  pub counts : (n : ℕ) → n < 2 ^ 31 → num.plus (num.of_int n) (num.of_int 1) ≡ num.of_int (n + 1)
  pub tells : (n : ℕ) → n < 2 ^ 31 → num.same (num.of_int n) (num.of_int 0) ≡ (n == 0)
  pub none_of_one : num.over (num.of_int 0) (num.of_int 1) ≡ num.of_int 0

module _ (num : Doubles) (x : CountsExactly num) where
  open num use {Double, of_int, over, times, decimal}

  -- The two sets of variables agree, after at most `p` traces that count for the speed and `q` that count for
  -- the space. Without one of these no space is summed.
  record Agree (p q : ℕ) (t : Totals num) (u : Sums num) : Type 0 where
    secs : u.sumsecs ≡ t.secs
    ops : u.sumops ≡ t.ops
    util : u.sumutil ≡ t.util
    perf_weight : of_int u.sum_perf_weight ≡ t.perf_weight
    util_weight : of_int u.sum_util_weight ≡ t.util_weight
    few : (u.sum_perf_weight ≤ p) × (u.sum_util_weight ≤ q)
    empty : u.sum_util_weight ≡ 0 → u.sumutil ≡ of_int 0

  add_perf-Agree :
      (p q : ℕ) (s : Stats num) (t : Totals num) (u : Sums num)
      → p < 2 ^ 31
      → Agree p q t u
      → Agree (p + 1) q (add_perf num s t) (sum_perf num s u)
  unfolding add_perf sum_perf
  add_perf-Agree p q s t u b a = elim (Bool-cases (counts_perf num s)) [
    | inl e ↦ rw e (record {
      secs = ap (λ y. num.plus y s.secs) a.secs;
      ops = ap (λ y. num.plus y s.ops) a.ops;
      util = a.util;
      perf_weight =
          sym (x.counts u.sum_perf_weight (omega (arith, a.few, b)))
          ∙ ap (λ y. num.plus y (of_int 1)) a.perf_weight;
      util_weight = a.util_weight;
      few = omega (arith, a.few);
      empty = a.empty;
    })
    | inr e ↦ rw e (record {
      secs = a.secs;
      ops = a.ops;
      util = a.util;
      perf_weight = a.perf_weight;
      util_weight = a.util_weight;
      few = omega (arith, a.few);
      empty = a.empty;
    })
  ]

  add_util-Agree :
      (p q : ℕ) (s : Stats num) (t : Totals num) (u : Sums num)
      → q < 2 ^ 31
      → Agree p q t u
      → Agree p (q + 1) (add_util num s t) (sum_util num s u)
  unfolding add_util sum_util
  add_util-Agree p q s t u b a = elim (Bool-cases (counts_util num s)) [
    | inl e ↦ rw e (record {
      secs = a.secs;
      ops = a.ops;
      util = ap (λ y. num.plus y s.util) a.util;
      perf_weight = a.perf_weight;
      util_weight =
          sym (x.counts u.sum_util_weight (omega (arith, a.few, b)))
          ∙ ap (λ y. num.plus y (of_int 1)) a.util_weight;
      few = omega (arith, a.few);
      empty = λ z. absurd (omega (arith, z));
    })
    | inr e ↦ rw e (record {
      secs = a.secs;
      ops = a.ops;
      util = a.util;
      perf_weight = a.perf_weight;
      util_weight = a.util_weight;
      few = omega (arith, a.few);
      empty = a.empty;
    })
  ]

  add_correct-Agree :
      (p q : ℕ) (s : Stats num) (t : Totals num) (u : Sums num)
      → Agree p q t u
      → Agree p q (add_correct num s t) u
  unfolding add_correct
  add_correct-Agree p q s t u a = elim (Bool-cases s.valid) [
    | inl e ↦ rw e (record {
      secs = a.secs;
      ops = a.ops;
      util = a.util;
      perf_weight = a.perf_weight;
      util_weight = a.util_weight;
      few = a.few;
      empty = a.empty;
    })
    | inr e ↦ rw e a
  ]

  mark : (w : ℕ) → w ≤ 3 → (c : ℕ) × (weight_mark num w ≡ some c)
  unfolding weight_mark
  mark w h =
      let cases : (w ≡ 0) ⊎ (w ≡ 1) ⊎ (w ≡ 2) ⊎ (w ≡ 3) = omega arith in
      elim cases [
        | inl e ↦ (b' ', rw e refl)
        | inr (inl e) ↦ (b'*', rw e refl)
        | inr (inr (inl e)) ↦ (b'u', rw e refl)
        | inr (inr (inr e)) ↦ (b'p', rw e refl)
      ]

  print_row-IsScored :
      (s : Stats num) (u : Sums num)
      → IsScored num s
      → (r : Row num) × (print_row num s u ≡ done (r, sum_util num s (sum_perf num s u)))
  unfolding print_row
  print_row-IsScored s u (valid, small) =
      let (c, e) = mark s.weight small in (shown_row num c s, simp (valid, e))

  print_rows-Agree :
      (stats : List (Stats num)) (p q : ℕ) (t : Totals num) (u : Sums num)
      → All (IsScored num) stats
      → p + length stats < 2 ^ 31
      → q + length stats < 2 ^ 31
      → Agree p q t u
      → (rows : List (Row num)) × (u₁ : Sums num) × (print_rows num stats u ≡ done (rows, u₁))
        × ((p₁ : ℕ) × (q₁ : ℕ) × (q₁ < 2 ^ 31) × Agree p₁ q₁ (accumulate num stats t) u₁)
  unfolding print_rows accumulate
  print_rows-Agree [] p q t u h b c a = ([], u, refl, (p, q, omega arith, a))
  print_rows-Agree (s ∷ rest) p q t u h b c a =
      let (r, e) = print_row-IsScored s u h.0 in
      let step =
        add_correct-Agree (p + 1) (q + 1) s (add_util num s (add_perf num s t))
          (sum_util num s (sum_perf num s u))
          (add_util-Agree (p + 1) q s (add_perf num s t) (sum_perf num s u) (omega arith)
            (add_perf-Agree p q s t u (omega arith) a)) in
      let (rows, u₁, f, g) =
        print_rows-Agree rest (p + 1) (q + 1)
          (add_correct num s (add_util num s (add_perf num s t)))
          (sum_util num s (sum_perf num s u)) h.1 (omega arith) (omega arith) step in
      (r ∷ rows, u₁, rw (e, f) refl, g)

  start-Agree : Agree 0 0 (no_totals num) (no_sums num)
  unfolding no_totals no_sums
  start-Agree = record {
    secs = refl;
    ops = refl;
    util = refl;
    perf_weight = refl;
    util_weight = refl;
    few = omega arith;
    empty = λ e. refl;
  }

  average-Agree :
      (p q : ℕ) (t : Totals num) (u : Sums num)
      → q < 2 ^ 31
      → Agree p q t u
      → over u.sumutil (of_int (at_least_one num u.sum_util_weight)) ≡ avg_mm_util num t
  unfolding avg_mm_util
  average-Agree p q t u b a =
      let told =
        ap (λ y. num.same y (of_int 0)) (sym a.util_weight)
        ∙ x.tells u.sum_util_weight (omega (arith, a.few, b)) in
      elim (Bool-cases (u.sum_util_weight == 0)) [
        | inl e ↦
            rw (told, e) (ap (λ y. over y (of_int 1)) (a.empty (ground (arith, e))) ∙ x.none_of_one)
        | inr e ↦
            rw (told, e)
              (ap (λ y. over y (of_int u.sum_util_weight)) a.util
                ∙ ap (λ y. over t.util y) a.util_weight)
      ]

  -- the last line of the table as the variables of main give it
  abbrev pub scored_line : (m n : ℕ) → Totals num → LastLine num
  scored_line m n t = aggregate m n (times (avg_mm_util num t) (decimal 1000 1)) t.ops t.secs (
      if num.same t.secs (decimal 0 1) then of_int 0 else over (over t.ops (decimal 1000 0)) t.secs)

  last_line-Agree :
      (p q : ℕ) (t : Totals num) (u : Sums num)
      → q < 2 ^ 31
      → Agree p q t u
      → last_line num 0 u
        ≡ scored_line (at_least_one num u.sum_util_weight) (at_least_one num u.sum_perf_weight) t
  unfolding last_line
  last_line-Agree p q t u b a = rw (average-Agree p q t u b a, a.ops, a.secs) refl

  -- If `double` counts ints exactly and 0 / 1 is 0, there are fewer than 2 ^ 31 traces, all were processed correctly
  -- and have a weight from 0 to 3, and there are no errors: printresults ends, and its last line has the
  -- average utilization, the requests and the seconds of which main computes the performance index.
  pub printresults-accumulate :
      (stats : List (Stats num))
      → All (IsScored num) stats
      → length stats < 2 ^ 31
      → (rows : List (Row num)) × (m : ℕ) × (n : ℕ) × (printresults num 0 stats
          ≡ done (rows, scored_line m n (accumulate num stats (no_totals num))))
  unfolding printresults
  printresults-accumulate stats h few =
      let (rows, u, e, (p, q, b, a)) =
        print_rows-Agree stats 0 0 (no_totals num) (no_sums num) h (omega arith) (omega arith)
          start-Agree in
      let t = accumulate num stats (no_totals num) in
      (
        rows,
        at_least_one num u.sum_util_weight,
        at_least_one num u.sum_perf_weight,
        rw e (ap (λ y. done (rows, y)) (last_line-Agree p q t u b a)),
      )
