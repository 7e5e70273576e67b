-- ===== src/Driver/Report.antt =====
-- printresults of malloclab-handout/mdriver.c: the table of the traces and its last line. A row holds the values
-- that are printed in it.
pub mod Scored
use mar_2015_dynamic_storage.Base.{
  ℕ, ◌+◌, Bool, not, ◌||◌, List, [], ◌∷◌, Option, none, some, ◌==◌, if◌then◌else◌,
}
use mar_2015_dynamic_storage.Machine.Doubles.{Doubles}
use mar_2015_dynamic_storage.Driver.Stats.{Stats, counts_perf, counts_util}
use mar_2015_dynamic_storage.Driver.Result.{Result, done, app_error, bind}

module _ (num : Doubles) where
  open num use {Double, of_int, decimal, plus, times, over, same}

  -- A `none` stands for "--". `marked` says whether an invalid trace gets a star.
  pub data Row : Type 0 where
    valid_row :
        (wstr : ℕ) (util : Option Double) (perf : Option (Double × Double × Double))
        (filename : List ℕ)
        → Row
    invalid_row : (marked : Bool) (filename : List ℕ) → Row

  pub record Sums : Type 0 where
    pub sumsecs : Double
    pub sumops : Double
    pub sumutil : Double
    pub sum_perf_weight : ℕ
    pub sum_util_weight : ℕ

  unfoldable pub no_sums : Sums
  no_sums = record {
    sumsecs = of_int 0;
    sumops = of_int 0;
    sumutil = of_int 0;
    sum_perf_weight = 0;
    sum_util_weight = 0;
  }

  -- `' '`, `'*'`, `'u'`, `'p'`, or a wrong weight
  unfoldable pub weight_mark : ℕ → Option ℕ
  weight_mark weight =
      if weight == 0
      then some b' '
      else if weight == 1
      then some b'*'
      else if weight == 2
      then some b'u'
      else if weight == 3
      then some b'p'
      else none

  unfoldable pub shown_row : ℕ → Stats num → Row
  shown_row wstr s =
      valid_row wstr
        (if s.weight == 0 || counts_util num s then some (times s.util (decimal 1000 1)) else none)
        (if s.weight == 0 || counts_perf num s
          then some (s.ops, s.secs, over (over s.ops (decimal 1000 0)) s.secs)
          else none)
        s.filename

  unfoldable pub sum_perf : Stats num → Sums → Sums
  sum_perf s t =
      if counts_perf num s
      then record t {
        sum_perf_weight = t.sum_perf_weight + 1;
        sumsecs = plus t.sumsecs s.secs;
        sumops = plus t.sumops s.ops;
      }
      else t

  unfoldable pub sum_util : Stats num → Sums → Sums
  sum_util s t =
      if counts_util num s
      then record t { sum_util_weight = t.sum_util_weight + 1; sumutil = plus t.sumutil s.util }
      else t

  -- the body of the loop
  unfoldable pub print_row : Stats num → Sums → Result (Row × Sums)
  print_row s t =
      if s.valid
      then elim (weight_mark s.weight) [
        | none ↦ app_error
        | some wstr ↦ done (shown_row wstr s, sum_util s (sum_perf s t))
      ]
      else done (invalid_row (not (s.weight == 0)) s.filename, t)

  unfoldable pub print_rows : List (Stats num) → Sums → Result (List Row × Sums)
  print_rows [] t = done ([], t)
  print_rows (s ∷ rest) t =
      bind (print_row s t) (λ r. bind (print_rows rest r.1) (λ q. done (r.0 ∷ q.0, q.1)))

  -- the numbers of the last line, or dashes
  pub data LastLine : Type 0 where
    aggregate : (util_weight perf_weight : ℕ) (util ops secs kops : Double) → LastLine
    dashes : LastLine

  abbrev pub at_least_one : ℕ → ℕ
  at_least_one n = if n == 0 then 1 else n

  unfoldable pub last_line : (errors : ℕ) → Sums → LastLine
  last_line errors t =
      if errors == 0
      then aggregate (at_least_one t.sum_util_weight) (at_least_one t.sum_perf_weight)
          (times (over t.sumutil (of_int (at_least_one t.sum_util_weight))) (decimal 1000 1))
          t.sumops t.sumsecs
          (if same t.sumsecs (decimal 0 1)
            then of_int 0
            else over (over t.sumops (decimal 1000 0)) t.sumsecs)
      else dashes

  unfoldable pub printresults : (errors : ℕ) → List (Stats num) → Result (List Row × LastLine)
  printresults errors stats =
      bind (print_rows stats no_sums) (λ q. done (q.0, last_line errors q.1))
