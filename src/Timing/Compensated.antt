-- ===== src/Timing/Compensated.antt =====
-- ovhd, mhz_full and the counters that allow for timer interrupts, of malloclab-handout/clock.c. The k-th reading of
-- the cycle counter, the k-th answer of times() and /proc/cpuinfo are parameters; what `verbose` prints is left out.
pub mod Recorded
use mar_2015_dynamic_storage.Base.{
  ℕ, zero, suc, ◌+◌, ◌-◌, ◌*◌, ◌/◌, ◌%◌, ◌^◌, Bool, ◌&&◌, ◌||◌, List, [], ◌∷◌, Option, none, some,
  ltb, if◌then◌else◌,
}
use mar_2015_dynamic_storage.Machine.Doubles.{Doubles}
use mar_2015_dynamic_storage.Timing.Clock.{Counter, access_counter, get_counter}

module _ (num : Doubles) where
  open num use {Double, of_int, decimal, minus, times, over, lt, same}

  -- What is left of the loop of ovhd: start_counter and get_counter, from the k-th reading on. `result` is
  -- that of the last round.
  unfoldable pub ovhd_loop : (reading : ℕ → ℕ) → (rounds k : ℕ) (result : Double) → Double
  ovhd_loop reading zero k result = result
  ovhd_loop reading (suc n) k result =
      ovhd_loop reading n (k + 2)
        (get_counter num (access_counter (reading k)) (access_counter (reading (k + 1))))

  -- The loop makes two rounds, so that what `result` holds before does not matter.
  unfoldable pub ovhd : (reading : ℕ → ℕ) → (k : ℕ) → Double
  ovhd reading k = ovhd_loop reading 2 k (of_int 0)

  -- The rate in the first line that has "cpu MHz", or 0; `scan` is `sscanf` on such a line, and `none` is a line
  -- without a number.
  unfoldable pub find_rate :
      (has_mhz : List ℕ → Bool) (scan : List ℕ → Option Double) → List (List ℕ) → Double
  find_rate has_mhz scan [] = decimal 0 1
  find_rate has_mhz scan (line ∷ lines) =
      if has_mhz line
      then elim (scan line) [ none ↦ decimal 0 1 | some rate ↦ rate ]
      else find_rate has_mhz scan lines

  -- `none`: the file could not be opened, and fgets is called with NULL.
  unfoldable pub mhz_full :
      (has_mhz : List ℕ → Bool) (scan : List ℕ → Option Double)
      → Option (List (List ℕ))
      → Option Double
  mhz_full has_mhz scan none = none
  mhz_full has_mhz scan (some lines) = some (find_rate has_mhz scan lines)

  -- the static of clock.c, the locals of callibrate, and the numbers of readings and of answers so far
  pub record Calibration : Type 0 where
    pub cyc_per_tick : Double
    pub oldt : Double
    pub oldc : ℕ
    pub e : ℕ
    pub readings : ℕ
    pub answers : ℕ

  module _ (reading : ℕ → ℕ) (utime : ℕ → ℕ) where
    abbrev pub at_least : Double → Double → Bool
    at_least a b = lt b a || same b a

    -- the statements under `newc > oldc`
    unfoldable pub record_event : (newt : Double) (newc : ℕ) → Calibration → Calibration
    record_event newt newc c =
        let cpt = over (minus newt c.oldt) (of_int (newc - c.oldc)) in
        record c {
          cyc_per_tick =
              if (same c.cyc_per_tick (decimal 0 1) || lt cpt c.cyc_per_tick)
                && lt (of_int 3000) cpt
              then cpt
              else c.cyc_per_tick;
          e = c.e + 1;
          oldc = newc;
        }

    -- the body of the loop; `start` is what start_counter recorded
    unfoldable pub watch : Counter → Calibration → Calibration
    watch start c =
        let newt = get_counter num start (access_counter (reading c.readings)) in
        let c₁ : Calibration = record c { readings = c.readings + 1 } in
        if at_least (minus newt c.oldt) (of_int 1000)
        then (let newc = utime c.answers in
            let c₂ : Calibration = record c₁ { answers = c.answers + 1 } in
            let c₃ : Calibration = if ltb c.oldc newc then record_event newt newc c₂ else c₂ in
            record c₃ { oldt = newt })
        else c₁

    -- `while (e <NEVENT)`, on fuel; `none` is a loop that has not ended
    unfoldable pub watch_all : Counter → (fuel : ℕ) → Calibration → Option Calibration
    watch_all start zero c = none
    watch_all start (suc n) c =
        let rest = watch_all start n (watch start c) in if ltb c.e 100 then rest else some c

    unfoldable pub callibrate :
        (fuel : ℕ) (cyc_per_tick : Double) (readings answers : ℕ) → Option Calibration
    callibrate fuel cyc_per_tick readings answers =
        let start = access_counter (reading readings) in
        watch_all start fuel (record {
          cyc_per_tick = cyc_per_tick;
          oldt = get_counter num start (access_counter (reading (readings + 1)));
          oldc = utime answers;
          e = 0;
          readings = readings + 2;
          answers = answers + 1;
        })

    -- the statics after start_comp_counter
    pub record Started : Type 0 where
      pub cyc_per_tick : Double
      pub start_tick : ℕ
      pub start : Counter
      pub readings : ℕ
      pub answers : ℕ

    abbrev start_at : (cyc_per_tick : Double) (readings answers : ℕ) → Started
    start_at cyc_per_tick readings answers = record {
      cyc_per_tick = cyc_per_tick;
      start_tick = utime answers;
      start = access_counter (reading readings);
      readings = readings + 1;
      answers = answers + 1;
    }

    unfoldable pub start_comp_counter :
        (fuel : ℕ) (cyc_per_tick : Double) (readings answers : ℕ) → Option Started
    start_comp_counter fuel cyc_per_tick readings answers =
        if same cyc_per_tick (decimal 0 1)
        then elim (callibrate fuel cyc_per_tick readings answers) [
          | none ↦ none
          | some c ↦ some (start_at c.cyc_per_tick c.readings c.answers)
        ]
        else some (start_at cyc_per_tick readings answers)

    -- The clock does not go back: `ticks` is not negative.
    unfoldable pub get_comp_counter : Started → Double
    get_comp_counter s =
        let time = get_counter num s.start (access_counter (reading s.readings)) in
        let ticks = utime s.answers - s.start_tick in
        minus time (times (of_int ticks) s.cyc_per_tick)
