-- ===== src/Driver/Stats.antt =====
-- stats_t of malloclab-handout/mdriver.c: what the driver notes of each trace.
use mar_2015_dynamic_storage.Base.{ℕ, Bool, true, List, ◌||◌, ◌==◌, ◌≡◌, ◌≤◌}
use mar_2015_dynamic_storage.Machine.Doubles.{Doubles}

module _ (num : Doubles) where
  open num use {Double}

  -- `filename` is the sequence of its characters.
  pub record Stats : Type 0 where
    pub filename : List ℕ
    pub weight : ℕ
    pub ops : Double
    pub valid : Bool
    pub secs : Double
    pub util : Double

  abbrev pub counts_perf : Stats → Bool
  counts_perf s = s.weight == 1 || s.weight == 3

  abbrev pub counts_util : Stats → Bool
  counts_util s = s.weight == 1 || s.weight == 2

  -- a trace that was processed correctly, with a weight that read_trace accepts
  abbrev pub IsScored : Stats → Type 0
  IsScored s = (s.valid ≡ true) × (s.weight ≤ 3)
