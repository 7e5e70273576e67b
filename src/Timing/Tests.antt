-- ===== src/Timing/Tests.antt =====
-- The counter around a wrap of its 64 bits, and the K-best scheme on samples in whole cycles.
use mar_2015_dynamic_storage.Base.{
  ℕ, ◌+◌, ◌-◌, ◌%◌, ◌/◌, ◌^◌, ◌*◌, ◌≡◌, ◌==◌, arith, ltb, leb, true, false, Bool, [], ◌∷◌, some,
  All, refl,
}
use mar_2015_dynamic_storage.Machine.Doubles.{Doubles}
use mar_2015_dynamic_storage.Timing.Clock.{access_counter, get_counter}
use mar_2015_dynamic_storage.Timing.Clock.Exact.{IsExact, get_counter-elapsed}
use mar_2015_dynamic_storage.Timing.Fcyc.{
  Params, Sampler, init_sampler, add_sample, fcyc, sample_loop, sift, has_converged,
}
use mar_2015_dynamic_storage.Timing.Fcyc.Order.{Samples, Le, Among}
use mar_2015_dynamic_storage.Timing.Fcyc.Best.{Seen, init_sampler-Seen, add_sample-Seen}
use mar_2015_dynamic_storage.Timing.Fcyc.Ends.{taken, Stopped, fcyc_lem}

-- a `Double` that holds whole numbers
abbrev whole : Doubles
whole = record {
  Double = ℕ;
  of_int = λ n. n;
  decimal = λ d k. d / 10 ^ k;
  plus = λ a b. a + b;
  minus = λ a b. a - b;
  times = λ a b. a * b;
  over = λ a b. a / b;
  to_float = λ a. a;
  lt = λ a b. ltb a b;
  same = λ a b. a == b;
}

whole-IsExact : IsExact whole
whole-IsExact = record { exact_plus = λ a b h. refl; exact_times = λ a b h. refl }

get_counter-elapsed_example :
    get_counter whole
      (access_counter (2 ^ 64 - 10))
      (access_counter ((2 ^ 64 - 10 + 5000) % 2 ^ 64))
    ≡ 5000
get_counter-elapsed_example =
    get_counter-elapsed whole whole-IsExact (2 ^ 64 - 10) 5000 (omega arith) (omega arith)

ltb_asym : (a b : ℕ) → ltb a b ≡ true → ltb b a ≡ false
ltb_asym a b h = ground (arith, h)

ltb_trans : (a b c : ℕ) → ltb b a ≡ false → ltb c b ≡ false → ltb c a ≡ false
ltb_trans a b c h k = ground (arith, h, k)

-- Samples agree if the larger is at most a tenth more.
abbrev whole_cycles : Samples
whole_cycles = record {
  Value = ℕ;
  nought = 0;
  lt = ltb;
  agree = λ a b. leb (10 * b) (11 * a);
  lt_asym = ltb_asym;
  le_trans = ltb_trans;
}

abbrev params : Params
params = record { kbest = 3; maxsamples = 20; compensate = false; clear_cache = false }

abbrev cycles : Bool → ℕ → ℕ
cycles b k = 1000 + (k * 700) % 1100

-- Twelve measurements are made before three agree.
fcyc_run :
    fcyc whole_cycles params cycles
    ≡ some (1000, record { values = 1000 ∷ 1000 ∷ 1100 ∷ []; samplecount = 12 })
unfolding fcyc sample_loop init_sampler add_sample sift has_converged
fcyc_run = refl

add_sample-Seen_example :
    Seen whole_cycles 3 (5 ∷ []) (add_sample whole_cycles 3 5 (init_sampler whole_cycles 3))
add_sample-Seen_example =
    add_sample-Seen whole_cycles 3 5 [] (init_sampler whole_cycles 3) (omega arith)
      (init_sampler-Seen whole_cycles 3)

fcyc_lem_example :
    (n : ℕ) × (v : ℕ) × (s : Sampler whole_cycles) × (fcyc whole_cycles params cycles ≡ some (v, s))
    × Stopped whole_cycles params cycles (omega arith) n s
    × All (Le whole_cycles v) (taken whole_cycles params cycles (omega arith) n)
    × Among whole_cycles v (taken whole_cycles params cycles (omega arith) n)
fcyc_lem_example = fcyc_lem whole_cycles params cycles (omega arith)
