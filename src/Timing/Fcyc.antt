-- ===== src/Timing/Fcyc.antt =====
-- The K-best scheme of malloclab-handout/fcyc.c: the smallest `kbest` samples, in order, until they
-- agree. The `double`s and the test for agreement are those of Timing/Fcyc/Order; the k-th
-- measurement is a parameter. Clearing the cache and printing are left out.
pub mod Best
pub mod Ends
pub mod Order
pub mod Sift
use mar_2015_dynamic_storage.Base.{
  ℕ, zero, suc, ◌+◌, ◌-◌, Bool, ◌&&◌, not, List, Option, none, some, ltb, leb, if◌then◌else◌,
  get_or, set, replicate,
}
use Order.{Samples}

-- The parameters that the set_fcyc functions change; `compensate` and `clear_cache` are flags.
pub record Params : Type 0 where
  pub kbest : ℕ
  pub maxsamples : ℕ
  pub compensate : Bool
  pub clear_cache : Bool

unfoldable pub set_fcyc_k : ℕ → Params → Params
set_fcyc_k k p = record p { kbest = k }

unfoldable pub set_fcyc_maxsamples : ℕ → Params → Params
set_fcyc_maxsamples n p = record p { maxsamples = n }

unfoldable pub set_fcyc_compensate : Bool → Params → Params
set_fcyc_compensate b p = record p { compensate = b }

unfoldable pub set_fcyc_clear_cache : Bool → Params → Params
set_fcyc_clear_cache b p = record p { clear_cache = b }

module _ (num : Samples) where
  open num use {Value, nought, lt}

  -- `values` and `samplecount`
  pub record Sampler : Type 0 where
    pub values : List Value
    pub samplecount : ℕ

  unfoldable pub init_sampler : ℕ → Sampler
  init_sampler kbest = record { values = replicate kbest nought; samplecount = 0 }

  -- the insertion sort of add_sample: `pos` moves down while the value before is larger
  unfoldable pub sift : ℕ → List Value → List Value
  sift zero vs = vs
  sift (suc pos) vs =
      let a = get_or vs pos nought in
      let b = get_or vs (suc pos) nought in
      let rest = sift pos (set (set vs pos b) (suc pos) a) in if lt b a then rest else vs

  unfoldable pub add_sample : (kbest : ℕ) → Value → Sampler → Sampler
  add_sample kbest val s =
      let n = s.samplecount in
      if ltb n kbest
      then record { values = sift n (set s.values n val); samplecount = n + 1 }
      else if lt val (get_or s.values (kbest - 1) nought)
      then record { values = sift (kbest - 1) (set s.values (kbest - 1) val); samplecount = n + 1 }
      else record { values = sift 0 s.values; samplecount = n + 1 }

  unfoldable pub has_converged : ℕ → Sampler → Bool
  has_converged kbest s =
      leb kbest s.samplecount
      && num.agree (get_or s.values 0 nought) (get_or s.values (kbest - 1) nought)

  -- The `do` loop, with fuel. `cycles b k` is the k-th measurement, by get_comp_counter if `b` is set
  -- and by get_counter otherwise.
  unfoldable pub sample_loop : Params → (Bool → ℕ → Value) → ℕ → Sampler → Option Sampler
  sample_loop p cycles zero s = none
  sample_loop p cycles (suc fuel) s =
      let s' = add_sample p.kbest (cycles p.compensate s.samplecount) s in
      let rest = sample_loop p cycles fuel s' in
      if not (has_converged p.kbest s') && ltb s'.samplecount p.maxsamples then rest else some s'

  -- The result, and the sampler at the end. At most `maxsamples` rounds are made, but at least one.
  unfoldable pub fcyc : Params → (Bool → ℕ → Value) → Option (Value × Sampler)
  fcyc p cycles = elim (sample_loop p cycles (p.maxsamples + 1) (init_sampler p.kbest)) [
    | none ↦ none
    | some s ↦ some (get_or s.values 0 nought, s)
  ]
