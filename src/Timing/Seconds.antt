-- ===== src/Timing/Seconds.antt =====
-- malloclab-handout/fsecs.c as compiled with USE_FCYC: the parameters of the K-best scheme, and cycles as seconds.
use mar_2015_dynamic_storage.Base.{true}
use mar_2015_dynamic_storage.Machine.Doubles.{Doubles}
use mar_2015_dynamic_storage.Timing.Fcyc.{
  Params, set_fcyc_k, set_fcyc_maxsamples, set_fcyc_compensate, set_fcyc_clear_cache,
}

module _ (num : Doubles) where
  open num use {Double, decimal, times, over}

  -- the parameters of fcyc, its `epsilon`, and the clock rate
  pub record Timing : Type 0 where
    pub params : Params
    pub epsilon : Double
    pub mhz : Double

  -- `rate` is the result of mhz.
  unfoldable pub init_fsecs : Params → (rate : Double) → Timing
  init_fsecs params rate = record {
    params =
        set_fcyc_k 3
          (set_fcyc_compensate true (set_fcyc_clear_cache true (set_fcyc_maxsamples 20 params)));
    epsilon = decimal 1 2;
    mhz = rate;
  }

  -- `cycles` is the result of fcyc.
  unfoldable pub fsecs : Timing → (cycles : Double) → Double
  fsecs t cycles = over cycles (times t.mhz (decimal 1000000 0))
