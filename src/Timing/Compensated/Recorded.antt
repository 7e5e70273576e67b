-- ===== src/Timing/Compensated/Recorded.antt =====
-- What callibrate leaves in cyc_per_tick.
use mar_2015_dynamic_storage.Base.{
  ℕ, zero, suc, ◌-◌, ◌≤◌, ◌≡◌, ◌⊎◌, ◌&&◌, ◌||◌, inl, inr, Bool, true, false, some, arith, ltb,
  Bool-cases, if◌then◌else◌, subst,
}
use mar_2015_dynamic_storage.Machine.Doubles.{Doubles}
use mar_2015_dynamic_storage.Timing.Clock.{Counter, access_counter, get_counter}
use mar_2015_dynamic_storage.Timing.Compensated.{
  Calibration, record_event, watch, watch_all, at_least,
}

module _ (num : Doubles) (reading : ℕ → ℕ) (utime : ℕ → ℕ) where
  open num use {Double, of_int, decimal, minus, over, lt, same}

  -- no ratio yet, or one above RECORDTHRESH
  abbrev pub IsRatio : Double → Type 0
  IsRatio c = (c ≡ decimal 0 1) ⊎ (lt (of_int 3000) c ≡ true)

  IsRatio-if :
      (b : Bool) (cpt c : Double)
      → IsRatio c
      → IsRatio (if b && lt (of_int 3000) cpt then cpt else c)
  IsRatio-if false cpt c r = r
  IsRatio-if true cpt c r = elim (Bool-cases (lt (of_int 3000) cpt)) [
    | inl e ↦ rw e (inr e)
    | inr e ↦ rw e r
  ]

  record_event-IsRatio :
      (newt : Double) (newc : ℕ) (c : Calibration num)
      → IsRatio c.cyc_per_tick
      → IsRatio (record_event num reading utime newt newc c).cyc_per_tick
  unfolding record_event
  record_event-IsRatio newt newc c r =
      let cpt = over (minus newt c.oldt) (of_int (newc - c.oldc)) in
      IsRatio-if (same c.cyc_per_tick (decimal 0 1) || lt cpt c.cyc_per_tick) cpt c.cyc_per_tick r

  watch-IsRatio :
      (start : Counter) (c : Calibration num)
      → IsRatio c.cyc_per_tick
      → IsRatio (watch num reading utime start c).cyc_per_tick
  unfolding watch
  watch-IsRatio start c r =
      let newt = get_counter num start (access_counter (reading c.readings)) in
      elim (Bool-cases (at_least num reading utime (minus newt c.oldt) (of_int 1000))) [
        | inl e ↦ rw e (elim (Bool-cases (ltb c.oldc (utime c.answers))) [
          | inl f ↦ rw f (record_event-IsRatio newt (utime c.answers) _ r)
          | inr f ↦ rw f r
        ])
        | inr e ↦ rw e r
      ]

  -- Where callibrate ends it has seen 100 events, and `cyc_per_tick` is then 0 or above 3000 if it was before.
  pub watch_all-IsRatio :
      (start : Counter) (fuel : ℕ) (c d : Calibration num)
      → IsRatio c.cyc_per_tick
      → watch_all num reading utime start fuel c ≡ some d
      → IsRatio d.cyc_per_tick × (100 ≤ d.e)
  unfolding watch_all
  watch_all-IsRatio start zero c d r h = cc
  watch_all-IsRatio start (suc n) c d r h = elim (Bool-cases (ltb c.e 100)) [
    | inl e ↦
        watch_all-IsRatio start n (watch num reading utime start c) d (watch-IsRatio start c r)
          (ground (arith, e, h))
    | inr e ↦
        let same : c ≡ d = ground (arith, e, h) in
        subst (λ x. IsRatio x.cyc_per_tick × (100 ≤ x.e)) same (r, ground (arith, e))
  ]
