-- ===== src/Timing/Fcyc/Ends.antt =====
-- fcyc ends, and returns the least of the samples that it has taken.
use mar_2015_dynamic_storage.Base.{
  ℕ, zero, suc, ◌+◌, ◌-◌, ◌≤◌, ◌<◌, ◌≡◌, ◌∙◌, subst, ap, refl, Bool, true, not, ◌&&◌, List, [], ◌∷◌,
  ◌++◌, some, length, get_or, arith, All, take, replicate, ltb, Bool-cases, inl, inr, ◌⊎◌,
}
use mar_2015_dynamic_storage.Timing.Fcyc.Order.{
  Samples, sort, IsSorted, sort-IsSorted, Le, Among, Among-sort, All-of_sort,
}
use mar_2015_dynamic_storage.Timing.Fcyc.Best.{
  Seen, init_sampler-Seen, add_sample-Seen, length-sort,
}
use mar_2015_dynamic_storage.Timing.Fcyc.{
  Params, Sampler, init_sampler, add_sample, has_converged, sample_loop, fcyc,
}

module _ (num : Samples) (p : Params) (cycles : Bool → ℕ → num.Value) (pos : 0 < p.kbest) where
  open num use {Value, nought, lt}

  -- the first `n` measurements, the last one first
  unfoldable pub taken : ℕ → List Value
  taken zero = []
  taken (suc n) = cycles p.compensate n ∷ taken n

  length-taken : (n : ℕ) → length (taken n) ≡ n
  unfolding taken
  length-taken zero = refl
  length-taken (suc n) = ap suc (length-taken n)

  -- What holds when the loop stops after `n` samples: not before the samples agree, unless there are
  -- `maxsamples` of them.
  pub record Stopped (n : ℕ) (s : Sampler num) : Type 0 where
    pub seen : Seen num p.kbest (taken n) s
    pub some_sample : 0 < n
    pub few : (n ≤ p.maxsamples) ⊎ (n ≡ 1)
    pub reason : (has_converged num p.kbest s ≡ true) ⊎ (p.maxsamples ≤ n)

  loop_ends :
      (fuel n : ℕ) (s : Sampler num)
      → Seen num p.kbest (taken n) s
      → (n < p.maxsamples) ⊎ (n ≡ 0)
      → p.maxsamples < fuel + n
      → 0 < fuel
      → (k : ℕ) × (s' : Sampler num) × (sample_loop num p cycles fuel s ≡ some s') × Stopped k s'
  unfolding sample_loop taken
  loop_ends zero n s h few f g = absurd (omega arith)
  loop_ends (suc fuel) n s h few f g =
      let s' = add_sample num p.kbest (cycles p.compensate s.samplecount) s in
      let count : s.samplecount ≡ n = h.count ∙ length-taken n in
      let h' : Seen num p.kbest (taken (suc n)) s' =
        subst
          (λ t.
            Seen num p.kbest (cycles p.compensate t ∷ taken n)
              (add_sample num p.kbest (cycles p.compensate s.samplecount) s))
          count
          (add_sample-Seen num p.kbest (cycles p.compensate s.samplecount) (taken n) s pos h) in
      let count' : s'.samplecount ≡ suc n = h'.count ∙ length-taken (suc n) in
      elim (Bool-cases (not (has_converged num p.kbest s') && ltb s'.samplecount p.maxsamples)) [
        | inl e ↦
            let (k, t, r, q) =
              loop_ends fuel (suc n) s' h' (inl (ground (arith, e, count'))) (omega arith)
                (ground (arith, e, count')) in
            (k, t, rw e r, q)
        | inr e ↦ (
          suc n,
          s',
          rw e,
          record {
            seen = h';
            some_sample = omega arith;
            few = ground (arith, few);
            reason = ground (arith, e, count');
          },
        )
      ]

  le_refl : (v : Value) → Le num v v
  le_refl v = elim (Bool-cases (lt v v)) [ inl e ↦ num.lt_asym v v e | inr e ↦ e ]

  first_least :
      (k : ℕ) (ys rest : List Value)
      → IsSorted num ys
      → 0 < k
      → 0 < length ys
      → let v = get_or (take k ys ++ rest) 0 nought in All (Le num v) ys × Among num v ys
  first_least k [] rest s h g = absurd (omega (arith, g))
  first_least zero (y ∷ ys) rest s h g = absurd (omega arith)
  first_least (suc k) (y ∷ ys) rest s h g = ((le_refl y, s.0), inl refl)

  least :
      (n : ℕ) (s : Sampler num)
      → Stopped n s
      → let v = get_or s.values 0 nought in All (Le num v) (taken n) × Among num v (taken n)
  least n s q =
      let xs = taken n in
      let rest = replicate (p.kbest - length xs) nought in
      let (a, b) =
        first_least p.kbest (sort num xs) rest (sort-IsSorted num xs) pos
          (omega (arith, length-sort num xs, length-taken n, q.some_sample)) in
      rw q.seen.best (All-of_sort num (Le num _) xs a, Among-sort num _ xs b)

  fcyc-sample_loop :
      (s : Sampler num)
      → sample_loop num p cycles (p.maxsamples + 1) (init_sampler num p.kbest) ≡ some s
      → fcyc num p cycles ≡ some (get_or s.values 0 nought, s)
  unfolding fcyc
  fcyc-sample_loop s e = rw (e, fcyc)

  none_taken : Seen num p.kbest (taken 0) (init_sampler num p.kbest)
  unfolding taken
  none_taken = init_sampler-Seen num p.kbest

  -- If `kbest` is not 0: fcyc ends after at least one measurement, and at most `maxsamples` if that is not 0, when the best
  -- samples agree or there are `maxsamples` of them. Its result is one of the samples taken, and none
  -- of them is less.
  pub fcyc_lem :
      (n : ℕ) × (v : Value) × (s : Sampler num) × (fcyc num p cycles ≡ some (v, s))
      × Stopped n s
      × All (Le num v) (taken n)
      × Among num v (taken n)
  fcyc_lem =
      let (n, s, e, q) =
        loop_ends (p.maxsamples + 1) 0 (init_sampler num p.kbest) none_taken (inr refl)
          (omega arith) (omega arith) in
      let (a, b) = least n s q in (n, get_or s.values 0 nought, s, fcyc-sample_loop s e, q, a, b)
