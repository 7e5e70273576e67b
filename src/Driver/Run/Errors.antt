-- ===== src/Driver/Run/Errors.antt =====
-- What no errors at the end of run_tests say of the traces.
use mar_2015_dynamic_storage.Base.{
  ℕ, ◌+◌, ◌≤◌, ◌<◌, ◌≡◌, refl, sym, ap, ◌∙◌, subst, Bool, false, List, [], ◌∷◌, ◌++◌, arith, length,
  length-append, All, All-append, Bool-cases, Option-cases, inl, inr,
}
use mar_2015_dynamic_storage.Machine.Doubles.{Doubles}
use mar_2015_dynamic_storage.Driver.Stats.{Stats, IsScored}
use mar_2015_dynamic_storage.Driver.Package.{Package}
use mar_2015_dynamic_storage.Driver.Result.{Result, done, app_error, hanging}
use mar_2015_dynamic_storage.Driver.Trace.{Trace}
use mar_2015_dynamic_storage.Driver.Read.{
  Scanner, ReadResult, parsed, unix_error, bad_weight, bad_ignore_ranges, bogus_type,
  assertion_failed, out_of_fuel, read_trace,
}
use mar_2015_dynamic_storage.Driver.Read.Weight.{read_trace-weight}
use mar_2015_dynamic_storage.Driver.Valid
use mar_2015_dynamic_storage.Driver.Valid.{Config, Outcome, running, invalid, eval_mm_valid}
use mar_2015_dynamic_storage.Driver.Valid.Errors.{Counted, eval_mm_valid-errors}
use mar_2015_dynamic_storage.Driver.Util.{Util, eval_mm_util}
use mar_2015_dynamic_storage.Driver.Speed.{Speed, eval_mm_speed}
use mar_2015_dynamic_storage.Driver.Run.{
  Tests, Input, Ended, finished, exited, waiting, map_heap, handle_alarm, new_stats, measure,
  test_trace, run_test, run_tests, driver, after,
}

module _ (sc : Scanner) (pkg : Package) (num : Doubles) (cfg : Config) where
  -- Where no error is counted no trace has timed out, and all have been processed correctly.
  record Clean (n : ℕ) (s : Tests sc pkg num cfg) : Type 0 where
    in_time : s.errors ≡ 0 → s.timed_out ≡ false
    scored : s.errors ≡ 0 → All (IsScored num) s.stats
    count : length s.stats ≡ n

  abbrev IsClean : ℕ → Ended sc pkg num cfg → Type 0
  IsClean n (finished s) = Clean n s
  IsClean n exited = Unit
  IsClean n waiting = Unit

  Clean-note :
      (n : ℕ) (x : Stats num) (s s₁ : Tests sc pkg num cfg)
      → Clean n s
      → (s₁.errors ≡ 0 → s.errors ≡ 0)
      → (s₁.errors ≡ 0 → s₁.timed_out ≡ false)
      → s₁.stats ≡ s.stats ++ x ∷ []
      → (s₁.errors ≡ 0 → IsScored num x)
      → Clean (n + 1) s₁
  Clean-note n x s s₁ c e f g h = record {
    in_time = f;
    scored = λ z.
        subst (All (IsScored num)) (sym g)
          (All-append (IsScored num) s.stats (x ∷ []) (c.scored (e z)) (h z, tt));
    count = ap length g ∙ omega (arith, length-append s.stats (x ∷ []), c.count);
  }

  handle_alarm-Clean :
      (n : ℕ) (i : Input sc pkg num cfg) (s : Tests sc pkg num cfg)
      → Clean n s
      → Clean n (handle_alarm sc pkg num cfg i (map_heap sc pkg num cfg i s))
  unfolding handle_alarm map_heap
  handle_alarm-Clean n i s c = elim (Option-cases i.alarm) [
    | inl e ↦ rw e (record { in_time = c.in_time; scored = c.scored; count = c.count })
    | inr (a, e) ↦ rw e (record {
      in_time = λ z. absurd (omega (arith, z));
      scored = λ z. absurd (omega (arith, z));
      count = c.count;
    })
  ]

  module _ (fsecs : (pkg.State → Result (Speed pkg)) → pkg.State → Result (num.Double × pkg.State))
      (onetime_flag : Bool) where
    measure-IsClean :
        (n : ℕ) (i : Input sc pkg num cfg) (weight num_ops : ℕ) (trace : Trace)
        (s : Tests sc pkg num cfg)
        → weight ≤ 3
        → Clean n s
        → IsClean (n + 1) (measure sc pkg num cfg fsecs i weight num_ops trace s)
    unfolding measure new_stats
    measure-IsClean n i weight num_ops trace s w c = go (eval_mm_util pkg trace s.state) refl
      where
        timed :
            (quotient : ℕ × ℕ) (u : Util pkg)
            → eval_mm_util pkg trace s.state ≡ done (quotient, u)
            → (r : Result (num.Double × pkg.State)) → fsecs (eval_mm_speed pkg trace) u.state ≡ r
            → IsClean (n + 1) (measure sc pkg num cfg fsecs i weight num_ops trace s)
        timed q u e app_error f = rw (e, f, IsClean) tt
        timed q u e hanging f = rw (e, f, IsClean) tt
        timed q u e (done (secs, state)) f =
            rw (e, f, IsClean) (Clean-note n _ s _ c (λ z. z) c.in_time refl (λ z. (refl, w)))

        go :
            (r : Result ((ℕ × ℕ) × Util pkg))
            → eval_mm_util pkg trace s.state ≡ r
            → IsClean (n + 1) (measure sc pkg num cfg fsecs i weight num_ops trace s)
        go app_error e = rw (e, IsClean) tt
        go hanging e = rw (e, IsClean) tt
        go (done (q, u)) e = timed q u e (fsecs (eval_mm_speed pkg trace) u.state) refl

    test_trace-IsClean :
        (n : ℕ) (i : Input sc pkg num cfg) (weight num_ops : ℕ) (trace : Trace)
        (s : Tests sc pkg num cfg)
        → weight ≤ 3
        → Clean n s
        → IsClean (n + 1) (test_trace sc pkg num cfg fsecs onetime_flag i weight num_ops trace s)
    unfolding test_trace new_stats
    test_trace-IsClean n i weight num_ops trace s w c = elim (Bool-cases s.timed_out) [
      | inl late ↦
          rw (late, IsClean)
            (Clean-note n _ s _ c (λ z. z) (λ z. sym late ∙ c.in_time z) refl
              (λ z. let u = sym late ∙ c.in_time z in cc))
      | inr early ↦ go early (eval_mm_valid pkg cfg (driver sc pkg num cfg trace s)) refl
    ]
      where
        counted :
            (o : Outcome pkg)
            → eval_mm_valid pkg cfg (driver sc pkg num cfg trace s) ≡ o
            → Counted pkg cfg s.errors o
        counted o e =
            subst (Counted pkg cfg s.errors) e
              (eval_mm_valid-errors pkg cfg (driver sc pkg num cfg trace s))

        go :
            s.timed_out ≡ false
            → (o : Outcome pkg) → eval_mm_valid pkg cfg (driver sc pkg num cfg trace s) ≡ o
            → IsClean
                (n + 1)
                (test_trace sc pkg num cfg fsecs onetime_flag i weight num_ops trace s)
        go early Valid.aborted e = rw (early, e, IsClean) tt
        go early Valid.hanging e = rw (early, e, IsClean) tt
        go early (invalid d) e =
            let more : s.errors < d.errors = counted (invalid d) e in
            rw (early, e, IsClean)
              (Clean-note n _ s _ c (λ z. absurd (omega (arith, z, more))) (λ z. early) refl
                (λ z. absurd (omega (arith, z, more))))
        go early (running d) e =
            let more : s.errors ≤ d.errors = counted (running d) e in
            let c₁ : Clean n (after sc pkg num cfg d s) = record {
              in_time = λ z. early;
              scored = λ z. c.scored (omega (arith, z, more));
              count = c.count;
            } in
            rw (early, e, IsClean)
              (elim (Bool-cases onetime_flag) [
                | inl once ↦
                    rw (once, IsClean)
                      (Clean-note n _ (after sc pkg num cfg d s) _ c₁ (λ z. z) (λ z. early) refl
                        (λ z. (refl, w)))
                | inr many ↦
                    rw (many, IsClean)
                      (measure-IsClean n i weight num_ops trace (after sc pkg num cfg d s) w c₁)
              ])

    run_test-IsClean :
        (n : ℕ) (i : Input sc pkg num cfg) (s : Tests sc pkg num cfg)
        → Clean n s
        → IsClean (n + 1) (run_test sc pkg num cfg fsecs onetime_flag i s)
    unfolding run_test
    run_test-IsClean n i s₀ c = go (read_trace sc i.opened i.fails i.left i.size₀ i.fuel) refl
      where
        go :
            (r : ReadResult)
            → read_trace sc i.opened i.fails i.left i.size₀ i.fuel ≡ r
            → IsClean (n + 1) (run_test sc pkg num cfg fsecs onetime_flag i s₀)
        go (parsed trace weight num_ops) e =
            rw (e, IsClean)
              (test_trace-IsClean n i weight num_ops trace _
                (read_trace-weight sc i.opened i.fails i.left i.size₀ i.fuel trace weight num_ops e)
                (handle_alarm-Clean n i s₀ c))
        go unix_error e = rw (e, IsClean) tt
        go bad_weight e = rw (e, IsClean) tt
        go bad_ignore_ranges e = rw (e, IsClean) tt
        go (bogus_type x) e = rw (e, IsClean) tt
        go assertion_failed e = rw (e, IsClean) tt
        go out_of_fuel e = rw (e, IsClean) tt

  module _
      (fsecs : (pkg.State → Result (Speed pkg)) → pkg.State → Result (num.Double × pkg.State)) where
    run_tests-IsClean :
        (inputs : List (Input sc pkg num cfg)) (n : ℕ) (s : Tests sc pkg num cfg)
        → Clean n s
        → IsClean (n + length inputs) (run_tests sc pkg num cfg fsecs false inputs s)
    unfolding run_tests
    run_tests-IsClean [] n s c = record {
      in_time = c.in_time;
      scored = c.scored;
      count = omega (arith, c.count);
    }
    run_tests-IsClean (i ∷ rest) n s c =
        go (run_test sc pkg num cfg fsecs false i s) refl (run_test-IsClean fsecs false n i s c)
          (λ s₁. run_tests-IsClean rest (n + 1) s₁)
      where
        go :
            (e : Ended sc pkg num cfg)
            → run_test sc pkg num cfg fsecs false i s ≡ e
            → IsClean (n + 1) e
            → ((s₁ : Tests sc pkg num cfg)
                → Clean (n + 1) s₁
                → IsClean (n + 1 + length rest) (run_tests sc pkg num cfg fsecs false rest s₁))
            → IsClean (n + length (i ∷ rest)) (run_tests sc pkg num cfg fsecs false (i ∷ rest) s)
        go exited e c₁ k = rw (e, IsClean) tt
        go waiting e c₁ k = rw (e, IsClean) tt
        go (finished s₁) e c₁ k =
            rw (e, IsClean)
              (subst (λ k. IsClean k (run_tests sc pkg num cfg fsecs false rest s₁)) (omega arith)
                (k s₁ c₁))

    -- If run_tests begins with no trace noted and no timeout, runs to its end without onetime_flag,
    -- and the count of errors is 0 then: every trace is noted, each as valid and with a weight from 0 to 3, and
    -- the driver has not timed out; whatever the package, the files and the alarm do.
    pub run_tests-IsScored :
        (inputs : List (Input sc pkg num cfg)) (s t : Tests sc pkg num cfg)
        → s.timed_out ≡ false
        → s.stats ≡ []
        → run_tests sc pkg num cfg fsecs false inputs s ≡ finished t
        → t.errors ≡ 0
        → All (IsScored num) t.stats × (length t.stats ≡ length inputs) × (t.timed_out ≡ false)
    run_tests-IsScored inputs s t early empty e z =
        let start : Clean 0 s = record {
          in_time = λ y. early;
          scored = λ y. subst (All (IsScored num)) (sym empty) tt;
          count = ap length empty;
        } in
        let c : Clean (0 + length inputs) t =
          subst (IsClean (0 + length inputs)) e (run_tests-IsClean inputs 0 s start) in
        (c.scored z, omega (arith, c.count), c.in_time z)
