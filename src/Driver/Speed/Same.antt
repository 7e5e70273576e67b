-- ===== src/Driver/Speed/Same.antt =====
-- The timed run makes the calls of the run that measures the utilization.
use mar_2015_dynamic_storage.Base.{
  ℕ, ◌≡◌, refl, ◌&&◌, not, List, [], ◌∷◌, none, some, ◌==◌, get_or, Bool-cases, Option-cases, inl,
  inr, ◌∙◌,
}
use mar_2015_dynamic_storage.Machine.Word.{to_int, to_size_t}
use mar_2015_dynamic_storage.Memlib.{mem_reset_brk}
use mar_2015_dynamic_storage.Driver.Package.{Package}
use mar_2015_dynamic_storage.Driver.Result.{Result, done, app_error, hanging, bind}
use mar_2015_dynamic_storage.Driver.Trace.{Op, alloc, realloc, free, Trace, reinit_trace}
use mar_2015_dynamic_storage.Driver.Util.{
  Util, util_alloc, util_realloc, util_free, util_op, raise_max, util_ops, start, eval_mm_util,
}
use mar_2015_dynamic_storage.Driver.Speed.{
  Speed, speed_alloc, speed_realloc, speed_free, speed_op, speed_ops, eval_mm_speed,
}

module _ (pkg : Package) where
  -- what the two runs share
  abbrev pub timed : Util pkg → Speed pkg
  timed u = record { state = u.state; blocks = u.blocks }

  abbrev pub map_done {ℓ κ} : {A : Type ℓ} {B : Type κ} → (A → B) → Result A → Result B
  map_done f (done a) = done (f a)
  map_done f app_error = app_error
  map_done f hanging = hanging

  speed_alloc-timed :
      (i n : ℕ) (u : Util pkg)
      → speed_alloc pkg i n (timed u) ≡ map_done timed (util_alloc pkg i n u)
  unfolding speed_alloc util_alloc
  speed_alloc-timed i n u = elim (Option-cases (pkg.mm_malloc (to_size_t n) u.state)) [
    | inl e ↦ rw (e, speed_alloc, util_alloc, map_done)
    | inr ((p, s), e) ↦
        rw (e, speed_alloc, util_alloc, map_done)
          (elim (Bool-cases (p == 0)) [ inl h ↦ rw h | inr h ↦ rw h ])
  ]

  speed_realloc-timed :
      (i n : ℕ) (u : Util pkg)
      → speed_realloc pkg i n (timed u) ≡ map_done timed (util_realloc pkg i n u)
  unfolding speed_realloc util_realloc
  speed_realloc-timed i n u =
      elim (Option-cases (pkg.mm_realloc (get_or u.blocks i 0) (to_size_t n) u.state)) [
        | inl e ↦ rw (e, speed_realloc, util_realloc, map_done)
        | inr ((p, s), e) ↦
            rw (e, speed_realloc, util_realloc, map_done)
              (elim (Bool-cases (p == 0 && not (n == 0))) [ inl h ↦ rw h | inr h ↦ rw h ])
      ]

  speed_op-timed :
      (op : Op) (u : Util pkg) → speed_op pkg op (timed u) ≡ map_done timed (util_op pkg op u)
  unfolding speed_op util_op speed_free util_free
  speed_op-timed (alloc i n) u = speed_alloc-timed i (to_int n) u
  speed_op-timed (realloc i n) u = speed_realloc-timed i (to_int n) u
  speed_op-timed (free none) u = refl
  speed_op-timed (free (some i)) u = refl

  speed_ops-timed :
      (ops : List Op) (u : Util pkg)
      → speed_ops pkg ops (timed u) ≡ map_done timed (util_ops pkg ops u)
  unfolding speed_ops util_ops raise_max
  speed_ops-timed [] u = refl
  speed_ops-timed (op ∷ ops) u =
      rw (speed_op-timed op u)
        (go (util_op pkg op u) (λ u₁. speed_ops-timed ops (raise_max pkg u₁)))
    where
      go :
          (r : Result (Util pkg))
          → ((u₁ : Util pkg)
              → speed_ops pkg ops (timed (raise_max pkg u₁))
                ≡ map_done timed (util_ops pkg ops (raise_max pkg u₁)))
          → bind (map_done timed r) (speed_ops pkg ops)
            ≡ map_done timed (bind r (λ u₁. util_ops pkg ops (raise_max pkg u₁)))
      go (done u₁) ih = ih u₁
      go app_error ih = refl
      go hanging ih = refl

  map_done-measured :
      (r : Result (Util pkg)) (f : Util pkg → ℕ × ℕ)
      → map_done timed r
        ≡ map_done (λ (q : (ℕ × ℕ) × Util pkg). timed q.1) (bind r (λ u. done (f u, u)))
  map_done-measured (done u) f = refl
  map_done-measured app_error f = refl
  map_done-measured hanging f = refl

  -- On every trace and from every state, eval_mm_speed has the outcome of eval_mm_util, and leaves the
  -- package's state and the blocks that it leaves: it makes the same calls.
  pub eval_mm_speed-eval_mm_util :
      (trace : Trace) (s : pkg.State)
      → eval_mm_speed pkg trace s ≡ map_done (λ r. timed r.1) (eval_mm_util pkg trace s)
  unfolding eval_mm_speed eval_mm_util start
  eval_mm_speed-eval_mm_util trace s =
      let (ok, s₁) = pkg.mm_init (pkg.with_sys (mem_reset_brk (pkg.sys s)) s) in
      let t = reinit_trace trace in
      let u : Util pkg = record {
        state = s₁;
        blocks = t.blocks;
        block_sizes = t.block_sizes;
        total_size = 0;
        max_total_size = 0;
      } in
      elim (Bool-cases ok) [
        | inl e ↦
            rw (e, eval_mm_speed, eval_mm_util, start)
              (speed_ops-timed trace.ops u ∙ map_done-measured (util_ops pkg trace.ops u) _)
        | inr e ↦ rw (e, eval_mm_speed, eval_mm_util, start)
      ]
