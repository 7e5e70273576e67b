-- ===== src/Timing/Intervals.antt =====
-- malloclab-handout/ftimer.c: the average of `n` runs, by the interval timer and by gettimeofday. What the timers show is
-- a parameter; a run of `f` changes a state.
use mar_2015_dynamic_storage.Base.{ℕ, zero, suc, ◌-◌, ltb, if◌then◌else◌}
use mar_2015_dynamic_storage.Machine.Doubles.{Doubles}

-- `struct timeval`
pub record TimeVal : Type 0 where
  pub tv_sec : ℕ
  pub tv_usec : ℕ

-- `struct itimerval`
pub record Itimer : Type 0 where
  pub it_interval : TimeVal
  pub it_value : TimeVal

-- what init_etime stores in each of first_u, first_r and first_p, and sets the timers to
unfoldable pub init_etime : Itimer
init_etime = record {
  it_interval = record { tv_sec = 0; tv_usec = 0 };
  it_value = record { tv_sec = 86400; tv_usec = 0 };
}

-- the loop `for (i = 0; i < n; i++) f(argp);`
unfoldable pub run_times {ℓ} : {State : Type ℓ} → (State → State) → ℕ → State → State
run_times f zero s = s
run_times f (suc n) s = run_times f n (f s)

module _ (num : Doubles) where
  open num use {Double, of_int, decimal, plus, minus, times, over}

  -- the difference of two `long`s, converted
  unfoldable pub difference : ℕ → ℕ → Double
  difference a b = if ltb a b then minus (of_int 0) (of_int (b - a)) else of_int (a - b)

  -- `r_curr` is what ITIMER_REAL shows.
  unfoldable pub get_etime : (first_p r_curr : Itimer) → Double
  get_etime first_p r_curr =
      plus (difference first_p.it_value.tv_sec r_curr.it_value.tv_sec)
        (times (difference first_p.it_value.tv_usec r_curr.it_value.tv_usec) (decimal 1 6))

  -- `before` and `after` are what the real timer shows round the runs.
  unfoldable pub ftimer_itimer {ℓ} :
      {State : Type ℓ} → (before after : Itimer) → (State → State) → ℕ → State → Double × State
  ftimer_itimer before after f n s =
      let start = get_etime init_etime before in
      let tmeas = minus (get_etime init_etime after) start in
      (over tmeas (of_int n), run_times f n s)

  unfoldable pub ftimer_gettod {ℓ} :
      {State : Type ℓ} → (stv etv : TimeVal) → (State → State) → ℕ → State → Double × State
  ftimer_gettod stv etv f n s =
      let diff =
        plus (times (decimal 1000 0) (difference etv.tv_sec stv.tv_sec))
          (times (decimal 1 3) (difference etv.tv_usec stv.tv_usec)) in
      (times (decimal 1 3) (over diff (of_int n)), run_times f n s)
