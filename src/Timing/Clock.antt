-- ===== src/Timing/Clock.antt =====
-- start_counter and get_counter of malloclab-handout/clock.c, on x86. The instruction `rdtsc` is a
-- parameter: the two words of a 64-bit count.
pub mod Exact
use mar_2015_dynamic_storage.Base.{ℕ, ◌+◌, ◌-◌, ◌*◌, ◌%◌, ◌/◌, ◌^◌, ltb, if◌then◌else◌}
use mar_2015_dynamic_storage.Machine.Doubles.{Doubles}

-- `cyc_hi` and `cyc_lo`
pub record Counter : Type 0 where
  pub hi : ℕ
  pub lo : ℕ

-- what access_counter stores for the count `tsc`
unfoldable pub access_counter : ℕ → Counter
access_counter tsc = record { hi = tsc / 2 ^ 32 % 2 ^ 32; lo = tsc % 2 ^ 32 }

module _ (num : Doubles) where
  open num use {Double, of_int, plus, times}

  -- `(double) hi * (1 << 30) * 4 + lo`
  unfoldable pub to_double : Counter → Double
  to_double c = plus (times (times (of_int c.hi) (of_int (2 ^ 30))) (of_int 4)) (of_int c.lo)

  -- `start` is the counter that start_counter has recorded. The three subtractions are of `unsigned`.
  unfoldable pub get_counter : (start now : Counter) → Double
  get_counter start now =
      let lo = (now.lo + 2 ^ 32 - start.lo) % 2 ^ 32 in
      let borrow = if ltb now.lo lo then 1 else 0 in
      let hi = (now.hi + 2 ^ 32 + 2 ^ 32 - start.hi - borrow) % 2 ^ 32 in
      to_double (record { hi = hi; lo = lo })
