-- ===== src/Timing/Clock/Exact.antt =====
-- What get_counter of malloclab-handout/clock.c returns between two readings of the counter.
use mar_2015_dynamic_storage.Base.{
  ℕ, ◌+◌, ◌-◌, ◌*◌, ◌%◌, ◌/◌, ◌^◌, ◌≤◌, ◌<◌, ◌≡◌, arith, ltb, if◌then◌else◌, ap, ◌∙◌,
}
use mar_2015_dynamic_storage.Machine.Doubles.{Doubles}
use mar_2015_dynamic_storage.Timing.Clock.{access_counter, to_double, get_counter}

-- The sum and the product of whole numbers are exact where the result is at most 2 ^ 53.
pub record IsExact (num : Doubles) : Type 0 where
  pub exact_plus :
      (a b : ℕ) → a + b ≤ 2 ^ 53 → num.plus (num.of_int a) (num.of_int b) ≡ num.of_int (a + b)
  pub exact_times :
      (a b : ℕ) → a * b ≤ 2 ^ 53 → num.times (num.of_int a) (num.of_int b) ≡ num.of_int (a * b)

module _ (num : Doubles) where
  -- the two words of the difference, and the `borrow`
  get_counter-access_counter :
      (t cycles : ℕ)
      → t < 2 ^ 64
      → cycles < 2 ^ 64
      → get_counter num (access_counter t) (access_counter ((t + cycles) % 2 ^ 64))
        ≡ to_double num (access_counter cycles)
  unfolding get_counter access_counter
  get_counter-access_counter t cycles h k =
      let then_ = (t + cycles) % 2 ^ 64 in
      let lo = (then_ % 2 ^ 32 + 2 ^ 32 - t % 2 ^ 32) % 2 ^ 32 in
      let borrow : ℕ = if ltb (then_ % 2 ^ 32) lo then 1 else 0 in
      let low : lo ≡ cycles % 2 ^ 32 = omega arith in
      let high : (then_ / 2 ^ 32 % 2 ^ 32 + 2 ^ 32 + 2 ^ 32 - t / 2 ^ 32 % 2 ^ 32 - borrow) % 2 ^ 32
          ≡ cycles / 2 ^ 32 % 2 ^ 32 =
        ground arith in
      λ i. to_double num (record { hi = high i; lo = low i })

  to_double-access_counter :
      IsExact num
      → (cycles : ℕ) → cycles ≤ 2 ^ 53
      → to_double num (access_counter cycles) ≡ num.of_int cycles
  unfolding to_double access_counter
  to_double-access_counter exact cycles h =
      let hi = cycles / 2 ^ 32 % 2 ^ 32 in
      let lo = cycles % 2 ^ 32 in
      let first = exact.exact_times hi (2 ^ 30) (omega (arith, h)) in
      let second = exact.exact_times (hi * 2 ^ 30) 4 (omega (arith, h)) in
      let third = exact.exact_plus (hi * 2 ^ 30 * 4) lo (omega (arith, h)) in
      ap (λ x. num.plus (num.times x (num.of_int 4)) (num.of_int lo)) first
      ∙ ap (λ x. num.plus x (num.of_int lo)) second
      ∙ third
      ∙ ap num.of_int (omega (arith, h))

  -- If the sums and products of whole numbers up to 2 ^ 53 are exact: get_counter is the `double` of
  -- the number of cycles between two readings of a 64-bit counter, at most 2 ^ 53 cycles apart, also
  -- when the counter has wrapped in between.
  pub get_counter-elapsed :
      IsExact num
      → (t cycles : ℕ) → t < 2 ^ 64
      → cycles ≤ 2 ^ 53
      → get_counter num (access_counter t) (access_counter ((t + cycles) % 2 ^ 64))
        ≡ num.of_int cycles
  get_counter-elapsed exact t cycles h k =
      get_counter-access_counter t cycles h (omega (arith, k))
      ∙ to_double-access_counter exact cycles k
