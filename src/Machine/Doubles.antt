-- ===== src/Machine/Doubles.antt =====
-- The `double`s of malloclab-handout/mdriver.c and malloclab-handout/clock.c: the compiler's arithmetic is a parameter.
use mar_2015_dynamic_storage.Base.{ℕ, Bool}

-- `decimal d k` is the literal whose digits are `d`, the last `k` of them behind the point; `of_int` is the
-- conversion of an `int` or `unsigned` that is not negative; `lt` is `<` `same` is `==`, and `to_float` rounds
-- to a `float`.
pub record Doubles : Type 1 where
  pub Double : Type 0
  pub of_int : ℕ → Double
  pub decimal : (digits places : ℕ) → Double
  pub plus : Double → Double → Double
  pub minus : Double → Double → Double
  pub times : Double → Double → Double
  pub to_float : Double → Double
  pub over : Double → Double → Double
  pub lt : Double → Double → Bool
  pub same : Double → Double → Bool
