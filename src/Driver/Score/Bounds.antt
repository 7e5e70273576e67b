-- ===== src/Driver/Score/Bounds.antt =====
-- In which range the performance index lies.
use mar_2015_dynamic_storage.Base.{ℕ, ◌≡◌, inl, inr, true, false, ◌==◌, Bool-cases}
use mar_2015_dynamic_storage.Machine.Doubles.{Doubles}
use mar_2015_dynamic_storage.Driver.Score.{
  Totals, avg_mm_util, avg_mm_throughput, min_speed, max_speed, min_space, max_space,
  weight_of_util, weight_of_perf, p1, p2, perfindex,
}

-- What the arithmetic of IEEE 754 is known for: `Le a b` says that both are finite and `a` is at most `b`, and each
-- operation rounds in a monotone way.
pub record IsMonotone (num : Doubles) (Le : num.Double → num.Double → Type 0) : Type 0 where
  pub at_least : (a b : num.Double) → Le a a → Le b b → num.lt a b ≡ false → Le b a
  pub differences :
      (lo x hi : num.Double)
      → Le lo x
      → Le x hi
      → Le (num.minus hi lo) (num.minus hi lo)
      → Le (num.decimal 0 1) (num.minus x lo) × Le (num.minus x lo) (num.minus hi lo)
  pub ratios :
      (a b : num.Double)
      → Le (num.decimal 0 1) a
      → Le a b
      → num.lt (num.decimal 0 1) b ≡ true
      → Le (num.decimal 0 1) (num.over a b) × Le (num.over a b) (num.decimal 10 1)
  pub parts :
      (a b : num.Double)
      → Le (num.decimal 0 1) a
      → Le a (num.decimal 10 1)
      → Le (num.decimal 0 1) b
      → Le (num.decimal 0 1) (num.times a b) × Le (num.times a b) b
  pub sums :
      (a b c d : num.Double)
      → Le (num.decimal 0 1) a
      → Le a c
      → Le (num.decimal 0 1) b
      → Le b d
      → Le (num.plus c d) (num.plus c d)
      → Le (num.decimal 0 1) (num.plus a b) × Le (num.plus a b) (num.plus c d)
  pub multiples :
      (a b c : num.Double)
      → Le (num.decimal 0 1) a
      → Le a b
      → Le (num.decimal 0 1) c
      → Le (num.times b c) (num.times b c)
      → Le (num.decimal 0 1) (num.times a c) × Le (num.times a c) (num.times b c)

-- the values of the literals
pub record Constants (num : Doubles) (Le : num.Double → num.Double → Type 0) : Type 0 where
  pub zero_le_zero : Le (num.decimal 0 1) (num.decimal 0 1)
  pub hundred : Le (num.decimal 0 1) (num.decimal 1000 1)
  pub space : Le (min_space num) (min_space num) × Le (max_space num) (max_space num)
  pub speed : Le (min_speed num) (min_speed num) × Le (max_speed num) (max_speed num)
  pub space_range :
      Le (num.minus (max_space num) (min_space num)) (num.minus (max_space num) (min_space num))
      × (num.lt (num.decimal 0 1) (num.minus (max_space num) (min_space num)) ≡ true)
  pub speed_range :
      Le (num.minus (max_speed num) (min_speed num)) (num.minus (max_speed num) (min_speed num))
      × (num.lt (num.decimal 0 1) (num.minus (max_speed num) (min_speed num)) ≡ true)
  pub weights :
      Le (num.decimal 0 1) (weight_of_util num) × Le (num.decimal 0 1) (weight_of_perf num)
  pub own_weights :
      Le (weight_of_util num) (weight_of_util num) × Le (weight_of_perf num) (weight_of_perf num)
  pub sum :
      Le
        (num.plus (weight_of_util num) (weight_of_perf num))
        (num.plus (weight_of_util num) (weight_of_perf num))
  pub full :
      Le
        (num.times (num.plus (weight_of_util num) (weight_of_perf num)) (num.decimal 1000 1))
        (num.times (num.plus (weight_of_util num) (weight_of_perf num)) (num.decimal 1000 1))

module _ (num : Doubles) (Le : num.Double → num.Double → Type 0) (l : IsMonotone num Le)
    (k : Constants num Le) where
  open num use {Double, decimal, minus, over, times, plus, lt}

  abbrev nought : Double
  nought = decimal 0 1

  -- the share of a weight `w` for a value between the bounds
  share-between :
      (lo x hi w : Double)
      → Le x x
      → Le lo lo
      → Le hi hi
      → Le (minus hi lo) (minus hi lo)
      → lt nought (minus hi lo) ≡ true
      → Le nought w
      → lt x lo ≡ false
      → lt hi x ≡ false
      → Le nought (times (over (minus x lo) (minus hi lo)) w)
        × Le (times (over (minus x lo) (minus hi lo)) w) w
  share-between lo x hi w a b c d e f g h =
      let (low, high) = l.differences lo x hi (l.at_least x lo a b g) (l.at_least hi x c a h) d in
      let (some, most) = l.ratios (minus x lo) (minus hi lo) low high e in
      l.parts (over (minus x lo) (minus hi lo)) w some most f

  p1-bounds :
      (util : Double)
      → Le util util
      → Le nought (p1 num util) × Le (p1 num util) (weight_of_util num)
  unfolding p1
  p1-bounds util a = elim (Bool-cases (lt util (min_space num))) [
    | inl e ↦ rw e (k.zero_le_zero, k.weights.0)
    | inr e ↦ elim (Bool-cases (lt (max_space num) util)) [
      | inl f ↦ rw (e, f) (k.weights.0, k.own_weights.0)
      | inr f ↦
          rw (e, f)
            (share-between (min_space num) util (max_space num) (weight_of_util num) a k.space.0
              k.space.1 k.space_range.0 k.space_range.1 k.weights.0 e f)
    ]
  ]

  p2-bounds :
      (throughput : Double)
      → Le throughput throughput
      → Le nought (p2 num throughput) × Le (p2 num throughput) (weight_of_perf num)
  unfolding p2
  p2-bounds throughput a = elim (Bool-cases (lt throughput (min_speed num))) [
    | inl e ↦ rw e (k.zero_le_zero, k.weights.1)
    | inr e ↦ elim (Bool-cases (lt (max_speed num) throughput)) [
      | inl f ↦ rw (e, f) (k.weights.1, k.own_weights.1)
      | inr f ↦
          rw (e, f)
            (share-between (min_speed num) throughput (max_speed num) (weight_of_perf num) a
              k.speed.0 k.speed.1 k.speed_range.0 k.speed_range.1 k.weights.1 e f)
    ]
  ]

  -- If the arithmetic is monotone, the literals have their order, and the two averages are finite: the
  -- performance index is at least 0 and at most the sum of the two weights times 100, whatever the averages
  -- and the number of errors are.
  pub perfindex-bounds :
      (errors : ℕ) (t : Totals num)
      → Le (avg_mm_util num t) (avg_mm_util num t)
      → Le (avg_mm_throughput num t) (avg_mm_throughput num t)
      → Le nought (perfindex num errors t)
        × Le
            (perfindex num errors t)
            (times (plus (weight_of_util num) (weight_of_perf num)) (decimal 1000 1))
  unfolding perfindex
  perfindex-bounds errors t a b =
      let x = p1 num (avg_mm_util num t) in
      let y = p2 num (avg_mm_throughput num t) in
      let (x_low, x_high) = p1-bounds (avg_mm_util num t) a in
      let (y_low, y_high) = p2-bounds (avg_mm_throughput num t) b in
      let (low, high) =
        l.sums x y (weight_of_util num) (weight_of_perf num) x_low x_high y_low y_high k.sum in
      let scored =
        l.multiples (plus x y) (plus (weight_of_util num) (weight_of_perf num)) (decimal 1000 1) low
          high k.hundred k.full in
      let all = plus (weight_of_util num) (weight_of_perf num) in
      let none =
        l.sums (weight_of_util num) (weight_of_perf num) (weight_of_util num) (weight_of_perf num)
          k.weights.0 k.own_weights.0 k.weights.1 k.own_weights.1 k.sum in
      let room = l.multiples all all (decimal 1000 1) none.0 none.1 k.hundred k.full in
      elim (Bool-cases (errors == 0)) [
        | inl e ↦ rw e scored
        | inr e ↦ rw e (k.zero_le_zero, room.0)
      ]
