-- ===== src/Timing/Fcyc/Best.antt =====
-- add_sample against the list of all samples: `values` holds the smallest of them in order.
use mar_2015_dynamic_storage.Base.{
  ℕ, zero, suc, ◌+◌, ◌-◌, ◌≤◌, ◌<◌, ◌≡◌, ◌∙◌, sym, subst, ap, refl, true, false, List, [], ◌∷◌,
  ◌++◌, length, get_or, set, arith, take, replicate, ltb, Bool-cases, inl, inr, snoc_view,
  get_or-append, set-append, length-append, take_all, take-append,
}
use native.Mathlib.Decide.{dec_lt}
use mathlib.Core.List.{append-nil}
use mar_2015_dynamic_storage.Timing.Fcyc.Order.{
  Samples, insert, sort, IsSorted, sort-IsSorted, take-IsSorted,
}
use mar_2015_dynamic_storage.Timing.Fcyc.Sift.{
  sift-insert, insert-snoc_lt, insert_last, last_most, front-IsSorted,
}
use mar_2015_dynamic_storage.Timing.Fcyc.{Sampler, init_sampler, sift, add_sample}

module _ (num : Samples) where
  open num use {Value, nought, lt}

  pub length-insert : (x : Value) (ys : List Value) → length (insert num x ys) ≡ length ys + 1
  unfolding insert
  length-insert x [] = omega arith
  length-insert x (y ∷ ys) = ground (arith, length-insert x ys)

  pub length-sort : (xs : List Value) → length (sort num xs) ≡ length xs
  unfolding sort
  length-sort [] = refl
  length-sort (x ∷ xs) = omega (arith, length-insert x (sort num xs), length-sort xs)

  length-take : (n : ℕ) (xs : List Value) → n ≤ length xs → length (take n xs) ≡ n
  length-take zero xs h = refl
  length-take (suc n) [] h = absurd (omega (arith, h))
  length-take (suc n) (x ∷ xs) h = omega (arith, length-take n xs (omega (arith, h)))

  take-take : (m n : ℕ) (xs : List Value) → m ≤ n → take m (take n xs) ≡ take m xs
  take-take zero n xs h = refl
  take-take (suc m) zero xs h = absurd (omega arith)
  take-take (suc m) (suc n) [] h = refl
  take-take (suc m) (suc n) (x ∷ xs) h = ap (λ zs. x ∷ zs) (take-take m n xs (omega arith))

  take-cons : (n : ℕ) (y : Value) (ys : List Value) → take n (y ∷ ys) ≡ take n (y ∷ take n ys)
  take-cons zero y ys = refl
  take-cons (suc n) y ys = ap (λ zs. y ∷ zs) (sym (take-take n (suc n) ys (omega arith)))

  -- Only the first `n` values bear on the first `n` after an insertion.
  take-insert :
      (n : ℕ) (x : Value) (ys : List Value)
      → take n (insert num x ys) ≡ take n (insert num x (take n ys))
  unfolding insert
  take-insert zero x ys = refl
  take-insert (suc n) x [] = refl
  take-insert (suc n) x (y ∷ ys) = elim (Bool-cases (lt x y)) [
    | inl e ↦ rw e (ap (λ zs. x ∷ zs) (take-cons n y ys))
    | inr e ↦ rw e (ap (λ zs. y ∷ zs) (take-insert n x ys))
  ]

  -- The sampler has seen the samples `xs`: `values` starts with the smallest of them, in order, and
  -- is zero behind them.
  pub record Seen (kbest : ℕ) (xs : List Value) (s : Sampler num) : Type 0 where
    pub count : s.samplecount ≡ length xs
    pub best : s.values ≡ take kbest (sort num xs) ++ replicate (kbest - length xs) nought

  pub init_sampler-Seen : (kbest : ℕ) → Seen kbest [] (init_sampler num kbest)
  unfolding init_sampler sort
  init_sampler-Seen zero = record { count = refl; best = refl }
  init_sampler-Seen (suc k) =
      let same : suc k - 0 ≡ suc k = omega arith in record { count = refl; best = rw same }

  module _ (kbest : ℕ) (x : Value) (xs : List Value) (s : Sampler num) (h : Seen kbest xs s) where
    more : length xs < kbest → Seen kbest (x ∷ xs) (add_sample num kbest x s)
    unfolding add_sample sort
    more k =
        let old = sort num xs in
        let rest = replicate (kbest - suc (length xs)) nought in
        let fits : take kbest old ≡ old = take_all kbest old (omega (arith, length-sort xs)) in
        let room : kbest - length xs ≡ suc (kbest - suc (length xs)) = omega arith in
        let values : s.values ≡ old ++ nought ∷ rest = h.best ∙ rw (fits, room) in
        let new : ltb s.samplecount kbest ≡ true = ground (arith, h.count) in
        let written : set s.values s.samplecount x ≡ old ++ x ∷ rest =
          rw (values, h.count)
            (subst (λ n. set (old ++ nought ∷ rest) n x ≡ old ++ x ∷ rest) (length-sort xs)
              (set-append old nought rest x)) in
        let sorted : sift num s.samplecount (old ++ x ∷ rest) ≡ insert num x old ++ rest =
          sift-insert num s.samplecount old x rest (length-sort xs ∙ sym h.count)
            (sort-IsSorted num xs) in
        let whole : take kbest (insert num x old) ≡ insert num x old =
          take_all kbest (insert num x old) (omega (arith, length-insert x old, length-sort xs)) in
        rw (new, written, sorted) (record { count = omega (arith, h.count); best = rw whole })

  -- `values` is full, with `a` as its last value.
  module _ (us : List Value) (a x : Value) (xs : List Value) (s : Sampler num)
      (h : Seen (suc (length us)) xs s) (e : take (suc (length us)) (sort num xs) ≡ us ++ a ∷ [])
      (k : suc (length us) ≤ length xs) where
    full_values : s.values ≡ us ++ a ∷ []
    full_values =
        let none_left : suc (length us) - length xs ≡ 0 = omega arith in
        h.best ∙ rw (none_left, append-nil) e

    full_best :
        take (suc (length us)) (sort num (x ∷ xs))
          ++ replicate (suc (length us) - length (x ∷ xs)) nought
        ≡ take (suc (length us)) (insert num x (us ++ a ∷ []))
    unfolding sort
    full_best =
        let none_left : suc (length us) - suc (length xs) ≡ 0 = omega arith in
        rw (none_left, append-nil) (take-insert (suc (length us)) x (sort num xs) ∙ rw e)

    full-IsSorted : IsSorted num (us ++ a ∷ [])
    full-IsSorted =
        subst (IsSorted num) e
          (take-IsSorted num (suc (length us)) (sort num xs) (sort-IsSorted num xs))

    full_lt :
        lt x a ≡ true
        → sift num (length us) (us ++ x ∷ []) ≡ take (suc (length us)) (insert num x (us ++ a ∷ []))
    full_lt b =
        let put : List Value = insert num x us in
        let len : length put ≡ suc (length us) = omega (arith, length-insert x us) in
        rw (insert-snoc_lt num x a us b) (
          sift-insert num (length us) us x [] refl (front-IsSorted num a us full-IsSorted)
          ∙ append-nil put
          ∙ sym (subst (λ n. take n (put ++ a ∷ []) ≡ put) len (take-append put (a ∷ []))))

    full_ge : lt x a ≡ false → us ++ a ∷ [] ≡ take (suc (length us)) (insert num x (us ++ a ∷ []))
    full_ge b =
        let all = us ++ a ∷ [] in
        let len : length all ≡ suc (length us) = omega (arith, length-append us (a ∷ [])) in
        rw (insert_last num x all (last_most num x a us full-IsSorted b))
          (sym (subst (λ n. take n (all ++ x ∷ []) ≡ all) len (take-append all (x ∷ []))))

    full : Seen (suc (length us)) (x ∷ xs) (add_sample num (suc (length us)) x s)
    unfolding add_sample sift
    full =
        let seen : ltb s.samplecount (suc (length us)) ≡ false = ground (arith, h.count) in
        let back : suc (length us) - 1 ≡ length us = omega arith in
        let last : get_or s.values (length us) nought ≡ a =
          rw full_values (get_or-append us (a ∷ []) nought) in
        elim (Bool-cases (lt x a)) [
          | inl b ↦
              rw (seen, back, last, b)
                (record {
                  count = omega (arith, h.count);
                  best = rw (full_best, full_values, set-append us a [] x) (full_lt b);
                })
          | inr b ↦
              rw (seen, back, last, b)
                (record {
                  count = omega (arith, h.count);
                  best = rw (full_best, full_values) (full_ge b);
                })
        ]

  -- add_sample keeps the smallest samples: after it the sampler has seen one sample more.
  pub add_sample-Seen :
      (kbest : ℕ) (x : Value) (xs : List Value) (s : Sampler num)
      → 0 < kbest
      → Seen kbest xs s
      → Seen kbest (x ∷ xs) (add_sample num kbest x s)
  add_sample-Seen kbest x xs s p h = elim (dec_lt (length xs) kbest) [
    | yes k ↦ more kbest x xs s h k
    | no k ↦
        let (us, a, e, m) =
          snoc_view (kbest - 1) (take kbest (sort num xs))
            (omega (arith, length-take kbest (sort num xs) (omega (arith, length-sort xs)))) in
        let len : suc (length us) ≡ kbest = omega (arith, m) in
        subst (λ n. Seen n (x ∷ xs) (add_sample num n x s)) len
          (full us a x xs s (subst (λ n. Seen n xs s) (sym len) h)
            (subst (λ n. take n (sort num xs) ≡ us ++ a ∷ []) (sym len) e) (omega arith))
  ]
