-- ===== src/Timing/Fcyc/Sift.antt =====
-- The insertion sort of add_sample puts the value at `pos` in its place among those before it.
use mar_2015_dynamic_storage.Base.{
  ℕ, zero, suc, ◌≡◌, ◌∙◌, sym, subst, ap, refl, true, false, List, [], ◌∷◌, ◌++◌, length, arith,
  All, Bool-cases, inl, inr, snoc_view, get_or-append, set-append, get_or-append_next,
  set-append_next,
}
use mathlib.Core.List.{append_assoc}
use mar_2015_dynamic_storage.Timing.Fcyc.Order.{Samples, insert, IsSorted, Le}
use mar_2015_dynamic_storage.Timing.Fcyc.{sift}

module _ (num : Samples) where
  open num use {Value, nought, lt}

  -- If the last value is larger, `x` goes before it.
  pub insert-snoc_lt :
      (x a : Value) (ys : List Value)
      → lt x a ≡ true
      → insert num x (ys ++ a ∷ []) ≡ insert num x ys ++ a ∷ []
  unfolding insert
  insert-snoc_lt x a [] h = rw h
  insert-snoc_lt x a (y ∷ ys) h = elim (Bool-cases (lt x y)) [
    | inl e ↦ rw e
    | inr e ↦ rw e (ap (λ zs. y ∷ zs) (insert-snoc_lt x a ys h))
  ]

  -- A value that is not below any goes to the end.
  pub insert_last :
      (x : Value) (ys : List Value) → All (λ y. Le num y x) ys → insert num x ys ≡ ys ++ x ∷ []
  unfolding insert
  insert_last x [] h = refl
  insert_last x (y ∷ ys) h = rw h.0 (ap (λ zs. y ∷ zs) (insert_last x ys h.1))

  -- In a sorted list all are at most the last one.
  pub last_most :
      (x a : Value) (ys : List Value)
      → IsSorted num (ys ++ a ∷ [])
      → lt x a ≡ false
      → All (λ y. Le num y x) (ys ++ a ∷ [])
  last_most x a [] s h = (h, tt)
  last_most x a (y ∷ ys) s h = (num.le_trans y a x (member ys s.0) h, last_most x a ys s.1 h)
    where
      member : (zs : List Value) → All (Le num y) (zs ++ a ∷ []) → Le num y a
      member [] h = h.0
      member (z ∷ zs) h = member zs h.1

  pub front-IsSorted : (a : Value) (ys : List Value) → IsSorted num (ys ++ a ∷ []) → IsSorted num ys
  front-IsSorted a [] s = tt
  front-IsSorted a (y ∷ ys) s = (part ys s.0, front-IsSorted a ys s.1)
    where
      part : (zs : List Value) → All (Le num y) (zs ++ a ∷ []) → All (Le num y) zs
      part [] h = tt
      part (z ∷ zs) h = (h.0, part zs h.1)

  sift_swap :
      (ys : List Value) (a x : Value) (zs : List Value)
      → lt x a ≡ true
      → sift num (suc (length ys)) (ys ++ a ∷ x ∷ zs) ≡ sift num (length ys) (ys ++ x ∷ a ∷ zs)
  unfolding sift
  sift_swap ys a x zs h = rw (
    get_or-append ys (a ∷ x ∷ zs) nought,
    get_or-append_next ys a (x ∷ zs) nought,
    h,
    set-append ys a (x ∷ zs) x,
    set-append_next ys x x zs a,
  )

  sift_stop :
      (ys : List Value) (a x : Value) (zs : List Value)
      → lt x a ≡ false
      → sift num (suc (length ys)) (ys ++ a ∷ x ∷ zs) ≡ ys ++ a ∷ x ∷ zs
  unfolding sift
  sift_stop ys a x zs h =
      rw (get_or-append ys (a ∷ x ∷ zs) nought, get_or-append_next ys a (x ∷ zs) nought, h)

  pub sift-insert :
      (pos : ℕ) (ys : List Value) (x : Value) (zs : List Value)
      → length ys ≡ pos
      → IsSorted num ys
      → sift num pos (ys ++ x ∷ zs) ≡ insert num x ys ++ zs
  sift-insert zero [] x zs l s = unfold sift insert in refl
  sift-insert zero (y ∷ ys) x zs l s = absurd (omega (arith, l))
  sift-insert (suc pos) ys x zs l s =
      let (us, a, e, k) = snoc_view pos ys l in
      let sorted : IsSorted num (us ++ a ∷ []) = subst (IsSorted num) e s in
      rw (e, ← k, append_assoc)
        (elim (Bool-cases (lt x a)) [
          | inl h ↦
              sift_swap us a x zs h
              ∙ rw (insert-snoc_lt x a us h, append_assoc)
                  (subst (λ n. sift num n (us ++ x ∷ a ∷ zs) ≡ insert num x us ++ a ∷ zs) (sym k)
                    (sift-insert pos us x (a ∷ zs) k (front-IsSorted a us sorted)))
          | inr h ↦
              sift_stop us a x zs h
              ∙ rw (insert_last x (us ++ a ∷ []) (last_most x a us sorted h)) (
                  sym (append_assoc (us ++ a ∷ []) (x ∷ []) zs ∙ append_assoc us (a ∷ []) (x ∷ zs)))
        ])
