-- ===== src/Timing/Fcyc/Order.antt =====
-- What the K-best scheme uses of the type `double`: zero, `<` on numbers that are not NaN, and the
-- test `(1 + epsilon)*a >= b`.
use mar_2015_dynamic_storage.Base.{
  ℕ, Bool, true, false, List, [], ◌∷◌, ◌≡◌, All, if◌then◌else◌, Bool-cases, inl, inr, ◌⊎◌, take,
  suc, zero,
}

pub record Samples : Type 1 where
  pub Value : Type 0
  pub nought : Value
  pub lt : Value → Value → Bool
  pub agree : Value → Value → Bool
  pub lt_asym : (a b : Value) → lt a b ≡ true → lt b a ≡ false
  pub le_trans : (a b c : Value) → lt b a ≡ false → lt c b ≡ false → lt c a ≡ false

module _ (num : Samples) where
  open num use {Value, lt, lt_asym, le_trans}

  abbrev pub Le : Value → Value → Type 0
  Le a b = lt b a ≡ false

  -- into an ordered list, after the values that are equal
  unfoldable pub insert : Value → List Value → List Value
  insert x [] = x ∷ []
  insert x (y ∷ ys) = if lt x y then x ∷ y ∷ ys else y ∷ insert x ys

  -- the samples in order
  unfoldable pub sort : List Value → List Value
  sort [] = []
  sort (x ∷ xs) = insert x (sort xs)

  abbrev pub IsSorted : List Value → Type 0
  IsSorted [] = Unit
  IsSorted (x ∷ xs) = All (Le x) xs × IsSorted xs

  pub All-insert :
      (P : Value → Type 0) (x : Value) (ys : List Value) → P x → All P ys → All P (insert x ys)
  unfolding insert
  All-insert P x [] p h = (p, tt)
  All-insert P x (y ∷ ys) p h = elim (Bool-cases (lt x y)) [
    | inl e ↦ rw e (p, h)
    | inr e ↦ rw e (h.0, All-insert P x ys p h.1)
  ]

  below-All : (x y : Value) (ys : List Value) → Le x y → All (Le y) ys → All (Le x) ys
  below-All x y [] h a = tt
  below-All x y (z ∷ zs) h a = (le_trans x y z h a.0, below-All x y zs h a.1)

  pub insert-IsSorted : (x : Value) (ys : List Value) → IsSorted ys → IsSorted (insert x ys)
  unfolding insert
  insert-IsSorted x [] h = (tt, tt)
  insert-IsSorted x (y ∷ ys) h = elim (Bool-cases (lt x y)) [
    | inl e ↦ rw e (((lt_asym x y e), below-All x y ys (lt_asym x y e) h.0), h)
    | inr e ↦ rw e (All-insert (Le y) x ys e h.0, insert-IsSorted x ys h.1)
  ]

  pub sort-IsSorted : (xs : List Value) → IsSorted (sort xs)
  unfolding sort
  sort-IsSorted [] = tt
  sort-IsSorted (x ∷ xs) = insert-IsSorted x (sort xs) (sort-IsSorted xs)

  pub take-IsSorted : (n : ℕ) (xs : List Value) → IsSorted xs → IsSorted (take n xs)
  take-IsSorted zero xs h = tt
  take-IsSorted (suc n) [] h = tt
  take-IsSorted (suc n) (x ∷ xs) h = (All-take (Le x) n xs h.0, take-IsSorted n xs h.1)
    where
      All-take : (P : Value → Type 0) (n : ℕ) (xs : List Value) → All P xs → All P (take n xs)
      All-take P zero xs a = tt
      All-take P (suc n) [] a = tt
      All-take P (suc n) (x ∷ xs) a = (a.0, All-take P n xs a.1)

  -- one of the samples
  abbrev pub Among : Value → List Value → Type 0
  Among v [] = ⊥
  Among v (x ∷ xs) = (v ≡ x) ⊎ Among v xs

  Among-insert : (v x : Value) (ys : List Value) → Among v (insert x ys) → (v ≡ x) ⊎ Among v ys
  unfolding insert
  Among-insert v x [] h = h
  Among-insert v x (y ∷ ys) h = elim (Bool-cases (lt x y)) [
    | inl e ↦ rw e at h
    | inr e ↦ elim (later e) [
      | inl k ↦ inr (inl k)
      | inr k ↦ elim (Among-insert v x ys k) [ inl q ↦ inl q | inr q ↦ inr (inr q) ]
    ]
  ]
    where
      later : lt x y ≡ false → (v ≡ y) ⊎ Among v (insert x ys)
      later e = rw e at h

  pub Among-sort : (v : Value) (xs : List Value) → Among v (sort xs) → Among v xs
  unfolding sort
  Among-sort v [] h = h
  Among-sort v (x ∷ xs) h = elim (Among-insert v x (sort xs) h) [
    | inl e ↦ inl e
    | inr k ↦ inr (Among-sort v xs k)
  ]

  All-of_insert :
      (P : Value → Type 0) (x : Value) (ys : List Value) → All P (insert x ys) → P x × All P ys
  unfolding insert
  All-of_insert P x [] h = h
  All-of_insert P x (y ∷ ys) h = elim (Bool-cases (lt x y)) [
    | inl e ↦ rw e at h
    | inr e ↦
        let k : P y × All P (insert x ys) = rw e at h in
        let (a, b) = All-of_insert P x ys k.1 in (a, (k.0, b))
  ]

  pub All-of_sort : (P : Value → Type 0) (xs : List Value) → All P (sort xs) → All P xs
  unfolding sort
  All-of_sort P [] h = tt
  All-of_sort P (x ∷ xs) h = let (a, b) = All-of_insert P x (sort xs) h in (a, All-of_sort P xs b)
