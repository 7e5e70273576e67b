-- ===== src/Links/Chain.antt =====
-- Which blocks a free list holds, and what a write elsewhere leaves of it.
use mar_2015_dynamic_storage.Base.{
  ℕ, ◌+◌, ◌%◌, ◌^◌, ◌≤◌, ◌<◌, ◌≡◌, refl, ◌⊎◌, List, [], ◌∷◌, ◌++◌, arith, All, All-map, All-append,
  All-left, All-right,
}
use mar_2015_dynamic_storage.Machine.Memory.{Mem, get, put, get-put-Apart, get-put_self}

-- the word at `p` and the two link words of the block `x` share no byte
abbrev pub Clear : ℕ → ℕ → Type 0
Clear p x = (p + 4 ≤ x) ⊎ (x + 8 ≤ p)

-- the link words of two blocks share no byte
abbrev pub Far : ℕ → ℕ → Type 0
Far x y = (x + 8 ≤ y) ⊎ (y + 8 ≤ x)

abbrev pub Spaced : List ℕ → Type 0
Spaced [] = Unit
Spaced (x ∷ xs) = All (Far x) xs × Spaced xs

module _ (heap_listp : ℕ) where
  -- A word with the offset `w` leads to the block `x`, whose previous block has the offset `prev`.
  abbrev pub Node : Mem → (prev w x : ℕ) → Type 0
  Node m prev w x = (x ≡ w + heap_listp) × (0 < w) × (w < 2 ^ 32) × (get m (x + 4) ≡ prev)

  -- From the offset `w` the links go through the blocks and end with 0.
  abbrev pub Linked : Mem → (prev w : ℕ) → List ℕ → Type 0
  Linked m prev w [] = w ≡ 0
  Linked m prev w (x ∷ xs) = Node m prev w x × Linked m w (get m x) xs

  -- They go through the blocks, the last of them with the offset `q`, to the offset `v`.
  abbrev pub Segment : Mem → (prev w : ℕ) → List ℕ → (q v : ℕ) → Type 0
  Segment m prev w [] q v = (prev ≡ q) × (w ≡ v)
  Segment m prev w (x ∷ xs) q v = Node m prev w x × Segment m w (get m x) xs q v

  -- The free list that starts in the word `list` holds the blocks `xs`, in this order.
  pub record IsFreeList (m : Mem) (list : ℕ) (xs : List ℕ) : Type 0 where
    pub linked : Linked m 0 (get m list) xs
    pub clear : All (Clear list) xs
    pub spaced : Spaced xs

  pub split :
      (m : Mem) (prev w : ℕ) (xs ys : List ℕ)
      → Linked m prev w (xs ++ ys)
      → (q : ℕ) × (v : ℕ) × Segment m prev w xs q v × Linked m q v ys
  split m prev w [] ys h = (prev, w, (refl, refl), h)
  split m prev w (x ∷ xs) ys h =
      let (q, v, s, t) = split m w (get m x) xs ys h.1 in (q, v, (h.0, s), t)

  pub Node-put :
      (m : Mem) (p v prev w x : ℕ) → Clear p x → Node m prev w x → Node (put m p v) prev w x
  Node-put m p v prev w x c n = omega (arith, get-put-Apart m p v (x + 4) (omega arith))

  pub Linked-put :
      (m : Mem) (p v prev w : ℕ) (xs : List ℕ)
      → All (Clear p) xs
      → Linked m prev w xs
      → Linked (put m p v) prev w xs
  Linked-put m p v prev w [] c h = h
  Linked-put m p v prev w (x ∷ xs) c h = (
    Node-put m p v prev w x c.0 h.0,
    rw (get-put-Apart m p v x (omega arith)) (Linked-put m p v w (get m x) xs c.1 h.1),
  )

  pub Segment-put :
      (m : Mem) (p v prev w : ℕ) (xs : List ℕ) (q u : ℕ)
      → All (Clear p) xs
      → Segment m prev w xs q u
      → Segment (put m p v) prev w xs q u
  Segment-put m p v prev w [] q u c h = h
  Segment-put m p v prev w (x ∷ xs) q u c h = (
    Node-put m p v prev w x c.0 h.0,
    rw (get-put-Apart m p v x (omega arith)) (Segment-put m p v w (get m x) xs q u c.1 h.1),
  )

  -- The first block may get another previous block.
  pub Linked-put_prev :
      (m : Mem) (v u prev w x : ℕ) (xs : List ℕ)
      → v % 2 ^ 32 ≡ u
      → All (Far x) xs
      → Linked m prev w (x ∷ xs)
      → Linked (put m (x + 4) v) u w (x ∷ xs)
  Linked-put_prev m v u prev w x xs e far h = (
    omega (arith, get-put_self m (x + 4) v, h.0),
    rw (get-put-Apart m (x + 4) v x (omega arith)) (
        Linked-put m (x + 4) v w (get m x) xs
          (All-map (Far x) (Clear (x + 4)) (λ y f. omega arith) xs far) h.1),
  )

-- the parts of a spaced list
pub Spaced-append :
    (xs ys : List ℕ) → Spaced (xs ++ ys) → Spaced xs × Spaced ys × All (λ y. All (Far y) xs) ys
Spaced-append [] ys s = (tt, s, none_far ys)
  where
    none_far : (zs : List ℕ) → All (λ y. All (Far y) []) zs
    none_far [] = tt
    none_far (z ∷ zs) = (tt, none_far zs)
Spaced-append (x ∷ xs) ys s =
    let (a, b, c) = Spaced-append xs ys s.1 in
    ((All-left (Far x) xs ys s.0, a), b, zip ys (All-right (Far x) xs ys s.0) c)
  where
    zip :
        (zs : List ℕ)
        → All (Far x) zs
        → All (λ y. All (Far y) xs) zs
        → All (λ y. All (Far y) (x ∷ xs)) zs
    zip [] f g = tt
    zip (z ∷ zs) f g = ((omega (arith, f.0), g.0), zip zs f.1 g.1)

pub Spaced-without : (xs : List ℕ) (y : ℕ) (ys : List ℕ) → Spaced (xs ++ y ∷ ys) → Spaced (xs ++ ys)
Spaced-without [] y ys s = s.1
Spaced-without (x ∷ xs) y ys s = (
  All-append (Far x) xs ys (All-left (Far x) xs (y ∷ ys) s.0) (All-right (Far x) xs (y ∷ ys) s.0).1,
  Spaced-without xs y ys s.1,
)
