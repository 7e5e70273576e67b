-- ===== src/Seg/Search.antt =====
-- The search for a fit against the lists: it takes the first block that is large enough from the
-- lists of the class of `asize` and above, and NULL only if no listed block is large enough.
use mar_2015_dynamic_storage.Base.{
  ℕ, zero, suc, ◌+◌, ◌-◌, ◌*◌, ◌≤◌, ◌<◌, ◌≡◌, ◌≢◌, refl, ◌⊎◌, inl, inr, some, List, [], ◌∷◌, ◌++◌,
  arith, All, All-append, length, ◌==◌, leb, false, if◌then◌else◌, Bool-cases, All-left, All-right,
  subst, sym,
}
use native.Mathlib.Decide.{ℕ_discrete, dec_lt}
use mar_2015_dynamic_storage.Machine.Memory.{Mem, get}
use mar_2015_dynamic_storage.Blocks.{get_size, hdrp}
use mar_2015_dynamic_storage.Links.Chain.{Linked}
use mar_2015_dynamic_storage.Seg.Sizes.{list_entry}
use mar_2015_dynamic_storage.Seg.Classes.{list_entry-lt, list_entry_mono}
use mar_2015_dynamic_storage.Seg.Fit.{null, walk, find_block, fit_from, find_fit}
use mar_2015_dynamic_storage.Seg.Lists.{Lists, head, IsFreeLists}

module _ (m : Mem) (asize : ℕ) where
  -- the first block of a sequence that is large enough, or NULL
  unfoldable pub first_fit : List ℕ → ℕ
  first_fit [] = null
  first_fit (x ∷ xs) = if leb asize (get_size m (hdrp x)) then x else first_fit xs

  pub first_fit-append :
      (xs ys : List ℕ)
      → All (λ x. 0 < x) xs
      → first_fit (xs ++ ys) ≡ (if first_fit xs == null then first_fit ys else first_fit xs)
  unfolding first_fit
  first_fit-append [] ys h = refl
  first_fit-append (x ∷ xs) ys h = ground (arith, first_fit-append xs ys h.1)

-- the blocks of `n` lists from the list `i` on, in the order of the search
unfoldable pub candidates : Lists → (n i : ℕ) → List ℕ
candidates lists zero i = []
candidates lists (suc n) i = lists i ++ candidates lists n (i + 1)

pub Linked-pos :
    (heap_listp : ℕ) (m : Mem) (prev w : ℕ) (xs : List ℕ)
    → Linked heap_listp m prev w xs
    → All (λ x. 0 < x) xs
Linked-pos heap_listp m prev w [] h = tt
Linked-pos heap_listp m prev w (x ∷ xs) h =
    (omega (arith, h.0), Linked-pos heap_listp m w (get m x) xs h.1)

module _ (heap_listp : ℕ) (m : Mem) (asize : ℕ) where
  walk-first_fit :
      (fuel prev w x : ℕ) (xs : List ℕ)
      → Linked heap_listp m prev w (x ∷ xs)
      → length xs < fuel
      → walk heap_listp m asize fuel x ≡ some (first_fit m asize (x ∷ xs))
  unfolding walk first_fit
  walk-first_fit zero prev w x xs h f = absurd (omega arith)
  walk-first_fit (suc fuel) prev w x [] h f = ground (arith, h.0, h.1)
  walk-first_fit (suc fuel) prev w x (y ∷ ys) h f =
      let n = h.1.0 in
      let more : (get m x == 0) ≡ false = ground arith in
      let there : (x == null) ≡ false = ground (arith, h.0) in
      let next : get m x + heap_listp ≡ y = omega (arith, n) in
      rw (there, more, next)
        (rw (walk-first_fit fuel w (get m x) y ys h.1 (omega arith)) (ground arith))

  pub find_block-first_fit :
      (fuel list : ℕ) (xs : List ℕ)
      → Linked heap_listp m 0 (get m list) xs
      → length xs ≤ fuel
      → find_block heap_listp m asize fuel list ≡ some (first_fit m asize xs)
  unfolding find_block first_fit
  find_block-first_fit fuel list [] h f = rw h
  find_block-first_fit fuel list (x ∷ xs) h f =
      let some_block : (get m list == 0) ≡ false = ground (arith, h.0) in
      let first : get m list + heap_listp ≡ x = omega (arith, h.0) in
      rw (some_block, first) (walk-first_fit fuel 0 (get m list) x xs h (omega arith))

first_fit-empty :
    (heap_listp : ℕ) (m : Mem) (asize w : ℕ) (xs : List ℕ)
    → Linked heap_listp m 0 w xs
    → w ≡ 0
    → first_fit m asize xs ≡ null
unfolding first_fit
first_fit-empty heap_listp m asize w [] h e = refl
first_fit-empty heap_listp m asize w (x ∷ xs) h e = absurd (omega (arith, h.0))

-- The lists are in memory, the blocks of each have its class, and the fuel suffices for each.
pub record Searchable (heap_listp free_listp : ℕ) (m : Mem) (lists : Lists) (fuel : ℕ)
    : Type 0 where
  pub in_memory : IsFreeLists heap_listp free_listp m lists
  pub classed : (i : ℕ) → i < 24 → All (λ x. list_entry (get_size m (hdrp x)) ≡ i) (lists i)
  pub enough : (i : ℕ) → i < 24 → length (lists i) ≤ fuel

module _ (heap_listp free_listp : ℕ) (m : Mem) (lists : Lists) (fuel asize : ℕ)
    (s : Searchable heap_listp free_listp m lists fuel) where
  fit_from-first_fit :
      (n i : ℕ)
      → n + i ≤ 24
      → fit_from heap_listp m asize fuel free_listp n i
        ≡ some (first_fit m asize (candidates lists n i))
  unfolding fit_from candidates
  fit_from-first_fit zero i h = unfold first_fit in refl
  fit_from-first_fit (suc n) i h =
      let ih = fit_from-first_fit n (i + 1) (omega arith) in
      let linked = s.in_memory.linked i (omega arith) in
      let found =
        find_block-first_fit heap_listp m asize fuel (free_listp + i * 4) (lists i)
          (let e : free_listp + i * 4 ≡ head free_listp i = omega arith in rw e linked)
          (s.enough i (omega arith)) in
      let split =
        first_fit-append m asize (lists i) (candidates lists n (i + 1))
          (Linked-pos heap_listp m 0 (get m (head free_listp i)) (lists i) linked) in
      rw (split, ih, found)
        (ground (
          arith,
          ih,
          first_fit-empty heap_listp m asize (get m (head free_listp i)) (lists i) linked,
        ))

  -- On such lists find_fit takes the first large enough block of the lists from the class of `asize` on,
  -- in their order: the result is that of a search of one sequence.
  pub find_fit-first_fit :
      find_fit heap_listp m asize fuel free_listp
      ≡ some (first_fit m asize (candidates lists (24 - list_entry asize) (list_entry asize)))
  unfolding find_fit
  find_fit-first_fit =
      fit_from-first_fit (24 - list_entry asize) (list_entry asize)
        (omega (arith, list_entry-lt asize))

-- `x` is one of the blocks.
abbrev pub Has : ℕ → List ℕ → Type 0
Has x [] = ⊥
Has x (y ∷ ys) = (x ≡ y) ⊎ Has x ys

module _ (m : Mem) (asize : ℕ) where
  -- what a search of a sequence says
  abbrev pub Finds : ℕ → List ℕ → Type 0
  Finds p xs =
      (p ≡ null) × All (λ x. get_size m (hdrp x) < asize) xs
      ⊎ (p ≢ null) × (asize ≤ get_size m (hdrp p)) × Has p xs

  pub first_fit-Finds : (xs : List ℕ) → All (λ x. 0 < x) xs → Finds (first_fit m asize xs) xs
  unfolding first_fit
  first_fit-Finds [] h = inl (refl, tt)
  first_fit-Finds (x ∷ xs) h = elim (Bool-cases (leb asize (get_size m (hdrp x)))) [
    | inl e ↦
        let here : first_fit m asize (x ∷ xs) ≡ x = rw e in
        subst (λ p. Finds p (x ∷ xs)) (sym here) (inr (ground arith, ground arith, inl refl))
    | inr e ↦
        let there : first_fit m asize (x ∷ xs) ≡ first_fit m asize xs = rw e in
        subst (λ p. Finds p (x ∷ xs)) (sym there)
          (elim (first_fit-Finds xs h.1) [
            | inl (n, a) ↦ inl (n, (ground arith, a))
            | inr (n, a, b) ↦ inr (n, a, inr b)
          ])
  ]

  candidates-lists :
      (lists : Lists) (n i : ℕ)
      → All (λ x. get_size m (hdrp x) < asize) (candidates lists n i)
      → (j : ℕ) → i ≤ j
      → j < i + n
      → All (λ x. get_size m (hdrp x) < asize) (lists j)
  unfolding candidates
  candidates-lists lists zero i a j h h' = absurd (omega arith)
  candidates-lists lists (suc n) i a j h h' = elim (ℕ_discrete j i) [
    | yes p ↦
        rw p (All-left (λ x. get_size m (hdrp x) < asize) (lists i) (candidates lists n (i + 1)) a)
    | no p ↦
        candidates-lists lists n (i + 1)
          (All-right (λ x. get_size m (hdrp x) < asize) (lists i) (candidates lists n (i + 1)) a) j
          (omega arith) (omega arith)
  ]

Has-append : (p : ℕ) (xs ys : List ℕ) → Has p (xs ++ ys) → Has p xs ⊎ Has p ys
Has-append p [] ys h = inr h
Has-append p (x ∷ xs) ys (inl e) = inl (inl e)
Has-append p (x ∷ xs) ys (inr h) = elim (Has-append p xs ys h) [
  | inl a ↦ inl (inr a)
  | inr b ↦ inr b
]

Has-candidates :
    (lists : Lists) (n i p : ℕ)
    → Has p (candidates lists n i)
    → (j : ℕ) × (i ≤ j) × (j < i + n) × Has p (lists j)
unfolding candidates
Has-candidates lists zero i p h = absurd h
Has-candidates lists (suc n) i p h = elim (Has-append p (lists i) (candidates lists n (i + 1)) h) [
  | inl a ↦ (i, omega arith, omega arith, a)
  | inr b ↦
      let (j, low, high, c) = Has-candidates lists n (i + 1) p b in (j, omega arith, omega arith, c)
]

-- The blocks of a class below that of `asize` are smaller than `asize`.
classed-small :
    (m : Mem) (asize i : ℕ) (xs : List ℕ)
    → i < list_entry asize
    → All (λ x. list_entry (get_size m (hdrp x)) ≡ i) xs
    → All (λ x. get_size m (hdrp x) < asize) xs
classed-small m asize i [] h c = tt
classed-small m asize i (x ∷ xs) h c = (
  elim (dec_lt (get_size m (hdrp x)) asize) [
    | yes p ↦ p
    | no p ↦ absurd (omega (arith, c.0, list_entry_mono asize (get_size m (hdrp x)) (omega arith)))
  ],
  classed-small m asize i xs h c.1,
)

module _ (heap_listp free_listp : ℕ) (m : Mem) (lists : Lists) (fuel asize : ℕ)
    (s : Searchable heap_listp free_listp m lists fuel) where
  candidates-pos : (n i : ℕ) → n + i ≤ 24 → All (λ x. 0 < x) (candidates lists n i)
  unfolding candidates
  candidates-pos zero i h = tt
  candidates-pos (suc n) i h =
      All-append (λ x. 0 < x) (lists i) (candidates lists n (i + 1))
        (Linked-pos heap_listp m 0 (get m (head free_listp i)) (lists i)
          (s.in_memory.linked i (omega arith)))
        (candidates-pos n (i + 1) (omega arith))

  -- what find_fit says of all the lists
  abbrev pub Fit : ℕ → Type 0
  Fit p =
      (p ≡ null) × ((i : ℕ) → i < 24 → All (λ x. get_size m (hdrp x) < asize) (lists i))
      ⊎ (p ≢ null)
        × (asize ≤ get_size m (hdrp p))
        × ((i : ℕ) × (i < 24) × (list_entry asize ≤ i) × Has p (lists i))

  Finds-Fit :
      (p : ℕ)
      → Finds m asize p (candidates lists (24 - list_entry asize) (list_entry asize))
      → Fit p
  Finds-Fit p (inl (e, a)) = inl (
    e,
    λ i h. elim (dec_lt i (list_entry asize)) [
      | yes below ↦ classed-small m asize i (lists i) below (s.classed i h)
      | no above ↦
          candidates-lists m asize lists (24 - list_entry asize) (list_entry asize) a i
            (omega arith) (omega arith)
    ],
  )
  Finds-Fit p (inr (e, a, b)) =
      let (i, low, high, c) = Has-candidates lists (24 - list_entry asize) (list_entry asize) p b in
      inr (e, a, (i, omega (arith, list_entry-lt asize), low, c))

  -- On lists that are well linked, each with blocks of its class only, and with fuel for the longest:
  -- find_fit ends. It returns NULL only if no block of any list is large enough; otherwise a block that
  -- is large enough, from a list of the class of `asize` or above.
  pub find_fit_lem : (p : ℕ) × (find_fit heap_listp m asize fuel free_listp ≡ some p) × Fit p
  find_fit_lem =
      let n = 24 - list_entry asize in
      let c = candidates lists n (list_entry asize) in
      (
        first_fit m asize c,
        find_fit-first_fit heap_listp free_listp m lists fuel asize s,
        Finds-Fit (first_fit m asize c) (
            first_fit-Finds m asize c
              (candidates-pos n (list_entry asize) (omega (arith, list_entry-lt asize)))),
      )
