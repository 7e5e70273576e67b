-- ===== src/Links/Insert.antt =====
-- freelist_insert puts the block in front of the list.
use mar_2015_dynamic_storage.Base.{
  ℕ, ◌+◌, ◌-◌, ◌^◌, ◌<◌, ◌≡◌, refl, List, [], ◌∷◌, arith, All, All-map, ◌==◌, false, subst, sym,
}
use mar_2015_dynamic_storage.Machine.Memory.{Mem, get, put, Apart, get-put-Apart, get-put_self}
use mar_2015_dynamic_storage.Links.{insert}
use mar_2015_dynamic_storage.Links.Chain.{
  Clear, Far, Linked, IsFreeList, Linked-put, Linked-put_prev,
}

-- The block `bp` can become a member: its offset is positive and fits a word, and its link words
-- share no byte with the list.
pub record Fits (heap_listp list bp : ℕ) (xs : List ℕ) : Type 0 where
  pub above : heap_listp < bp
  pub near : bp < heap_listp + 2 ^ 32
  pub clear : Clear list bp
  pub far : All (Far bp) xs

module _ (heap_listp list bp : ℕ) where
  -- what the two branches of freelist_insert leave behind
  abbrev Leads : (m : Mem) → (w : ℕ) → Type 0
  Leads m w = (get m list ≡ bp - heap_listp) × (get m bp ≡ w) × (get m (bp + 4) ≡ 0)

  Linked-cons :
      (m : Mem) (w : ℕ) (xs : List ℕ)
      → Fits heap_listp list bp xs
      → Leads m w
      → Linked heap_listp m (bp - heap_listp) w xs
      → Linked heap_listp m 0 (get m list) (bp ∷ xs)
  Linked-cons m w xs f (e, e', e'') h = rw (e, e') (omega (arith, f.above, f.near), h)

  -- the writes of the branch for an empty list
  abbrev into_empty : Mem → Mem
  into_empty m = put (put (put m list (bp + 2 ^ 64 - heap_listp)) bp 0) (bp + 4) 0

  into_empty-Leads : {xs : List ℕ} (m : Mem) → Fits heap_listp list bp xs → Leads (into_empty m) 0
  into_empty-Leads m f =
      let off = bp + 2 ^ 64 - heap_listp in
      let m₁ : Mem = put m list off in
      let m₂ : Mem = put m₁ bp 0 in
      omega (
        arith,
        f.above,
        f.near,
        f.clear,
        get-put_self m list off,
        get-put-Apart m₁ bp 0 list (omega arith),
        get-put-Apart m₂ (bp + 4) 0 list (omega arith),
        get-put_self m₁ bp 0,
        get-put-Apart m₂ (bp + 4) 0 bp (omega arith),
        get-put_self m₂ (bp + 4) 0,
      )

  -- the writes of the other branch, where `x` is the first block
  abbrev into_full : Mem → ℕ → Mem
  into_full m x =
      let off = bp + 2 ^ 64 - heap_listp in
      put (put (put (put m bp (get m list)) (bp + 4) 0) (x + 4) off) list off

  into_full-Leads :
      {xs : List ℕ} (m : Mem) (x : ℕ)
      → Fits heap_listp list bp (x ∷ xs)
      → Clear list x
      → get m list < 2 ^ 32
      → Leads (into_full m x) (get m list)
  into_full-Leads m x f c small =
      let off = bp + 2 ^ 64 - heap_listp in
      let m₁ : Mem = put m bp (get m list) in
      let m₂ : Mem = put m₁ (bp + 4) 0 in
      let m₃ : Mem = put m₂ (x + 4) off in
      omega (
        arith,
        f.above,
        f.near,
        f.clear,
        f.far.0,
        get-put_self m₃ list off,
        get-put-Apart m₃ list off bp (omega arith),
        get-put-Apart m₂ (x + 4) off bp (omega arith),
        get-put-Apart m₁ (bp + 4) 0 bp (omega arith),
        get-put_self m bp (get m list),
        get-put-Apart m₃ list off (bp + 4) (omega arith),
        get-put-Apart m₂ (x + 4) off (bp + 4) (omega arith),
        get-put_self m₁ (bp + 4) 0,
      )

  into_full-Linked :
      (m : Mem) (x : ℕ) (xs : List ℕ)
      → Linked heap_listp m 0 (get m list) (x ∷ xs)
      → All (Clear list) (x ∷ xs)
      → All (Far x) xs
      → Fits heap_listp list bp (x ∷ xs)
      → Linked heap_listp (into_full m x) (bp - heap_listp) (get m list) (x ∷ xs)
  into_full-Linked m x xs h c s f =
      let w = get m list in
      let off = bp + 2 ^ 64 - heap_listp in
      let m₁ : Mem = put m bp w in
      let m₂ : Mem = put m₁ (bp + 4) 0 in
      let low = All-map (Far bp) (Clear bp) (λ y g. omega arith) (x ∷ xs) f.far in
      let high = All-map (Far bp) (Clear (bp + 4)) (λ y g. omega arith) (x ∷ xs) f.far in
      let h₁ = Linked-put heap_listp m bp w 0 w (x ∷ xs) low h in
      let h₂ = Linked-put heap_listp m₁ (bp + 4) 0 0 w (x ∷ xs) high h₁ in
      let h₃ =
        Linked-put_prev heap_listp m₂ off (bp - heap_listp) 0 w x xs
          (omega (arith, f.above, f.near)) s h₂ in
      Linked-put heap_listp (put m₂ (x + 4) off) list off (bp - heap_listp) w (x ∷ xs) c h₃

  insert_empty : (m : Mem) → get m list ≡ 0 → insert heap_listp list bp m ≡ into_empty m
  unfolding insert
  insert_empty m e = rw e

  -- The word `list` is read again after the two writes to `bp`.
  insert_full :
      (m : Mem) (x : ℕ)
      → x ≡ get m list + heap_listp
      → 0 < get m list
      → Clear list bp
      → insert heap_listp list bp m ≡ into_full m x
  unfolding insert
  insert_full m x e pos c =
      let m₁ : Mem = put m bp (get m list) in
      let no_null : (get m list == 0) ≡ false = ground arith in
      let same : get (put m₁ (bp + 4) 0) list + heap_listp ≡ x = omega (
        arith,
        get-put-Apart m₁ (bp + 4) 0 list (omega arith),
        get-put-Apart m bp (get m list) list (omega arith),
      ) in
      rw (no_null, same)

module _ (heap_listp list bp : ℕ) (m : Mem) where
  insert-cons-Linked :
      (xs : List ℕ)
      → IsFreeList heap_listp m list xs
      → Fits heap_listp list bp xs
      → Linked heap_listp
          (insert heap_listp list bp m)
          0
          (get (insert heap_listp list bp m) list)
          (bp ∷ xs)
  insert-cons-Linked [] l f =
      subst (λ k. Linked heap_listp k 0 (get k list) (bp ∷ []))
        (sym (insert_empty heap_listp list bp m l.linked))
        (Linked-cons heap_listp list bp (into_empty heap_listp list bp m) 0 [] f
          (into_empty-Leads heap_listp list bp m f) refl)
  insert-cons-Linked (x ∷ xs) l f =
      let n = l.linked.0 in
      subst (λ k. Linked heap_listp k 0 (get k list) (bp ∷ x ∷ xs))
        (sym (insert_full heap_listp list bp m x n.0 n.1 f.clear))
        (Linked-cons heap_listp list bp (into_full heap_listp list bp m x) (get m list) (x ∷ xs) f
          (into_full-Leads heap_listp list bp m x f l.clear.0 n.2)
          (into_full-Linked heap_listp list bp m x xs l.linked l.clear l.spaced.0 f))

  pub insert-cons :
      (xs : List ℕ)
      → IsFreeList heap_listp m list xs
      → Fits heap_listp list bp xs
      → IsFreeList heap_listp (insert heap_listp list bp m) list (bp ∷ xs)
  insert-cons xs l f = record {
    linked = insert-cons-Linked xs l f;
    clear = (f.clear, l.clear);
    spaced = (f.far, l.spaced);
  }

  -- freelist_insert writes to no word but `list`, the links of `bp` and those of the members.
  pub get-insert :
      (xs : List ℕ) (p : ℕ)
      → IsFreeList heap_listp m list xs
      → Fits heap_listp list bp xs
      → Apart list p
      → All (Clear p) (bp ∷ xs)
      → get (insert heap_listp list bp m) p ≡ get m p
  get-insert [] p l f a c =
      let off = bp + 2 ^ 64 - heap_listp in
      let m₁ : Mem = put m list off in
      rw (insert_empty heap_listp list bp m l.linked) (
        omega (
          arith,
          c.0,
          get-put-Apart (put m₁ bp 0) (bp + 4) 0 p (omega arith),
          get-put-Apart m₁ bp 0 p (omega arith),
          get-put-Apart m list off p a,
        ))
  get-insert (x ∷ xs) p l f a c =
      let off = bp + 2 ^ 64 - heap_listp in
      let m₁ : Mem = put m bp (get m list) in
      let m₂ : Mem = put m₁ (bp + 4) 0 in
      rw (insert_full heap_listp list bp m x l.linked.0.0 l.linked.0.1 f.clear) (
        omega (
          arith,
          get-put-Apart (put m₂ (x + 4) off) list off p a,
          get-put-Apart m₂ (x + 4) off p (omega (arith, c.1.0)),
          get-put-Apart m₁ (bp + 4) 0 p (omega (arith, c.0)),
          get-put-Apart m bp (get m list) p (omega (arith, c.0)),
        ))
