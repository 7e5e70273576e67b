-- ===== src/Links/Delete.antt =====
-- freelist_delete takes the block out of the list, wherever it stands.
use mar_2015_dynamic_storage.Base.{
  ℕ, ◌+◌, ◌^◌, ◌<◌, ◌≡◌, refl, ◌⊎◌, inl, inr, List, [], ◌∷◌, ◌++◌, arith, All, All-map, All-append,
  All-left, All-right, ◌==◌, false, if◌then◌else◌, subst, sym,
}
use mar_2015_dynamic_storage.Machine.Memory.{Mem, get, put, Apart, get-put-Apart}
use mar_2015_dynamic_storage.Links.{delete}
use mar_2015_dynamic_storage.Links.Branches.{delete-unlink}
use mar_2015_dynamic_storage.Links.Relink.{link, link-Apart, link-All-Clear, relink, Segment-link}
use mar_2015_dynamic_storage.Links.Chain.{
  Clear, Far, Linked, Segment, Spaced, IsFreeList, split, Segment-put, Linked-put_prev,
  Spaced-append, Spaced-without,
}

module _ (heap_listp list bp : ℕ) (m : Mem) where
  first-Far :
      (prev n : ℕ) (ys : List ℕ)
      → Linked heap_listp m prev n ys
      → All (Far bp) ys
      → (n ≡ 0) ⊎ Far (n + heap_listp) bp
  first-Far prev n [] h f = inl h
  first-Far prev n (y ∷ ys) h f = inr (omega (arith, h.0, f.0))

  last-Far :
      (prev w : ℕ) (xs : List ℕ) (q v : ℕ)
      → Segment heap_listp m prev w xs q v
      → (prev ≡ 0) ⊎ Far (prev + heap_listp) bp
      → All (Far bp) xs
      → (q ≡ 0) ⊎ Far (q + heap_listp) bp
  last-Far prev w [] q v s h f = rw (← s.0) h
  last-Far prev w (x ∷ xs) q v s h f =
      last-Far w (get m x) xs q v s.1 (inr (omega (arith, s.0, f.0))) f.1

  -- the write to the block behind `bp`
  abbrev behind : (n q : ℕ) → Mem
  behind n q = if n == 0 then m else put m (n + heap_listp + 4) q

  behind-put :
      (prev n q y : ℕ) (ys : List ℕ)
      → Linked heap_listp m prev n (y ∷ ys)
      → behind n q ≡ put m (y + 4) q
  behind-put prev n q y ys h =
      let some_next : (n == 0) ≡ false = ground arith in rw (some_next, ← h.0.0)

  -- What comes behind `bp` gets what came before it as the previous block.
  back-Linked :
      (q v n : ℕ) (ys : List ℕ)
      → q < 2 ^ 32
      → Linked heap_listp m v n ys
      → Spaced ys
      → Linked heap_listp (behind n q) q n ys
  back-Linked q v n [] small h s = h
  back-Linked q v n (y ∷ ys) small h s =
      subst (λ k. Linked heap_listp k q n (y ∷ ys)) (sym (behind-put v n q y ys h))
        (Linked-put_prev heap_listp m q q v n y ys (omega arith) s.0 h)

  front-Segment :
      (prev w : ℕ) (xs : List ℕ) (q v n u : ℕ) (ys : List ℕ)
      → Segment heap_listp m prev w xs q v
      → Linked heap_listp m u n ys
      → All (λ y. All (Far y) xs) ys
      → Segment heap_listp (behind n q) prev w xs q v
  front-Segment prev w xs q v n u [] s h f =
      subst (λ k. Segment heap_listp k prev w xs q v) (let e : m ≡ behind n q = rw h in e) s
  front-Segment prev w xs q v n u (y ∷ ys) s h f =
      subst (λ k. Segment heap_listp k prev w xs q v) (sym (behind-put u n q y ys h))
        (Segment-put heap_listp m (y + 4) q prev w xs q v
          (All-map (Far y) (Clear (y + 4)) (λ x g. omega arith) xs f.0) s)

  get-behind :
      (q n u p : ℕ) (ys : List ℕ)
      → Linked heap_listp m u n ys
      → All (Clear p) ys
      → get (behind n q) p ≡ get m p
  get-behind q n u p [] h c = rw h
  get-behind q n u p (y ∷ ys) h c =
      rw (behind-put u n q y ys h) (get-put-Apart m (y + 4) q p (omega (arith, c.0)))

  Segment-small :
      (prev w : ℕ) (xs : List ℕ) (q v : ℕ)
      → Segment heap_listp m prev w xs q v
      → prev < 2 ^ 32
      → q < 2 ^ 32
  Segment-small prev w [] q v s small = omega (arith, s.0)
  Segment-small prev w (x ∷ xs) q v s small =
      Segment-small w (get m x) xs q v s.1 (omega (arith, s.0))

  Linked-small : (prev n : ℕ) (ys : List ℕ) → Linked heap_listp m prev n ys → n < 2 ^ 32
  Linked-small prev n [] h = omega arith
  Linked-small prev n (y ∷ ys) h = omega (arith, h.0)

-- `bp` stands in the list between `xs` and `ys`.
module _ (heap_listp list bp : ℕ) (m : Mem) (xs ys : List ℕ)
    (l : IsFreeList heap_listp m list (xs ++ bp ∷ ys)) where
  -- the two writes of freelist_delete
  delete-writes :
      delete heap_listp list bp m
      ≡ put (behind heap_listp list bp m (get m bp) (get m (bp + 4))) (link xs list) (get m bp)
  delete-writes =
      let (q, v, s, (node, t)) = split heap_listp m 0 (get m list) xs (bp ∷ ys) l.linked in
      let (sx, sy, far) = Spaced-append xs (bp ∷ ys) l.spaced in
      let e' : get m (bp + 4) ≡ q = node.3 in
      let c : Clear list bp = (All-right (Clear list) xs (bp ∷ ys) l.clear).0 in
      let at : (if q == 0 then list else q + heap_listp) ≡ link xs list =
        Segment-link heap_listp m list 0 (get m list) list xs q v s refl in
      rw (
        delete-unlink heap_listp list bp m (get m bp) q refl e' c
            (first-Far heap_listp list bp m v (get m bp) ys t sy.0)
            (last-Far heap_listp list bp m 0 (get m list) xs q v s (inl refl) far.0),
        e',
        at,
      )

  delete-Linked :
      Linked heap_listp
        (delete heap_listp list bp m)
        0
        (get (delete heap_listp list bp m) list)
        (xs ++ ys)
  delete-Linked =
      let (q, v, s, (node, t)) = split heap_listp m 0 (get m list) xs (bp ∷ ys) l.linked in
      let (sx, sy, far) = Spaced-append xs (bp ∷ ys) l.spaced in
      let n = get m bp in
      let e' : get m (bp + 4) ≡ q = node.3 in
      let k = behind heap_listp list bp m n q in
      let cx = All-left (Clear list) xs (bp ∷ ys) l.clear in
      let cy = (All-right (Clear list) xs (bp ∷ ys) l.clear).1 in
      let small : q < 2 ^ 32 =
        Segment-small heap_listp list bp m 0 (get m list) xs q v s (omega arith) in
      let same : get k list ≡ get m list = get-behind heap_listp list bp m q n v list ys t cy in
      let front = front-Segment heap_listp list bp m 0 (get m list) xs q v n v ys s t far.1 in
      subst (λ d. Linked heap_listp d 0 (get d list) (xs ++ ys)) (sym (rw e' at delete-writes))
        (relink heap_listp k n 0 list xs ys q v (Linked-small heap_listp list bp m v n ys t)
          (rw same front) (back-Linked heap_listp list bp m q v n ys small t sy.1) cx sx
          (link-All-Clear xs list ys cy far.1))

  -- freelist_delete takes out `bp` and leaves the others in their order.
  pub delete-erase : IsFreeList heap_listp (delete heap_listp list bp m) list (xs ++ ys)
  delete-erase = record {
    linked = delete-Linked;
    clear =
        All-append (Clear list) xs ys (All-left (Clear list) xs (bp ∷ ys) l.clear)
          (All-right (Clear list) xs (bp ∷ ys) l.clear).1;
    spaced = Spaced-without xs bp ys l.spaced;
  }

  -- It writes to no word but `list` and the links of the other members.
  pub get-delete :
      (p : ℕ)
      → Apart list p
      → All (Clear p) (xs ++ ys)
      → get (delete heap_listp list bp m) p ≡ get m p
  get-delete p a c =
      let (q, v, s, (node, t)) = split heap_listp m 0 (get m list) xs (bp ∷ ys) l.linked in
      rw (
        delete-writes,
        get-put-Apart (behind heap_listp list bp m (get m bp) (get m (bp + 4))) (link xs list)
            (get m bp) p (link-Apart xs list p a (All-left (Clear p) xs ys c)),
        get-behind heap_listp list bp m (get m (bp + 4)) (get m bp) v p ys t
            (All-right (Clear p) xs ys c),
      )
