-- ===== src/Links/Relink.antt =====
-- How the links of a list change where a block is taken out of it.
use mar_2015_dynamic_storage.Base.{
  ℕ, ◌+◌, ◌^◌, ◌<◌, ◌≡◌, List, [], ◌∷◌, ◌++◌, arith, All, All-map, ◌==◌, if◌then◌else◌,
}
use mar_2015_dynamic_storage.Machine.Memory.{Mem, get, put, Apart, get-put-Apart, get-put_self}
use mar_2015_dynamic_storage.Links.Chain.{Clear, Far, Spaced, Linked, Segment, Linked-put}

-- the word with the link to what follows `xs` in a list that starts in the word `l`
abbrev pub link : List ℕ → ℕ → ℕ
link [] l = l
link (x ∷ xs) l = link xs x

pub link-Apart : (xs : List ℕ) (l p : ℕ) → Apart l p → All (Clear p) xs → Apart (link xs l) p
link-Apart [] l p a c = a
link-Apart (x ∷ xs) l p a c = link-Apart xs x p (omega (arith, c.0)) c.1

pub link-Clear : (xs : List ℕ) (l y : ℕ) → Clear l y → All (Far y) xs → Clear (link xs l) y
link-Clear [] l y a c = a
link-Clear (x ∷ xs) l y a c = link-Clear xs x y (omega (arith, c.0)) c.1

pub link-All-Clear :
    (xs : List ℕ) (l : ℕ) (ys : List ℕ)
    → All (Clear l) ys
    → All (λ y. All (Far y) xs) ys
    → All (Clear (link xs l)) ys
link-All-Clear xs l [] a c = tt
link-All-Clear xs l (y ∷ ys) a c = (link-Clear xs l y a.0 c.0, link-All-Clear xs l ys a.1 c.1)

module _ (heap_listp : ℕ) where
  -- The new link `n` leads from the end of `xs` to the first of `ys`.
  pub relink :
      (m : Mem) (n prev l : ℕ) (xs ys : List ℕ) (q v : ℕ)
      → n < 2 ^ 32
      → Segment heap_listp m prev (get m l) xs q v
      → Linked heap_listp m q n ys
      → All (Clear l) xs
      → Spaced xs
      → All (Clear (link xs l)) ys
      → Linked heap_listp (put m (link xs l) n) prev (get (put m (link xs l) n) l) (xs ++ ys)
  relink m n prev l [] ys q v small s t c sp d =
      let e : get (put m l n) l ≡ n = omega (arith, get-put_self m l n) in
      rw (e, s.0) (Linked-put heap_listp m l n q n ys d t)
  relink m n prev l (x ∷ xs) ys q v small s t c sp d =
      let far : Apart (link xs x) l = link-Apart xs x l (omega (arith, c.0)) c.1 in
      let back : Apart (link xs x) (x + 4) =
        link-Apart xs x (x + 4) (omega arith)
          (All-map (Far x) (Clear (x + 4)) (λ y f. omega arith) xs sp.0) in
      let rest =
        relink m n (get m l) x xs ys q v small s.1 t
          (All-map (Far x) (Clear x) (λ y f. omega arith) xs sp.0) sp.1 d in
      let e = get-put-Apart m (link xs x) n l far in
      rw e (omega (arith, s.0, get-put-Apart m (link xs x) n (x + 4) back), rest)

  -- where the previous offset leads: to the block before, or at 0 to the head of the list
  pub Segment-link :
      (m : Mem) (list prev w l : ℕ) (xs : List ℕ) (q v : ℕ)
      → Segment heap_listp m prev w xs q v
      → (if prev == 0 then list else prev + heap_listp) ≡ l
      → (if q == 0 then list else q + heap_listp) ≡ link xs l
  Segment-link m list prev w l [] q v s e = ground arith
  Segment-link m list prev w l (x ∷ xs) q v s e =
      Segment-link m list w (get m x) x xs q v s.1 (ground arith)
