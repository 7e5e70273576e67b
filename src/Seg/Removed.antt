-- ===== src/Seg/Removed.antt =====
-- The lists after one block is taken out: what was outside stays outside, and the block is new.
use native.Mathlib.Decide.{ℕ_discrete}
use mar_2015_dynamic_storage.Base.{
  ℕ, ◌+◌, ◌^◌, ◌<◌, ◌≡◌, ◌≢◌, sym, List, ◌∷◌, ◌++◌, arith, All, All-without, All-right, All-append,
  All-map,
}
use mar_2015_dynamic_storage.Machine.Memory.{Mem}
use mar_2015_dynamic_storage.Links.Chain.{Clear, Far, Spaced-append}
use mar_2015_dynamic_storage.Seg.Lists.{Lists, head, update, IsFreeLists, IsNew}
use mar_2015_dynamic_storage.Seg.Frame.{Outside}

-- `x` stands in the list `e` between `xs` and `ys`.
module _ (lists : Lists) (e x : ℕ) (xs ys : List ℕ) (at : lists e ≡ xs ++ x ∷ ys) where
  abbrev pub removed : Lists
  removed = update lists e (xs ++ ys)

  removed_self : removed e ≡ xs ++ ys
  removed_self = ground arith

  removed_ne : (i : ℕ) → i ≢ e → removed i ≡ lists i
  removed_ne i ne = ground arith

  pub All-removed : (P : ℕ → Type 0) (i : ℕ) → All P (lists i) → All P (removed i)
  All-removed P i h = elim (ℕ_discrete i e) [
    | yes p ↦ rw (p, removed_self) (All-without P xs x ys (rw (p, at) at h))
    | no p ↦ rw (removed_ne i p) h
  ]

  pub Outside-removed :
      (free_listp p : ℕ) → Outside free_listp lists p → Outside free_listp removed p
  Outside-removed free_listp p o = record {
    heads = o.heads;
    blocks = λ i h. All-removed (Clear p) i (o.blocks i h);
  }

  Far-others : (zs : List ℕ) → All (λ y. All (Far y) zs) (xs ++ x ∷ ys) → All (Far x) zs
  Far-others zs h = (All-right (λ y. All (Far y) zs) xs (x ∷ ys) h).0

  pub IsNew-removed :
      (heap_listp free_listp : ℕ) (m : Mem)
      → IsFreeLists heap_listp free_listp m lists
      → e < 24
      → heap_listp < x
      → x < heap_listp + 2 ^ 32
      → IsNew heap_listp free_listp removed x
  IsNew-removed heap_listp free_listp m l h above near =
      let (sx, sy, far) = Spaced-append xs (x ∷ ys) (rw at at (l.spaced e h)) in
      let front = All-map (Far x) (Far x) (λ y f. omega arith) xs far.0 in
      record {
        above = above;
        near = near;
        clear = λ i r.
            (All-right (Clear (head free_listp i)) xs (x ∷ ys) (rw at at (l.clear i e r h))).0;
        far = λ i r. elim (ℕ_discrete i e) [
          | yes p ↦ rw (p, removed_self) (All-append (Far x) xs ys front sy.0)
          | no p ↦
              rw (removed_ne i p)
                (Far-others (lists i) (rw at at (l.apart e i h r (λ q. p (sym q)))))
        ];
      }
