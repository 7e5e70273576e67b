-- ===== src/Seg/Heap/Words.antt =====
-- The words of a heap that hold headers and footers: where they stand, and that no free list uses them.
use mar_2015_dynamic_storage.Base.{
  ℕ, ◌+◌, ◌-◌, ◌*◌, ◌%◌, ◌^◌, ◌≤◌, ◌<◌, ◌≡◌, ◌⊎◌, inl, inr, Bool, true, false, List, [], ◌∷◌, ◌++◌,
  All, All-map, arith, refl, ◌∙◌,
}
use mar_2015_dynamic_storage.Machine.Memory.{Mem, get}
use mar_2015_dynamic_storage.Links.Chain.{Clear}
use mar_2015_dynamic_storage.Seg.Lists.{Lists}
use mar_2015_dynamic_storage.Seg.Frame.{Outside}
use mar_2015_dynamic_storage.Seg.Heap.{
  Block, bit, IsBlockSize, end_of, last_used, Row, Tiled, FreeAt, IsMember, IsLaidOut,
}

-- `w` is the header or the footer of a block of the row.
abbrev pub RowWord : (bp : ℕ) → List Block → ℕ → Type 0
RowWord bp [] w = ⊥
RowWord bp (b ∷ bs) w = (w ≡ bp - 4) ⊎ (w ≡ bp + b.size - 8) ⊎ RowWord (bp + b.size) bs w

abbrev pub Sizes : List Block → Type 0
Sizes bs = All (λ b. IsBlockSize b.size) bs

pub Row-Sizes : (m : Mem) (bp : ℕ) (p : Bool) (bs : List Block) → Row m bp p bs → Sizes bs
Row-Sizes m bp p [] h = tt
Row-Sizes m bp p (b ∷ bs) h = (h.0.1, Row-Sizes m (bp + b.size) b.used bs h.1)

pub Tiled-Sizes : (m : Mem) (bp : ℕ) (p : Bool) (bs : List Block) → Tiled m bp p bs → Sizes bs
Tiled-Sizes m bp p [] h = tt
Tiled-Sizes m bp p (b ∷ bs) h = (h.0.1, Tiled-Sizes m (bp + b.size) b.used bs h.1)

pub le-end_of : (bp : ℕ) (bs : List Block) → bp ≤ end_of bp bs
unfolding end_of
le-end_of bp [] = omega arith
le-end_of bp (b ∷ bs) = omega (arith, le-end_of (bp + b.size) bs)

pub end_of-append : (bp : ℕ) (ls bs : List Block) → end_of bp (ls ++ bs) ≡ end_of (end_of bp ls) bs
unfolding end_of
end_of-append bp [] bs = refl
end_of-append bp (a ∷ ls) bs = end_of-append (bp + a.size) ls bs

-- the words of a row stand between its first header and the header after it
pub RowWord-bounds :
    (bp : ℕ) (bs : List Block) (w : ℕ)
    → 4 ≤ bp
    → Sizes bs
    → RowWord bp bs w
    → (bp - 4 ≤ w) × (w + 8 ≤ end_of bp bs)
unfolding end_of
RowWord-bounds bp [] w h s r = absurd r
RowWord-bounds bp (b ∷ bs) w h s (inl e) = omega (arith, le-end_of (bp + b.size) bs, s.0)
RowWord-bounds bp (b ∷ bs) w h s (inr (inl e)) = omega (arith, le-end_of (bp + b.size) bs, s.0)
RowWord-bounds bp (b ∷ bs) w h s (inr (inr r)) =
    omega (arith, RowWord-bounds (bp + b.size) bs w (omega arith) s.1 r, s.0)

pub FreeAt-bounds :
    (bp : ℕ) (bs : List Block) (x s : ℕ)
    → Sizes bs
    → FreeAt bp bs x s
    → (bp ≤ x) × (x + s ≤ end_of bp bs) × IsBlockSize s
unfolding end_of
FreeAt-bounds bp [] x s z f = absurd f
FreeAt-bounds bp (b ∷ bs) x s z (inl (e, n, u)) =
    omega (arith, le-end_of (bp + b.size) bs, z.0, e, n)
FreeAt-bounds bp (b ∷ bs) x s z (inr f) = omega (arith, FreeAt-bounds (bp + b.size) bs x s z.1 f)

-- A header or footer of a row is no link of a free block of the row.
pub RowWord-Clear :
    (bp : ℕ) (bs : List Block) (w x s : ℕ)
    → 4 ≤ bp
    → Sizes bs
    → RowWord bp bs w
    → FreeAt bp bs x s
    → Clear w x
RowWord-Clear bp [] w x s h z r f = absurd f
RowWord-Clear bp (b ∷ bs) w x s h z (inl e) (inl (p, n, u)) = omega (arith, e, p)
RowWord-Clear bp (b ∷ bs) w x s h z (inl e) (inr f) =
    omega (arith, FreeAt-bounds (bp + b.size) bs x s z.1 f)
RowWord-Clear bp (b ∷ bs) w x s h z (inr (inl e)) (inl (p, n, u)) = omega (arith, z.0)
RowWord-Clear bp (b ∷ bs) w x s h z (inr (inl e)) (inr f) =
    omega (arith, FreeAt-bounds (bp + b.size) bs x s z.1 f, z.0)
RowWord-Clear bp (b ∷ bs) w x s h z (inr (inr r)) (inl (p, n, u)) =
    omega (arith, RowWord-bounds (bp + b.size) bs w (omega arith) z.1 r, z.0)
RowWord-Clear bp (b ∷ bs) w x s h z (inr (inr r)) (inr f) =
    RowWord-Clear (bp + b.size) bs w x s (omega arith) z.1 r f

-- Nor is the epilogue's header.
pub end-Clear :
    (bp : ℕ) (bs : List Block) (x s : ℕ) → Sizes bs → FreeAt bp bs x s → Clear (end_of bp bs - 4) x
end-Clear bp bs x s z f = omega (arith, FreeAt-bounds bp bs x s z f)

-- Rows with the same words are the same.
pub Row-same :
    (m k : Mem) (bp : ℕ) (p : Bool) (bs : List Block)
    → ((w : ℕ) → RowWord bp bs w → get k w ≡ get m w)
    → Row m bp p bs
    → Row k bp p bs
Row-same m k bp p [] same h = tt
Row-same m k bp p (b ∷ bs) same h = (
  (same (bp - 4) (inl refl) ∙ h.0.0, h.0.1, λ u. same (bp + b.size - 8) (inr (inl refl)) ∙ h.0.2 u),
  Row-same m k (bp + b.size) b.used bs (λ w r. same w (inr (inr r))) h.1,
)

pub Tiled-split :
    (m : Mem) (bp : ℕ) (p : Bool) (ls bs : List Block)
    → Tiled m bp p (ls ++ bs)
    → Row m bp p ls × Tiled m (end_of bp ls) (last_used p ls) bs
unfolding end_of last_used
Tiled-split m bp p [] bs h = (tt, h)
Tiled-split m bp p (a ∷ ls) bs h =
    let (r, t) = Tiled-split m (bp + a.size) a.used ls bs h.1 in ((h.0, r), t)

pub Tiled-join :
    (m : Mem) (bp : ℕ) (p : Bool) (ls bs : List Block)
    → Row m bp p ls
    → Tiled m (end_of bp ls) (last_used p ls) bs
    → Tiled m bp p (ls ++ bs)
unfolding end_of last_used
Tiled-join m bp p [] bs r t = t
Tiled-join m bp p (a ∷ ls) bs r t = (r.0, Tiled-join m (bp + a.size) a.used ls bs r.1 t)

pub Tiled-same :
    (m k : Mem) (bp : ℕ) (p : Bool) (bs : List Block)
    → ((w : ℕ) → RowWord bp bs w ⊎ (w ≡ end_of bp bs - 4) → get k w ≡ get m w)
    → Tiled m bp p bs
    → Tiled k bp p bs
unfolding end_of
Tiled-same m k bp p [] same h = same (bp - 4) (inr refl) ∙ h
Tiled-same m k bp p (b ∷ bs) same h = (
  (
    same (bp - 4) (inl (inl refl)) ∙ h.0.0,
    h.0.1,
    λ u. same (bp + b.size - 8) (inl (inr (inl refl))) ∙ h.0.2 u,
  ),
  Tiled-same m k (bp + b.size) b.used bs (λ w r. same w (later w r)) h.1,
)
  where
    later :
        (w : ℕ)
        → RowWord (bp + b.size) bs w ⊎ (w ≡ end_of (bp + b.size) bs - 4)
        → RowWord bp (b ∷ bs) w ⊎ (w ≡ end_of (bp + b.size) bs - 4)
    later w (inl r) = inl (inr (inr r))
    later w (inr e) = inr e

-- The state of the block before the blocks `bs` shows only in the first header.
pub Tiled-prev :
    (m k : Mem) (bp : ℕ) (p q : Bool) (bs : List Block)
    → 4 ≤ bp
    → get k (bp - 4) + 2 * bit p ≡ get m (bp - 4) + 2 * bit q
    → ((w : ℕ) → bp ≤ w → RowWord bp bs w ⊎ (w ≡ end_of bp bs - 4) → get k w ≡ get m w)
    → Tiled m bp p bs
    → Tiled k bp q bs
unfolding end_of
Tiled-prev m k bp p q [] h e same t = omega (arith, e, t)
Tiled-prev m k bp p q (b ∷ bs) h e same t = (
  (
    omega (arith, e, t.0.0),
    t.0.1,
    λ u. same (bp + b.size - 8) (omega (arith, t.0.1)) (inl (inr (inl refl))) ∙ t.0.2 u,
  ),
  Tiled-same m k (bp + b.size) b.used bs (λ w r. later w r) t.1,
)
  where
    sizes : Sizes bs
    sizes = Tiled-Sizes m (bp + b.size) b.used bs t.1

    later :
        (w : ℕ) → RowWord (bp + b.size) bs w ⊎ (w ≡ end_of (bp + b.size) bs - 4) → get k w ≡ get m w
    later w (inl r) =
        same w (omega (arith, RowWord-bounds (bp + b.size) bs w (omega arith) sizes r, t.0.1))
          (inl (inr (inr r)))
    later w (inr x) = same w (omega (arith, x, le-end_of (bp + b.size) bs, t.0.1)) (inr x)

-- No list uses a header or a footer of the blocks as a link.
pub RowWord-Outside :
    (heap_listp free_listp : ℕ) (m : Mem) (lists : Lists) (bp : ℕ) (tiles bs : List Block)
    → IsLaidOut heap_listp free_listp m lists bp tiles bs
    → Sizes bs
    → (w : ℕ) → RowWord bp bs w ⊎ (w ≡ end_of bp bs - 4)
    → Outside free_listp lists w
RowWord-Outside heap_listp free_listp m lists bp tiles bs h sizes w r = record {
  heads = λ i k. omega (arith, h.heads, low r);
  blocks = λ i k.
      All-map (IsMember bp bs i) (Clear w) (λ x a. clear r x a.0 a.1) (lists i) (h.members i k);
}
  where
    low : RowWord bp bs w ⊎ (w ≡ end_of bp bs - 4) → bp - 4 ≤ w
    low (inl a) = (RowWord-bounds bp bs w (omega (arith, h.heads, h.room, h.above)) sizes a).0
    low (inr e) = omega (arith, e, le-end_of bp bs)

    clear : RowWord bp bs w ⊎ (w ≡ end_of bp bs - 4) → (x s : ℕ) → FreeAt bp bs x s → Clear w x
    clear (inl a) x s f = RowWord-Clear bp bs w x s (omega (arith, h.room, h.above)) sizes a f
    clear (inr q) x s f = rw q (end-Clear bp bs x s sizes f)

pub bit_bound : (p : Bool) → bit p ≤ 1
bit_bound true = omega arith
bit_bound false = omega arith

-- The header after a block: a part that does not depend on that block, and the second bit.
pub first_header :
    (m : Mem) (y : ℕ) (p : Bool) (rs : List Block)
    → Tiled m y p rs
    → (v : ℕ) × (get m (y - 4) ≡ v + 2 * bit p) × (v % 4 < 2) × (v + 2 < 2 ^ 32)
first_header m y p [] t = (1, t, omega arith, omega arith)
first_header m y p (b ∷ rs) t =
    let (a, s, f) = t.0 in
    (b.size + bit b.used, a, omega (arith, s, bit_bound b.used), omega (arith, s, bit_bound b.used))
