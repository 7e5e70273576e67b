-- ===== src/Seg/Heap/Free.antt =====
-- Free blocks of a heap and members of its lists, when a block leaves a list or joins one.
use mar_2015_dynamic_storage.Base.{
  ℕ, ◌+◌, ◌-◌, ◌≤◌, ◌≡◌, ◌≢◌, ◌⊎◌, inl, inr, false, List, [], ◌∷◌, ◌++◌, All, arith, refl, sym, ap,
  ◌∙◌, subst,
}
use native.Mathlib.Decide.{ℕ_discrete}
use mar_2015_dynamic_storage.Seg.Lists.{Lists, update}
use mar_2015_dynamic_storage.Seg.Search.{Has}
use mar_2015_dynamic_storage.Seg.Removed.{removed}
use mar_2015_dynamic_storage.Seg.Heap.{Block, end_of, FreeAt}
use mar_2015_dynamic_storage.Seg.Heap.Words.{Sizes, RowWord, FreeAt-bounds, le-end_of}

pub FreeAt-append :
    (bp : ℕ) (ls rs : List Block) (x s : ℕ)
    → FreeAt bp (ls ++ rs) x s
    → FreeAt bp ls x s ⊎ FreeAt (end_of bp ls) rs x s
unfolding end_of
FreeAt-append bp [] rs x s f = inr f
FreeAt-append bp (b ∷ ls) rs x s (inl e) = inl (inl e)
FreeAt-append bp (b ∷ ls) rs x s (inr f) = elim (FreeAt-append (bp + b.size) ls rs x s f) [
  | inl a ↦ inl (inr a)
  | inr a ↦ inr a
]

pub FreeAt-left :
    (bp : ℕ) (ls rs : List Block) (x s : ℕ) → FreeAt bp ls x s → FreeAt bp (ls ++ rs) x s
FreeAt-left bp [] rs x s f = absurd f
FreeAt-left bp (b ∷ ls) rs x s (inl e) = inl e
FreeAt-left bp (b ∷ ls) rs x s (inr f) = inr (FreeAt-left (bp + b.size) ls rs x s f)

pub FreeAt-right :
    (bp : ℕ) (ls rs : List Block) (x s : ℕ)
    → FreeAt (end_of bp ls) rs x s
    → FreeAt bp (ls ++ rs) x s
unfolding end_of
FreeAt-right bp [] rs x s f = f
FreeAt-right bp (b ∷ ls) rs x s f = inr (FreeAt-right (bp + b.size) ls rs x s f)

pub RowWord-left : (bp : ℕ) (ls rs : List Block) (w : ℕ) → RowWord bp ls w → RowWord bp (ls ++ rs) w
RowWord-left bp [] rs w r = absurd r
RowWord-left bp (b ∷ ls) rs w (inl e) = inl e
RowWord-left bp (b ∷ ls) rs w (inr (inl e)) = inr (inl e)
RowWord-left bp (b ∷ ls) rs w (inr (inr r)) = inr (inr (RowWord-left (bp + b.size) ls rs w r))

pub RowWord-right :
    (bp : ℕ) (ls rs : List Block) (w : ℕ) → RowWord (end_of bp ls) rs w → RowWord bp (ls ++ rs) w
unfolding end_of
RowWord-right bp [] rs w r = r
RowWord-right bp (b ∷ ls) rs w r = inr (inr (RowWord-right (bp + b.size) ls rs w r))

-- the header after a row is that of the next block or of the epilogue
pub next_word : (y : ℕ) (rs : List Block) → RowWord y rs (y - 4) ⊎ (y - 4 ≡ end_of y rs - 4)
unfolding end_of
next_word y [] = inr refl
next_word y (b ∷ rs) = inl (inl refl)

-- A free block lies before the block `b`, is it, or lies behind it.
pub FreeAt-around :
    (bp : ℕ) (ls : List Block) (b : Block) (rs : List Block) (y s : ℕ)
    → Sizes (ls ++ b ∷ rs)
    → FreeAt bp (ls ++ b ∷ rs) y s
    → (y + 16 ≤ end_of bp ls)
      ⊎ (y ≡ end_of bp ls) × (s ≡ b.size) × (b.used ≡ false)
      ⊎ (end_of bp ls + b.size ≤ y)
unfolding end_of
FreeAt-around bp [] b rs y s z (inl e) = inr (inl e)
FreeAt-around bp [] b rs y s z (inr f) = inr (inr (FreeAt-bounds (bp + b.size) rs y s z.1 f).0)
FreeAt-around bp (a ∷ ls) b rs y s z (inl (p, q, u)) =
    inl (omega (arith, p, z.0, le-end_of (bp + a.size) ls))
FreeAt-around bp (a ∷ ls) b rs y s z (inr f) = FreeAt-around (bp + a.size) ls b rs y s z.1 f

-- Free blocks of one row are free blocks of another that has `cs` in the place of `bs`, unless they are
-- among `bs`.
pub FreeAt-replace :
    (bp : ℕ) (ls bs cs rs : List Block) (y s : ℕ)
    → end_of (end_of bp ls) bs ≡ end_of (end_of bp ls) cs
    → ¬ (FreeAt (end_of bp ls) bs y s)
    → FreeAt bp (ls ++ (bs ++ rs)) y s
    → FreeAt bp (ls ++ (cs ++ rs)) y s
FreeAt-replace bp ls bs cs rs y s e none_there f = elim (FreeAt-append bp ls (bs ++ rs) y s f) [
  | inl a ↦ FreeAt-left bp ls (cs ++ rs) y s a
  | inr a ↦ elim (FreeAt-append (end_of bp ls) bs rs y s a) [
    | inl there ↦ absurd (none_there there)
    | inr later ↦
        FreeAt-right bp ls (cs ++ rs) y s
          (FreeAt-right (end_of bp ls) cs rs y s (subst (λ t. FreeAt t rs y s) e later))
  ]
]

-- Free blocks of one row but the block `b` are free blocks of the other row.
pub FreeAt-other :
    (bp : ℕ) (ls : List Block) (b : Block) (bs rs : List Block) (y s : ℕ)
    → end_of (end_of bp ls) bs ≡ end_of bp ls + b.size
    → y ≢ end_of bp ls
    → FreeAt bp (ls ++ b ∷ rs) y s
    → FreeAt bp (ls ++ (bs ++ rs)) y s
unfolding end_of
FreeAt-other bp ls b bs rs y s e ne f = FreeAt-replace bp ls (b ∷ []) bs rs y s (sym e) not_here f
  where
    not_here : ¬ (FreeAt (end_of bp ls) (b ∷ []) y s)
    not_here (inl here) = ne here.0
    not_here (inr none_left) = none_left

pub Has-split :
    (x : ℕ) (zs : List ℕ) → Has x zs → (xs : List ℕ) × (ys : List ℕ) × (zs ≡ xs ++ x ∷ ys)
Has-split x [] h = absurd h
Has-split x (z ∷ zs) (inl e) = ([], zs, ap (λ t. t ∷ zs) (sym e))
Has-split x (z ∷ zs) (inr h) = let (xs, ys, e) = Has-split x zs h in (z ∷ xs, ys, ap (λ t. z ∷ t) e)

pub Has-without : (y x : ℕ) (xs ys : List ℕ) → y ≢ x → Has y (xs ++ x ∷ ys) → Has y (xs ++ ys)
Has-without y x [] ys ne (inl e) = absurd (ne e)
Has-without y x [] ys ne (inr h) = h
Has-without y x (z ∷ xs) ys ne (inl e) = inl e
Has-without y x (z ∷ xs) ys ne (inr h) = inr (Has-without y x xs ys ne h)

pub Has-removed :
    (lists : Lists) (e x : ℕ) (xs ys : List ℕ) (at : lists e ≡ xs ++ x ∷ ys) (i y : ℕ)
    → y ≢ x
    → Has y (lists i)
    → Has y (removed lists e x xs ys at i)
Has-removed lists e x xs ys at i y ne h = elim (ℕ_discrete i e) [
  | yes p ↦
      let here : removed lists e x xs ys at i ≡ xs ++ ys = ground (arith, p) in
      rw here (Has-without y x xs ys ne (subst (λ t. Has y t) (ap lists p ∙ at) h))
  | no p ↦ let same : removed lists e x xs ys at i ≡ lists i = ground (arith, p) in rw same h
]

-- `x` is put in front of the list `e`.
module _ (lists : Lists) (e x : ℕ) where
  abbrev pub added : Lists
  added = update lists e (x ∷ lists e)

  pub Has-added : (i y : ℕ) → Has y (lists i) → Has y (added i)
  Has-added i y h = elim (ℕ_discrete i e) [
    | yes p ↦
        let here : added i ≡ x ∷ lists e = ground (arith, p) in
        rw here (inr (subst (λ t. Has y (lists t)) p h))
    | no p ↦ let same : added i ≡ lists i = ground (arith, p) in rw same h
  ]

  pub Has-added_self : Has x (added e)
  Has-added_self = let here : added e ≡ x ∷ lists e = ground arith in rw here (inl refl)

  pub All-added : (P : ℕ → ℕ → Type 0) (i : ℕ) → All (P i) (lists i) → P e x → All (P i) (added i)
  All-added P i h p = elim (ℕ_discrete i e) [
    | yes q ↦
        let here : added i ≡ x ∷ lists e = ground (arith, q) in
        rw here (subst (λ t. P t x) (sym q) p, subst (λ t. All (P i) (lists t)) q h)
    | no q ↦ let same : added i ≡ lists i = ground (arith, q) in rw same h
  ]

pub All-both {ℓ} :
    {A : Type ℓ} (P Q R : A → Type 0) (xs : List A)
    → ((x : A) → P x → Q x → R x)
    → All P xs
    → All Q xs
    → All R xs
All-both P Q R [] f h k = tt
All-both P Q R (x ∷ xs) f h k = (f x h.0 k.0, All-both P Q R xs f h.1 k.1)
