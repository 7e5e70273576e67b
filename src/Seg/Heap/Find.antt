-- ===== src/Seg/Heap/Find.antt =====
-- The free lists of a heap can be searched: the sizes that the search reads are those of the blocks, and
-- the blocks bound the length of each list.
use mar_2015_dynamic_storage.Base.{
  ℕ, suc, ◌+◌, ◌-◌, ◌*◌, ◌≤◌, ◌≡◌, inl, inr, Bool, true, List, [], ◌∷◌, ◌++◌, All, All-map, arith,
  refl, sym, ap, ◌∙◌, subst, length,
}
use mar_2015_dynamic_storage.Machine.Memory.{Mem, get}
use mar_2015_dynamic_storage.Blocks.{get_size, hdrp}
use mar_2015_dynamic_storage.Links.Chain.{Far, Spaced}
use mar_2015_dynamic_storage.Seg.Sizes.{list_entry}
use mar_2015_dynamic_storage.Seg.Lists.{Lists}
use mar_2015_dynamic_storage.Seg.Search.{Searchable, Has}
use mar_2015_dynamic_storage.Seg.Heap.{Block, bit, end_of, Tiled, FreeAt, IsMember, IsHeap}
use mar_2015_dynamic_storage.Seg.Heap.Words.{Sizes, bit_bound}
use mar_2015_dynamic_storage.Seg.Heap.Free.{Has-split, Has-without}
use mar_2015_dynamic_storage.Seg.Heap.Around.{free_block}

-- where the blocks begin
starts : ℕ → List Block → List ℕ
starts bp [] = []
starts bp (b ∷ bs) = bp ∷ starts (bp + b.size) bs

length-starts : (bp : ℕ) (bs : List Block) → length (starts bp bs) ≡ length bs
unfolding starts
length-starts bp [] = refl
length-starts bp (b ∷ bs) = ap suc (length-starts (bp + b.size) bs)

FreeAt-starts : (bp : ℕ) (bs : List Block) (x s : ℕ) → FreeAt bp bs x s → Has x (starts bp bs)
unfolding starts
FreeAt-starts bp [] x s f = absurd f
FreeAt-starts bp (b ∷ bs) x s (inl e) = inl e.0
FreeAt-starts bp (b ∷ bs) x s (inr f) = inr (FreeAt-starts (bp + b.size) bs x s f)

-- A block has at least 16 bytes.
pub length-end_of : (bp : ℕ) (bs : List Block) → Sizes bs → bp + 16 * length bs ≤ end_of bp bs
unfolding end_of
length-end_of bp [] z = omega arith
length-end_of bp (b ∷ bs) z = omega (arith, length-end_of (bp + b.size) bs z.1, z.0)

All-Has-without :
    (x : ℕ) (l r xs : List ℕ)
    → All (Far x) xs
    → All (λ y. Has y (l ++ x ∷ r)) xs
    → All (λ y. Has y (l ++ r)) xs
All-Has-without x l r [] f h = tt
All-Has-without x l r (y ∷ xs) f h =
    (Has-without y x l r (λ e. omega (arith, f.0, e)) h.0, All-Has-without x l r xs f.1 h.1)

length-without : (x : ℕ) (l r : List ℕ) → length (l ++ x ∷ r) ≡ suc (length (l ++ r))
length-without x [] r = refl
length-without x (y ∷ l) r = ap suc (length-without x l r)

-- Different members of a sequence are no more than its elements.
length-Spaced : (xs ys : List ℕ) → Spaced xs → All (λ x. Has x ys) xs → length xs ≤ length ys
length-Spaced [] ys s h = omega arith
length-Spaced (x ∷ xs) ys s h =
    let (l, r, e) = Has-split x ys h.0 in
    let others = All-Has-without x l r xs s.0 (subst (λ t. All (λ y. Has y t) xs) e h.1) in
    omega (arith, length-Spaced xs (l ++ r) s.1 others, ap length e, length-without x l r)

-- the header of a free block holds its size
pub FreeAt-get_size :
    (m : Mem) (bp : ℕ) (p : Bool) (bs : List Block) (x s : ℕ)
    → Tiled m bp p bs
    → FreeAt bp bs x s
    → get_size m (hdrp x) ≡ s
FreeAt-get_size m bp p [] x s t f = absurd f
FreeAt-get_size m bp p (b ∷ bs) x s t (inl (e, n, u)) =
    let at : get m (x - 4) ≡ b.size + bit b.used + 2 * bit p = rw e t.0.0 in
    let free : bit b.used ≡ 0 = ap bit u in omega (arith, at, free, n, t.0.1, bit_bound p)
FreeAt-get_size m bp p (b ∷ bs) x s t (inr f) = FreeAt-get_size m (bp + b.size) b.used bs x s t.1 f

-- A free block parts the row.
pub FreeAt-split :
    (bp : ℕ) (bs : List Block) (x s : ℕ)
    → FreeAt bp bs x s
    → (ls : List Block) × (rs : List Block) × (bs ≡ ls ++ free_block s ∷ rs) × (end_of bp ls ≡ x)
unfolding end_of
FreeAt-split bp [] x s f = absurd f
FreeAt-split bp (b ∷ bs) x s (inl (e, n, u)) = (
  [],
  bs,
  ap (λ c. c ∷ bs) (ap (λ t. record { size = b.size; used = t }) u ∙ ap free_block (sym n)),
  sym e,
)
FreeAt-split bp (b ∷ bs) x s (inr f) =
    let (ls, rs, e, a) = FreeAt-split (bp + b.size) bs x s f in (b ∷ ls, rs, ap (λ t. b ∷ t) e, a)

pub All-Has {ℓ} : (P : ℕ → Type ℓ) (x : ℕ) (xs : List ℕ) → All P xs → Has x xs → P x
All-Has P x [] a h = absurd h
All-Has P x (y ∷ xs) a (inl e) = subst P (sym e) a.0
All-Has P x (y ∷ xs) a (inr h) = All-Has P x xs a.1 h

module _ (heap_listp free_listp : ℕ) (m : Mem) (lists : Lists) (bp : ℕ) (bs : List Block)
    (h : IsHeap heap_listp free_listp m lists bp bs) where
  pub IsMember-get_size : (i x : ℕ) → IsMember bp bs i x → list_entry (get_size m (hdrp x)) ≡ i
  IsMember-get_size i x a = ap list_entry (FreeAt-get_size m bp true bs x a.0 h.tiled a.1) ∙ a.2

  pub searchable : (fuel : ℕ) → length bs ≤ fuel → Searchable heap_listp free_listp m lists fuel
  searchable fuel f = record {
    in_memory = h.in_memory;
    classed = λ i k.
        All-map (IsMember bp bs i) (λ x. list_entry (get_size m (hdrp x)) ≡ i) (IsMember-get_size i)
          (lists i) (h.members i k);
    enough = λ i k.
        let inside =
          All-map (IsMember bp bs i) (λ x. Has x (starts bp bs))
            (λ x a. FreeAt-starts bp bs x a.0 a.1) (lists i) (h.members i k) in
        omega (
          arith,
          length-Spaced (lists i) (starts bp bs) (h.in_memory.spaced i k) inside,
          length-starts bp bs,
          f,
        );
  }
