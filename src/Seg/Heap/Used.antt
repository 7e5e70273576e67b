-- ===== src/Seg/Heap/Used.antt =====
-- The payloads of the used blocks of a heap: no list and no header or footer uses their words.
use mar_2015_dynamic_storage.Base.{
  ℕ, ◌+◌, ◌≤◌, ◌≡◌, ◌⊎◌, inl, inr, true, List, [], ◌∷◌, ◌++◌, All-map, arith,
}
use mar_2015_dynamic_storage.Machine.Memory.{Mem}
use mar_2015_dynamic_storage.Links.Chain.{Clear}
use mar_2015_dynamic_storage.Seg.Lists.{Lists}
use mar_2015_dynamic_storage.Seg.Frame.{Outside}
use mar_2015_dynamic_storage.Seg.Heap.{Block, end_of, FreeAt, IsMember, IsLaidOut}
use mar_2015_dynamic_storage.Seg.Heap.Words.{Sizes, FreeAt-bounds, le-end_of}
use mar_2015_dynamic_storage.Seg.Heap.Around.{free_block}

-- The word at `p` lies in the payload of a used block, before the next header.
abbrev pub InPayload : (bp : ℕ) → List Block → (p : ℕ) → Type 0
InPayload bp [] p = ⊥
InPayload bp (b ∷ bs) p =
    (b.used ≡ true) × (bp ≤ p) × (p + 8 ≤ bp + b.size) ⊎ InPayload (bp + b.size) bs p

pub InPayload-bounds :
    (bp : ℕ) (bs : List Block) (p : ℕ) → InPayload bp bs p → (bp ≤ p) × (p + 8 ≤ end_of bp bs)
unfolding end_of
InPayload-bounds bp [] p h = absurd h
InPayload-bounds bp (b ∷ bs) p (inl h) = omega (arith, h, le-end_of (bp + b.size) bs)
InPayload-bounds bp (b ∷ bs) p (inr h) = omega (arith, InPayload-bounds (bp + b.size) bs p h)

-- A word of a payload is no link of a free block.
InPayload-Clear :
    (bp : ℕ) (bs : List Block) (p x s : ℕ)
    → Sizes bs
    → InPayload bp bs p
    → FreeAt bp bs x s
    → Clear p x
InPayload-Clear bp [] p x s z h f = absurd f
InPayload-Clear bp (b ∷ bs) p x s z (inl h) (inl f) = cc
InPayload-Clear bp (b ∷ bs) p x s z (inl h) (inr f) =
    omega (arith, h, FreeAt-bounds (bp + b.size) bs x s z.1 f)
InPayload-Clear bp (b ∷ bs) p x s z (inr h) (inl f) =
    omega (arith, f, z.0, InPayload-bounds (bp + b.size) bs p h)
InPayload-Clear bp (b ∷ bs) p x s z (inr h) (inr f) = InPayload-Clear (bp + b.size) bs p x s z.1 h f

pub InPayload-Outside :
    (heap_listp free_listp : ℕ) (m : Mem) (lists : Lists) (bp : ℕ) (tiles bs : List Block)
    → IsLaidOut heap_listp free_listp m lists bp tiles bs
    → Sizes bs
    → (p : ℕ) → InPayload bp bs p
    → Outside free_listp lists p
InPayload-Outside heap_listp free_listp m lists bp tiles bs h z p u = record {
  heads = λ i k. omega (arith, h.heads, InPayload-bounds bp bs p u);
  blocks = λ i k.
      All-map (IsMember bp bs i) (Clear p) (λ x a. InPayload-Clear bp bs p x a.0 z u a.1) (lists i)
        (h.members i k);
}

pub InPayload-append :
    (bp : ℕ) (ls rs : List Block) (p : ℕ)
    → InPayload bp (ls ++ rs) p
    → InPayload bp ls p ⊎ InPayload (end_of bp ls) rs p
unfolding end_of
InPayload-append bp [] rs p h = inr h
InPayload-append bp (b ∷ ls) rs p (inl h) = inl (inl h)
InPayload-append bp (b ∷ ls) rs p (inr h) = elim (InPayload-append (bp + b.size) ls rs p h) [
  | inl a ↦ inl (inr a)
  | inr a ↦ inr a
]

pub InPayload-left :
    (bp : ℕ) (ls rs : List Block) (p : ℕ) → InPayload bp ls p → InPayload bp (ls ++ rs) p
InPayload-left bp [] rs p h = absurd h
InPayload-left bp (b ∷ ls) rs p (inl h) = inl h
InPayload-left bp (b ∷ ls) rs p (inr h) = inr (InPayload-left (bp + b.size) ls rs p h)

pub InPayload-right :
    (bp : ℕ) (ls rs : List Block) (p : ℕ)
    → InPayload (end_of bp ls) rs p
    → InPayload bp (ls ++ rs) p
unfolding end_of
InPayload-right bp [] rs p h = h
InPayload-right bp (b ∷ ls) rs p h = inr (InPayload-right (bp + b.size) ls rs p h)

-- It lies before a free block or behind it.
pub InPayload-around :
    (bp : ℕ) (ls : List Block) (n : ℕ) (rs : List Block) (p : ℕ)
    → InPayload bp (ls ++ free_block n ∷ rs) p
    → (p + 8 ≤ end_of bp ls) ⊎ (end_of bp ls + n ≤ p)
InPayload-around bp ls n rs p h = elim (InPayload-append bp ls (free_block n ∷ rs) p h) [
  | inl a ↦ inl (InPayload-bounds bp ls p a).1
  | inr (inl a) ↦ cc
  | inr (inr a) ↦ inr (InPayload-bounds (end_of bp ls + n) rs p a).0
]

-- A free block may stand in the row as a used one.
pub InPayload-used :
    (bp : ℕ) (ls : List Block) (n : ℕ) (b : Block) (rs : List Block) (p : ℕ)
    → b.size ≡ n
    → InPayload bp (ls ++ free_block n ∷ rs) p
    → InPayload bp (ls ++ b ∷ rs) p
InPayload-used bp ls n b rs p e h = elim (InPayload-append bp ls (free_block n ∷ rs) p h) [
  | inl a ↦ InPayload-left bp ls (b ∷ rs) p a
  | inr (inl a) ↦ cc
  | inr (inr a) ↦ InPayload-right bp ls (b ∷ rs) p (inr (rw e a))
]
