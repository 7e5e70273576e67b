-- ===== src/Seg/Heap/Realloc/Rows.antt =====
-- Two blocks of one row, a used one and a free one that is allotted: either may stand first.
use mar_2015_dynamic_storage.Base.{
  ℕ, ◌+◌, ◌≤◌, ◌≡◌, ◌⊎◌, inl, inr, true, false, List, [], ◌∷◌, ◌++◌, arith, refl, sym, ap, ◌∙◌,
  subst, leb, Bool-cases,
}
use mar_2015_dynamic_storage.Seg.Heap.Words.{end_of-append}
use mar_2015_dynamic_storage.Seg.Heap.Freed.{join_free, join-cases}
use mar_2015_dynamic_storage.Seg.Heap.{Block, end_of}
use mar_2015_dynamic_storage.Seg.Heap.Words.{}
use mar_2015_dynamic_storage.Seg.Heap.Around.{free_block, used_block}
use mar_2015_dynamic_storage.Seg.Heap.Allot.{allot}
use mar_2015_dynamic_storage.Seg.Heap.Coalesce.{first_used}
use mar_2015_dynamic_storage.Seg.Heap.Freed.{}
use mar_2015_dynamic_storage.Seg.Heap.Used.{
  InPayload, InPayload-append, InPayload-left, InPayload-right,
}

first_block : List Block → Block
first_block [] = used_block 0
first_block (b ∷ bs) = b

unfoldable pub others : List Block → List Block
others [] = []
others (b ∷ bs) = bs

-- The free block stands behind the used one, or before it.
abbrev pub Behind :
    (ls : List Block) (n : ℕ) (rs front : List Block) (k : ℕ) (rest : List Block) → Type 0
Behind ls n rs front k rest =
    (mid : List Block) × (front ≡ ls ++ used_block n ∷ mid) × (rs ≡ mid ++ free_block k ∷ rest)

abbrev pub Before :
    (ls : List Block) (n : ℕ) (rs front : List Block) (k : ℕ) (rest : List Block) → Type 0
Before ls n rs front k rest =
    (mid : List Block) × (ls ≡ front ++ free_block k ∷ mid) × (rest ≡ mid ++ used_block n ∷ rs)

pub row-cases :
    (ls : List Block) (n : ℕ) (rs front : List Block) (k : ℕ) (rest : List Block)
    → ls ++ used_block n ∷ rs ≡ front ++ free_block k ∷ rest
    → Behind ls n rs front k rest ⊎ Before ls n rs front k rest
unfolding first_block others first_used
row-cases [] n rs [] k rest e = let u : true ≡ false = ap first_used e in cc
row-cases [] n rs (b ∷ front) k rest e =
    inl (front, ap (λ t. t ∷ front) (sym (ap first_block e)), ap others e)
row-cases (a ∷ ls) n rs [] k rest e =
    inr (ls, ap (λ t. t ∷ ls) (ap first_block e), sym (ap others e))
row-cases (a ∷ ls) n rs (b ∷ front) k rest e = elim (row-cases ls n rs front k rest (ap others e)) [
  | inl (mid, p, q) ↦ inl (mid, ap (λ t. t ∷ front) (sym (ap first_block e)) ∙ ap (λ t. a ∷ t) p, q)
  | inr (mid, p, q) ↦ inr (mid, ap (λ t. t ∷ ls) (ap first_block e) ∙ ap (λ t. b ∷ t) p, q)
]

pub end_of-allot : (x asize k : ℕ) → asize ≤ k → end_of x (allot asize k) ≡ x + k
unfolding allot end_of
end_of-allot x asize k h = elim (Bool-cases (leb (asize + 16) k)) [
  | inl e ↦ rw e (omega arith)
  | inr e ↦ rw e refl
]

pub first_used-allot : (asize k : ℕ) (rest : List Block) → first_used (allot asize k ++ rest) ≡ true
unfolding allot first_used
first_used-allot asize k rest = elim (Bool-cases (leb (asize + 16) k)) [
  | inl e ↦ rw e refl
  | inr e ↦ rw e refl
]

-- A payload behind `bs` stays one if blocks of the same extent take their place.
pub InPayload-replace :
    (bp : ℕ) (ls : List Block) (k : ℕ) (cs rs : List Block) (w : ℕ)
    → end_of (end_of bp ls) cs ≡ end_of bp ls + k
    → InPayload bp (ls ++ free_block k ∷ rs) w
    → InPayload bp (ls ++ (cs ++ rs)) w
InPayload-replace bp ls k cs rs w e h = elim (InPayload-append bp ls (free_block k ∷ rs) w h) [
  | inl a ↦ InPayload-left bp ls (cs ++ rs) w a
  | inr (inl a) ↦ cc
  | inr (inr a) ↦
      InPayload-right bp ls (cs ++ rs) w
        (InPayload-right (end_of bp ls) cs rs w (subst (λ t. InPayload t rs w) (sym e) a))
]

-- a payload among the first blocks `cs`
pub InPayload-middle :
    (bp : ℕ) (ls cs rs : List Block) (w : ℕ)
    → InPayload (end_of bp ls) cs w
    → InPayload bp (ls ++ (cs ++ rs)) w
InPayload-middle bp ls cs rs w h =
    InPayload-right bp ls (cs ++ rs) w (InPayload-left (end_of bp ls) cs rs w h)

pub InPayload-map :
    (bp : ℕ) (ls xs ys : List Block) (w : ℕ)
    → (InPayload (end_of bp ls) xs w → InPayload (end_of bp ls) ys w)
    → InPayload bp (ls ++ xs) w
    → InPayload bp (ls ++ ys) w
InPayload-map bp ls xs ys w f h = elim (InPayload-append bp ls xs w h) [
  | inl a ↦ InPayload-left bp ls ys w a
  | inr a ↦ InPayload-right bp ls ys w (f a)
]

pub InPayload-skip :
    (bp n : ℕ) (xs : List Block) (w : ℕ)
    → InPayload bp (free_block n ∷ xs) w
    → InPayload (bp + n) xs w
InPayload-skip bp n xs w (inl a) = cc
InPayload-skip bp n xs w (inr a) = a

-- the payload of the first part of an allotted block
pub InPayload-allot :
    (x asize k i : ℕ) → asize ≤ k → i + 8 ≤ asize → InPayload x (allot asize k) (x + i)
unfolding allot
InPayload-allot x asize k i fits h = elim (Bool-cases (leb (asize + 16) k)) [
  | inl e ↦ rw e (inl (refl, omega arith, omega arith))
  | inr e ↦ rw e (inl (refl, omega arith, omega arith))
]

-- A row ends where it did when a free block is allotted, and `n` bytes later when a block of `n` is added.
pub end_of-allotted :
    (bp : ℕ) (ls rs : List Block) (asize k : ℕ)
    → asize ≤ k
    → end_of bp (ls ++ (allot asize k ++ rs)) ≡ end_of bp (ls ++ free_block k ∷ rs)
unfolding end_of
end_of-allotted bp ls rs asize k h =
    end_of-append bp ls (allot asize k ++ rs)
    ∙ end_of-append (end_of bp ls) (allot asize k) rs
    ∙ ap (λ t. end_of t rs) (end_of-allot (end_of bp ls) asize k h)
    ∙ sym (end_of-append bp ls (free_block k ∷ rs))

pub end_of-join_free :
    (bp : ℕ) (ls : List Block) (n : ℕ) (rs : List Block)
    → end_of bp (join_free ls n rs) ≡ end_of (end_of bp ls + n) rs
unfolding end_of
end_of-join_free bp ls n rs = elim (join-cases bp ls n rs) [
  | inl (p, e, at) ↦ ap (end_of bp) e ∙ end_of-append bp ls (free_block n ∷ rs)
  | inr (front, a, l, e, at) ↦
      let here : end_of bp ls ≡ end_of bp front + a =
        ap (end_of bp) l ∙ end_of-append bp front (free_block a ∷ []) in
      let sum : end_of bp front + (n + a) ≡ end_of bp ls + n = omega (arith, here) in
      ap (end_of bp) e
      ∙ end_of-append bp front (free_block (n + a) ∷ rs)
      ∙ ap (λ t. end_of t rs) sum
]
