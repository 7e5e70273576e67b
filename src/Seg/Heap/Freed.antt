-- ===== src/Seg/Heap/Freed.antt =====
-- mm_free of mm-segregated list(97:100)/mm.c on the blocks of a heap.
use mar_2015_dynamic_storage.Base.{
  ℕ, ◌+◌, ◌≡◌, ◌⊎◌, inl, inr, true, false, List, [], ◌∷◌, ◌++◌, arith, refl, ap, ◌∙◌, subst, ◌==◌,
  if◌then◌else◌, Bool-cases,
}
use mar_2015_dynamic_storage.Machine.Memory.{Mem}
use mar_2015_dynamic_storage.Machine.State.{State}
use mar_2015_dynamic_storage.Memlib.{Sbrk}
use mar_2015_dynamic_storage.Blocks.{get_size, hdrp}
use mar_2015_dynamic_storage.Seg.{coalesce}
use mar_2015_dynamic_storage.Seg.Lists.{Lists}
use mar_2015_dynamic_storage.Seg.Fit.{null}
use mar_2015_dynamic_storage.Seg.Package.{mm_free, release, init_if_needed}
use mar_2015_dynamic_storage.Seg.Heap.{Block, end_of, last_used, IsLaidOut, IsHeap}
use mar_2015_dynamic_storage.Seg.Heap.Words.{end_of-append, le-end_of, bit_bound}
use mar_2015_dynamic_storage.Seg.Heap.Around.{free_block, used_block, own}
use mar_2015_dynamic_storage.Seg.Heap.Release.{release-IsLaidOut}
use mar_2015_dynamic_storage.Seg.Heap.Coalesce.{first_used}
use mar_2015_dynamic_storage.Seg.Heap.Coalesce.Alone.{coalesce-IsHeap_alone}
use mar_2015_dynamic_storage.Seg.Heap.Coalesce.Before.{coalesce-IsHeap_before}

-- The row in which a block of `n` bytes behind `ls` is free: it is joined with the block before it if that is free.
unfoldable pub join_free : (ls : List Block) (n : ℕ) (rs : List Block) → List Block
join_free [] n rs = free_block n ∷ rs
join_free (b ∷ []) n rs = if b.used then b ∷ free_block n ∷ rs else free_block (n + b.size) ∷ rs
join_free (b ∷ c ∷ ls) n rs = b ∷ join_free (c ∷ ls) n rs

-- where that block begins
unfoldable pub join_start : ℕ → List Block → ℕ
join_start bp [] = bp
join_start bp (b ∷ []) = if b.used then bp + b.size else bp
join_start bp (b ∷ c ∷ ls) = join_start (bp + b.size) (c ∷ ls)

-- The block before is used, or it is the last of the row and free.
pub join-cases :
    (bp : ℕ) (ls : List Block) (n : ℕ) (rs : List Block)
    → (last_used true ls ≡ true)
        × (join_free ls n rs ≡ ls ++ free_block n ∷ rs)
        × (join_start bp ls ≡ end_of bp ls)
      ⊎ ((front : List Block) × (a : ℕ) × (ls ≡ front ++ free_block a ∷ [])
          × (join_free ls n rs ≡ front ++ free_block (n + a) ∷ rs)
          × (join_start bp ls ≡ end_of bp front))
unfolding join_free join_start last_used end_of
join-cases bp [] n rs = inl (refl, refl, refl)
join-cases bp (b ∷ []) n rs = elim (Bool-cases b.used) [
  | inl u ↦ inl (u, rw u refl, rw u refl)
  | inr u ↦
      inr ([], b.size, ap (λ t. record { size = b.size; used = t } ∷ []) u, rw u refl, rw u refl)
]
join-cases bp (b ∷ c ∷ ls) n rs = elim (join-cases (bp + b.size) (c ∷ ls) n rs) [
  | inl (u, e, p) ↦ inl (u, ap (λ t. b ∷ t) e, p)
  | inr (front, a, l, e, p) ↦ inr (b ∷ front, a, ap (λ t. b ∷ t) l, ap (λ t. b ∷ t) e, p)
]

pub append_assoc : (xs ys zs : List Block) → (xs ++ ys) ++ zs ≡ xs ++ (ys ++ zs)
append_assoc [] ys zs = refl
append_assoc (x ∷ xs) ys zs = ap (λ t. x ∷ t) (append_assoc xs ys zs)

pub row_append :
    (ls front : List Block) (a : ℕ) (b : Block) (rs : List Block)
    → ls ≡ front ++ free_block a ∷ []
    → ls ++ b ∷ rs ≡ front ++ free_block a ∷ b ∷ rs
row_append ls front a b rs l =
    ap (λ t. t ++ b ∷ rs) l ∙ append_assoc front (free_block a ∷ []) (b ∷ rs)

pub IsLaidOut-append :
    (heap_listp free_listp : ℕ) (m : Mem) (lists : Lists) (bp : ℕ) (ls front rs : List Block)
    (a n : ℕ)
    → ls ≡ front ++ free_block a ∷ []
    → IsLaidOut heap_listp free_listp m lists bp (ls ++ free_block n ∷ rs) (ls ++ used_block n ∷ rs)
    → IsLaidOut heap_listp free_listp m lists bp
        (front ++ free_block a ∷ free_block n ∷ rs)
        (front ++ free_block a ∷ used_block n ∷ rs)
IsLaidOut-append heap_listp free_listp m lists bp ls front rs a n l h =
    subst
      (λ t.
        IsLaidOut heap_listp free_listp m lists bp (front ++ free_block a ∷ free_block n ∷ rs) t)
      (row_append ls front a (used_block n) rs l)
      (subst (λ t. IsLaidOut heap_listp free_listp m lists bp t (ls ++ used_block n ∷ rs))
        (row_append ls front a (free_block n) rs l) h)

-- If a heap holds the blocks `ls`, a free block of `n` bytes and `rs`, which is in no list, and the next block is
-- used: coalesce joins the block with the one before if that is free, and lists the result.
pub coalesce-join_free :
    (heap_listp free_listp : ℕ) (m : Mem) (lists : Lists) (bp : ℕ) (ls rs : List Block) (n : ℕ)
    → IsLaidOut heap_listp free_listp m lists bp (ls ++ free_block n ∷ rs) (ls ++ used_block n ∷ rs)
    → first_used rs ≡ true
    → ((coalesce heap_listp free_listp (end_of bp ls) m).0 ≡ join_start bp ls)
      × ((after : Lists) × IsHeap heap_listp free_listp
            (coalesce heap_listp free_listp (end_of bp ls) m).1
            after
            bp
            (join_free ls n rs))
unfolding end_of
coalesce-join_free heap_listp free_listp m lists bp ls rs n h u = elim (join-cases bp ls n rs) [
  | inl (p, e, at) ↦
      rw (e, at) (coalesce-IsHeap_alone heap_listp free_listp m lists bp ls rs n h p u)
  | inr (front, a, l, e, at) ↦
      let h₂ = IsLaidOut-append heap_listp free_listp m lists bp ls front rs a n l h in
      let here : end_of bp ls ≡ end_of bp front + a =
        ap (end_of bp) l ∙ end_of-append bp front (free_block a ∷ []) in
      rw (e, at, here) (coalesce-IsHeap_before heap_listp free_listp m lists bp front rs a n h₂ u)
]

module _ (sbrk : Sbrk) (s : State) (lists : Lists) (bp : ℕ) (ls rs : List Block) (n : ℕ)
    (h : IsHeap s.heap_listp s.free_listp s.mem lists bp (ls ++ used_block n ∷ rs)) where
  initialised : init_if_needed sbrk s ≡ s
  unfolding init_if_needed
  initialised = let there : (s.heap_listp == 0) ≡ false = ground (arith, h.room) in rw there refl

  unfoldable pub freed : State → State
  freed t = record t {
    mem = (coalesce t.heap_listp t.free_listp (end_of bp ls) (release (end_of bp ls) n t.mem)).1;
  }

  pub mm_free-freed : mm_free sbrk (end_of bp ls) s ≡ freed s
  unfolding mm_free freed
  mm_free-freed =
      let there : (end_of bp ls == null) ≡ false = ground (arith, h.above, le-end_of bp ls) in
      let ((a, z, f), t) = own s.heap_listp s.free_listp s.mem lists bp ls (used_block n) rs h in
      let size : get_size s.mem (hdrp (end_of bp ls)) ≡ n =
        omega (arith, a, z, bit_bound (last_used true ls)) in
      rw (there, size) (ap freed initialised)

  -- If a heap holds the blocks `ls`, a used block of `n` bytes and `rs`, and no free block follows: after mm_free of
  -- that block the heap holds the same blocks, but this one is free, and it is joined with the block before it if that
  -- is free; nothing else of the state changes than the memory.
  pub mm_free-heap :
      first_used rs ≡ true
      → (m : Mem) × (mm_free sbrk (end_of bp ls) s ≡ record s { mem = m })
        × ((after : Lists) × IsHeap s.heap_listp s.free_listp m after bp (join_free ls n rs))
  unfolding freed
  mm_free-heap u =
      let after =
        coalesce-join_free s.heap_listp s.free_listp (release (end_of bp ls) n s.mem) lists bp ls rs
          n (release-IsLaidOut s.heap_listp s.free_listp s.mem lists bp ls rs n h) u in
      (_, mm_free-freed, after.1)
