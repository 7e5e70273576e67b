-- ===== src/Seg/Heap/Realloc/Around.antt =====
-- A row in which a free block is allotted, seen from a used block of the row.
use mar_2015_dynamic_storage.Base.{
  ℕ, ◌+◌, ◌≤◌, ◌≡◌, inl, inr, true, List, [], ◌∷◌, ◌++◌, refl, sym, ap, ◌∙◌, subst,
}
use mar_2015_dynamic_storage.Seg.Heap.{Block, end_of}
use mar_2015_dynamic_storage.Seg.Heap.Words.{end_of-append}
use mar_2015_dynamic_storage.Seg.Heap.Around.{free_block, used_block}
use mar_2015_dynamic_storage.Seg.Heap.Allot.{allot}
use mar_2015_dynamic_storage.Seg.Heap.Coalesce.{first_used}
use mar_2015_dynamic_storage.Seg.Heap.Freed.{append_assoc}
use mar_2015_dynamic_storage.Seg.Heap.Used.{
  InPayload, InPayload-append, InPayload-left, InPayload-right,
}
use mar_2015_dynamic_storage.Seg.Heap.Realloc.Rows.{
  row-cases, end_of-allot, first_used-allot, InPayload-replace, InPayload-middle, InPayload-map,
  InPayload-skip,
}

-- The row `now` holds the used block of `n` bytes where `ls` ends; `ls'` and `rs'` are round it.
pub record Stays (bp : ℕ) (ls : List Block) (n : ℕ) (rs front : List Block) (asize k : ℕ)
    (rest ls' rs' : List Block) : Type 0 where
  pub row : front ++ (allot asize k ++ rest) ≡ ls' ++ used_block n ∷ rs'
  pub place : end_of bp ls' ≡ end_of bp ls
  pub next : first_used rs' ≡ true
  pub fresh :
      (w : ℕ)
      → InPayload (end_of bp front) (allot asize k) w
      → InPayload bp (ls' ++ free_block n ∷ rs') w
  pub kept :
      (w : ℕ)
      → InPayload bp (ls ++ free_block n ∷ rs) w
      → InPayload bp (ls' ++ free_block n ∷ rs') w

-- The block behind the used one is used, or it is the free block.
abbrev pub NextUsed : (rs : List Block) (k : ℕ) (rest : List Block) → Type 0
NextUsed rs k rest =
    (b : Block) (mid : List Block) → rs ≡ b ∷ (mid ++ free_block k ∷ rest) → b.used ≡ true

module _ (bp : ℕ) (ls : List Block) (n : ℕ) (rs front : List Block) (asize k : ℕ)
    (rest : List Block) (fits : asize ≤ k) where
  new_end : end_of (end_of bp front) (allot asize k) ≡ end_of bp front + k
  new_end = end_of-allot (end_of bp front) asize k fits

  behind-Stays :
      (mid : List Block)
      → front ≡ ls ++ used_block n ∷ mid
      → rs ≡ mid ++ free_block k ∷ rest
      → NextUsed rs k rest
      → Stays bp ls n rs front asize k rest ls (mid ++ (allot asize k ++ rest))
  unfolding end_of first_used
  behind-Stays mid p q u = record {
    row =
        ap (λ t. t ++ (allot asize k ++ rest)) p
        ∙ append_assoc ls (used_block n ∷ mid) (allot asize k ++ rest);
    place = refl;
    next = next mid q;
    fresh = λ w h. InPayload-right bp ls (free_block n ∷ (mid ++ (allot asize k ++ rest))) w (
        inr (
          InPayload-middle (end_of bp ls + n) mid (allot asize k) rest w (
            subst (λ t. InPayload t (allot asize k) w)
              (ap (end_of bp) p ∙ end_of-append bp ls (used_block n ∷ mid)) h)));
    kept = λ w h.
        InPayload-map bp ls (free_block n ∷ rs) (free_block n ∷ (mid ++ (allot asize k ++ rest))) w
          (λ a. inr (
            InPayload-replace (end_of bp ls + n) mid k (allot asize k) rest w
              (end_of-allot (end_of (end_of bp ls + n) mid) asize k fits)
              (subst (λ t. InPayload (end_of bp ls + n) t w) q
                (InPayload-skip (end_of bp ls) n rs w a))))
          h;
  }
    where
      next :
          (mid : List Block)
          → rs ≡ mid ++ free_block k ∷ rest
          → first_used (mid ++ (allot asize k ++ rest)) ≡ true
      next [] q = first_used-allot asize k rest
      next (b ∷ mid) q = u b mid q

  before-Stays :
      (mid : List Block)
      → ls ≡ front ++ free_block k ∷ mid
      → rest ≡ mid ++ used_block n ∷ rs
      → first_used rs ≡ true
      → Stays bp ls n rs front asize k rest (front ++ (allot asize k ++ mid)) rs
  unfolding end_of
  before-Stays mid p q u = record {
    row =
        ap (λ t. front ++ (allot asize k ++ t)) q
        ∙ ap (λ t. front ++ t) (sym (append_assoc (allot asize k) mid (used_block n ∷ rs)))
        ∙ sym (append_assoc front (allot asize k ++ mid) (used_block n ∷ rs));
    place = same_end;
    next = u;
    fresh = λ w h.
        InPayload-left bp (front ++ (allot asize k ++ mid)) (free_block n ∷ rs) w
          (InPayload-middle bp front (allot asize k) mid w h);
    kept = λ w h. elim (InPayload-append bp ls (free_block n ∷ rs) w h) [
      | inl a ↦ InPayload-left bp (front ++ (allot asize k ++ mid)) (free_block n ∷ rs) w (
          InPayload-replace bp front k (allot asize k) mid w new_end
            (subst (λ t. InPayload bp t w) p a))
      | inr a ↦
          InPayload-right bp (front ++ (allot asize k ++ mid)) (free_block n ∷ rs) w
            (subst (λ t. InPayload t (free_block n ∷ rs) w) (sym same_end) a)
    ];
  }
    where
      same_end : end_of bp (front ++ (allot asize k ++ mid)) ≡ end_of bp ls
      same_end =
          end_of-append bp front (allot asize k ++ mid)
          ∙ end_of-append (end_of bp front) (allot asize k) mid
          ∙ ap (λ t. end_of t mid) new_end
          ∙ sym (ap (end_of bp) p ∙ end_of-append bp front (free_block k ∷ mid))

  -- Wherever the free block stands, the used one stays.
  pub allot-Stays :
      ls ++ used_block n ∷ rs ≡ front ++ free_block k ∷ rest
      → NextUsed rs k rest
      → ((mid : List Block) → rest ≡ mid ++ used_block n ∷ rs → first_used rs ≡ true)
      → (ls' : List Block) × (rs' : List Block) × Stays bp ls n rs front asize k rest ls' rs'
  allot-Stays e u v = elim (row-cases ls n rs front k rest e) [
    | inl (mid, p, q) ↦ (ls, mid ++ (allot asize k ++ rest), behind-Stays mid p q u)
    | inr (mid, p, q) ↦ (front ++ (allot asize k ++ mid), rs, before-Stays mid p q (v mid q))
  ]
