-- ===== src/Seg/Heap/Realloc/Fresh.antt =====
-- The block that mm_malloc answers a request with, seen from a used block of the heap.
use mar_2015_dynamic_storage.Base.{
  ℕ, ◌+◌, ◌/◌, ◌^◌, ◌≤◌, ◌<◌, ◌≡◌, ◌⊎◌, inl, inr, true, List, [], ◌∷◌, ◌++◌, some, arith, refl, sym,
  ap, ◌∙◌, subst,
}
use mar_2015_dynamic_storage.Machine.State.{State}
use mar_2015_dynamic_storage.Memlib.{Sbrk}
use mar_2015_dynamic_storage.Seg.Sizes.{adjust, extend_size}
use mar_2015_dynamic_storage.Seg.Classes.{adjust_least}
use mar_2015_dynamic_storage.Seg.Lists.{Lists}
use mar_2015_dynamic_storage.Seg.Package.{mm_malloc, even_bytes}
use mar_2015_dynamic_storage.Seg.Heap.{Block, end_of, IsHeap}
use mar_2015_dynamic_storage.Seg.Heap.Words.{}
use mar_2015_dynamic_storage.Seg.Heap.Around.{free_block, used_block}
use mar_2015_dynamic_storage.Seg.Heap.Allot.{allot}
use mar_2015_dynamic_storage.Seg.Heap.Coalesce.{first_used}
use mar_2015_dynamic_storage.Seg.Heap.Freed.{join_free}
use mar_2015_dynamic_storage.Seg.Heap.Malloc.{mm_malloc-heap}
use mar_2015_dynamic_storage.Seg.Heap.Grown.{CanGrow, malloc_extend-heap}
use mar_2015_dynamic_storage.Seg.Heap.Served.{adjust-lt, allot-used_block}
use mar_2015_dynamic_storage.Seg.Heap.Used.{InPayload, InPayload-left, InPayload-around}
use mar_2015_dynamic_storage.Seg.Heap.Kept.{InPayload-join_free}
use mar_2015_dynamic_storage.Seg.Heap.Realloc.Rows.{
  InPayload-map, InPayload-skip, others, InPayload-allot,
}
use mar_2015_dynamic_storage.Seg.Heap.Realloc.Rows.{end_of-allotted, end_of-join_free}
use mar_2015_dynamic_storage.Seg.Heap.Realloc.Around.{Stays, NextUsed, allot-Stays}

join_free-behind :
    (ls : List Block) (n : ℕ) (rs : List Block) (more : ℕ)
    → join_free (ls ++ used_block n ∷ rs) more [] ≡ ls ++ used_block n ∷ join_free rs more []
unfolding join_free
join_free-behind [] n [] more = refl
join_free-behind [] n (r ∷ rs) more = refl
join_free-behind (a ∷ []) n rs more = ap (λ t. a ∷ t) (join_free-behind [] n rs more)
join_free-behind (a ∷ b ∷ ls) n rs more = ap (λ t. a ∷ t) (join_free-behind (b ∷ ls) n rs more)

not-empty : (mid : List Block) (b : Block) (rs : List Block) → ¬ ([] ≡ mid ++ b ∷ rs)
not-empty [] b rs e = cc
not-empty (a ∷ mid) b rs e = cc

NextUsed-here :
    (rs : List Block) (k : ℕ) (rest : List Block) → first_used rs ≡ true → NextUsed rs k rest
unfolding first_used
NextUsed-here rs k rest u b mid e = sym (ap first_used e) ∙ u

NextUsed-join_free :
    (rs : List Block) (more k : ℕ) → first_used rs ≡ true → NextUsed (join_free rs more []) k []
unfolding first_used join_free others
NextUsed-join_free [] more k u b mid e = absurd (not-empty mid (free_block k) [] (ap others e))
NextUsed-join_free (r ∷ []) more k u b mid e = sym (ap first_used (sym (joined u) ∙ e)) ∙ u
  where
    joined : r.used ≡ true → join_free (r ∷ []) more [] ≡ r ∷ free_block more ∷ []
    joined v = rw (join_free, v) refl
NextUsed-join_free (r ∷ c ∷ rs) more k u b mid e = sym (ap first_used e) ∙ u

-- After a request for `size` bytes the used block of `n` bytes is where it was, in another row, and the
-- payload that is returned is one of the others.
pub record Fresh (sbrk : Sbrk) (size : ℕ) (s : State) (bp : ℕ) (ls rs : List Block) (n : ℕ)
    : Type 0 where
  pub newptr : ℕ
  pub state : State
  pub lists : Lists
  pub ls' : List Block
  pub rs' : List Block
  pub front : List Block
  pub csize : ℕ
  pub rest : List Block
  pub answer : mm_malloc sbrk size s ≡ some (newptr, state)
  pub heap : IsHeap state.heap_listp state.free_listp state.mem lists bp (ls' ++ used_block n ∷ rs')
  pub place : end_of bp ls' ≡ end_of bp ls
  pub start : state.sys.heap ≤ bp
  pub at_break : end_of bp (ls' ++ used_block n ∷ rs') ≡ state.sys.mem_brk
  pub next : first_used rs' ≡ true
  pub row : ls' ++ used_block n ∷ rs' ≡ front ++ used_block csize ∷ rest
  pub at : newptr ≡ end_of bp front
  pub large : size + 4 ≤ csize
  pub payload :
      (i : ℕ) → i + 8 ≤ adjust size → InPayload bp (ls' ++ free_block n ∷ rs') (newptr + i)
  pub apart :
      (w : ℕ) → InPayload bp (ls ++ used_block n ∷ rs) w → (w + 4 ≤ newptr) ⊎ (newptr + size ≤ w)
  pub kept :
      (w : ℕ)
      → InPayload bp (ls ++ free_block n ∷ rs) w
      → InPayload bp (ls' ++ free_block n ∷ rs') w

module _ (sbrk : Sbrk) (size : ℕ) (s : State) (lists : Lists) (bp : ℕ) (ls rs : List Block) (n : ℕ)
    (h : IsHeap s.heap_listp s.free_listp s.mem lists bp (ls ++ used_block n ∷ rs))
    (u : first_used rs ≡ true) (some_bytes : 0 < size) (no_wrap : size + 11 < 2 ^ 64)
    (start : s.sys.heap ≤ bp)
    (c : CanGrow sbrk s bp
      (ls ++ used_block n ∷ rs)
      (even_bytes (extend_size (adjust size) / 4))) where
  fresh :
      (rs₁ front : List Block) (k : ℕ) (rest ls' rs' : List Block) (t : State) (after : Lists)
      → mm_malloc sbrk size s ≡ some (end_of bp front, t)
      → IsHeap t.heap_listp t.free_listp t.mem after bp (front ++ (allot (adjust size) k ++ rest))
      → adjust size ≤ k
      → t.sys.heap ≤ bp
      → end_of bp (front ++ free_block k ∷ rest) ≡ t.sys.mem_brk
      → ((w : ℕ)
          → InPayload bp (ls ++ free_block n ∷ rs) w
          → InPayload bp (ls ++ free_block n ∷ rs₁) w)
      → ((w : ℕ)
          → InPayload bp (ls ++ used_block n ∷ rs) w
          → InPayload bp (front ++ free_block k ∷ rest) w)
      → Stays bp ls n rs₁ front (adjust size) k rest ls' rs'
      → Fresh sbrk size s bp ls rs n
  fresh rs₁ front k rest ls' rs' t after e g fit low end f b z =
      let (csize, others, split, large) = allot-used_block (adjust size) k rest fit in
      let least = (adjust_least size no_wrap).2 in
      record {
        newptr = end_of bp front;
        state = t;
        lists = after;
        ls' = ls';
        rs' = rs';
        front = front;
        csize = csize;
        rest = others;
        answer = e;
        heap = subst (λ x. IsHeap t.heap_listp t.free_listp t.mem after bp x) z.row g;
        place = z.place;
        start = low;
        at_break =
            ap (end_of bp) (sym z.row) ∙ end_of-allotted bp front rest (adjust size) k fit ∙ end;
        next = z.next;
        row = sym z.row ∙ ap (λ x. front ++ x) split;
        at = refl;
        large = omega (arith, large, least);
        payload = λ i r.
            z.fresh (end_of bp front + i)
              (InPayload-allot (end_of bp front) (adjust size) k i fit r);
        apart = λ w v. omega (arith, InPayload-around bp front k rest w (b w v), fit, least);
        kept = λ w v. z.kept w (f w v);
      }

  pub mm_malloc-fresh : Fresh sbrk size s bp ls rs n
  unfolding end_of
  mm_malloc-fresh =
      let (m8, m16, large, least) = adjust_least size no_wrap in
      let more = even_bytes (extend_size (adjust size) / 4) in
      elim (mm_malloc-heap sbrk size s lists bp (ls ++ used_block n ∷ rs) h some_bytes no_wrap start
        (omega (arith, c.at_break))) [
          | inl (full, e) ↦
              let (front, k, m, after, row, fit, extended, g) =
                malloc_extend-heap sbrk s lists bp (ls ++ used_block n ∷ rs) h (adjust size) m8 m16
                  (adjust-lt size no_wrap) c in
              let (ls', rs', z) =
                allot-Stays bp ls n (join_free rs more []) front (adjust size) k [] fit
                  (sym (join_free-behind ls n rs more) ∙ row) (NextUsed-join_free rs more k u)
                  (λ mid q. absurd (not-empty mid (used_block n) (join_free rs more []) q)) in
              fresh (join_free rs more []) front k [] ls' rs' _ after (e ∙ ap some extended) g fit
                start
                (ap (end_of bp) (sym row)
                  ∙ end_of-join_free bp (ls ++ used_block n ∷ rs) more []
                  ∙ ap (λ y. y + more) c.at_break)
                (λ w v.
                  InPayload-map bp ls (free_block n ∷ rs) (free_block n ∷ join_free rs more []) w
                    (λ x. inr (
                      InPayload-join_free (end_of bp ls + n) rs more [] w (
                        InPayload-left (end_of bp ls + n) rs (free_block more ∷ []) w
                          (InPayload-skip (end_of bp ls) n rs w x))))
                    v)
                (λ w v.
                  subst (λ x. InPayload bp x w) row
                    (InPayload-join_free bp (ls ++ used_block n ∷ rs) more [] w
                      (InPayload-left bp (ls ++ used_block n ∷ rs) (free_block more ∷ []) w v)))
                z
          | inr (front, rest, k, (row, fit, (m, at, e, (after, g)))) ↦
              let (ls', rs', z) =
                allot-Stays bp ls n rs front (adjust size) k rest fit row
                  (NextUsed-here rs k rest u) (λ mid q. u) in
              fresh rs front k rest ls' rs' _ after e g fit start
                (ap (end_of bp) (sym row) ∙ c.at_break) (λ w v. v)
                (λ w v. subst (λ x. InPayload bp x w) row v) z
        ]
