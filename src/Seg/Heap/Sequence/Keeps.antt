-- ===== src/Seg/Heap/Sequence/Keeps.antt =====
-- Every call and every write leaves a heap.
use mar_2015_dynamic_storage.Base.{
  ℕ, ◌+◌, ◌%◌, ◌^◌, ◌≤◌, ◌<◌, ◌≡◌, ◌⊎◌, inl, inr, Bool, true, Option, none, List, [], ◌∷◌, ◌++◌,
  some, arith, refl, sym, ap, ◌∙◌, subst,
}
use mar_2015_dynamic_storage.Machine.Memory.{Mem, get}
use mar_2015_dynamic_storage.Machine.State.{State}
use mar_2015_dynamic_storage.Memlib.{Sbrk}
use mar_2015_dynamic_storage.Seg.Sizes.{adjust}
use mar_2015_dynamic_storage.Seg.Classes.{adjust_least}
use mar_2015_dynamic_storage.Seg.Lists.{Lists}
use mar_2015_dynamic_storage.Seg.Package.{mm_init, mm_malloc, mm_free, mm_realloc}
use mar_2015_dynamic_storage.Seg.Heap.{Block, end_of}
use mar_2015_dynamic_storage.Seg.Heap.Words.{end_of-append}
use mar_2015_dynamic_storage.Seg.Heap.Around.{free_block, used_block}
use mar_2015_dynamic_storage.Seg.Heap.Allot.{allot}
use mar_2015_dynamic_storage.Seg.Heap.Freed.{join_free, mm_free-heap}
use mar_2015_dynamic_storage.Seg.Heap.Malloc.{mm_malloc-heap}
use mar_2015_dynamic_storage.Seg.Heap.Grown.{CanGrow, malloc_extend-heap}
use mar_2015_dynamic_storage.Seg.Heap.Served.{adjust-lt}
use mar_2015_dynamic_storage.Seg.Heap.Init.{CanInit, mm_init-heap}
use mar_2015_dynamic_storage.Seg.Heap.Refused.{IsRefused, mm_malloc-IsRefused}
use mar_2015_dynamic_storage.Seg.Heap.Realloc.Rows.{end_of-allotted, end_of-join_free}
use mar_2015_dynamic_storage.Seg.Heap.Realloc.Copied.{IsHeap-copied}
use mar_2015_dynamic_storage.Seg.Heap.Realloc.Contents.{mm_realloc-Reallocated}
use mar_2015_dynamic_storage.Seg.Heap.Sequence.{
  Holds, IsLive, Grants, asked, Reachable, initialised, requested, released, written, moved,
}

abbrev Held : ℕ → State → Type 0
Held bp s = (lists : Lists) × (bs : List Block) × Holds bp s lists bs

module _ (sbrk : Sbrk) (bp : ℕ) (s : State) where
  Grants-CanGrow :
      (lists : Lists) (bs : List Block) (n : ℕ)
      → Holds bp s lists bs
      → Grants sbrk s n
      → CanGrow sbrk s bp bs n
  Grants-CanGrow lists bs n h g = record {
    at_break = h.at_break;
    under_limit = g.under_limit;
    granted = g.granted;
    positive_int = g.positive_int;
    address = g.address;
    near = g.near;
    clean = g.clean;
  }

  mm_free-Held : (ptr n : ℕ) → IsLive bp s ptr n true → Held bp (mm_free sbrk ptr s)
  unfolding end_of
  mm_free-Held ptr n l =
      let (m, e, (after, g)) = mm_free-heap sbrk s l.lists bp l.ls l.rs n l.holds.heap l.follows in
      let held : Held bp (record s { mem = m }) = (
        after,
        join_free l.ls n l.rs,
        record {
          heap = g;
          start = l.holds.start;
          at_break =
              end_of-join_free bp l.ls n l.rs
              ∙ sym (end_of-append bp l.ls (used_block n ∷ l.rs))
              ∙ l.holds.at_break;
        },
      ) in
      subst (Held bp) (sym e ∙ ap (λ p. mm_free sbrk p s) (sym l.place)) held

  write-Held :
      (ptr n : ℕ) (next : Bool) (k : Mem)
      → IsLive bp s ptr n next
      → ((w : ℕ) → (w + 4 ≤ ptr) ⊎ (ptr + n ≤ w + 4) → get k w ≡ get s.mem w)
      → Held bp (record s { mem = k })
  write-Held ptr n next k l same = (
    l.lists,
    l.ls ++ used_block n ∷ l.rs,
    record {
      heap =
          IsHeap-copied s.heap_listp s.free_listp s.mem l.lists bp l.ls l.rs n l.holds.heap k
            (λ w o. same w (omega (arith, o, l.place)));
      start = l.holds.start;
      at_break = l.holds.at_break;
    },
  )

  state_of : Option (ℕ × State) → State
  state_of none = s
  state_of (some r) = r.1

  same_state :
      (size p q : ℕ) (x t : State)
      → mm_malloc sbrk size s ≡ some (p, x)
      → mm_malloc sbrk size s ≡ some (q, t)
      → x ≡ t
  unfolding state_of
  same_state size p q x t e f = ap state_of (sym e ∙ f)

  mm_malloc-Held :
      (size q : ℕ) (t : State)
      → Held bp s
      → 0 < size
      → size + 11 < 2 ^ 64
      → Grants sbrk s (asked size) ⊎ IsRefused sbrk (asked size % 2 ^ 32) s.sys
      → mm_malloc sbrk size s ≡ some (q, t)
      → Held bp t
  unfolding end_of
  mm_malloc-Held size q t (lists, bs, h) some_bytes no_wrap system e =
      let (m8, m16, large, least) = adjust_least size no_wrap in
      let end : end_of bp bs ≤ s.sys.mem_brk = omega (arith, h.at_break) in
      elim (mm_malloc-heap sbrk size s lists bp bs h.heap some_bytes no_wrap h.start end) [
        | inl (full, r) ↦ elim system [
          | inl g ↦
              let (front, k, m, after, row, fit, x, g₁) =
                malloc_extend-heap sbrk s lists bp bs h.heap (adjust size) m8 m16
                  (adjust-lt size no_wrap) (Grants-CanGrow lists bs (asked size) h g) in
              subst (Held bp) (same_state size _ q _ t (r ∙ ap some x) e) (
                after,
                front ++ (allot (adjust size) k ++ []),
                record {
                  heap = g₁;
                  start = h.start;
                  at_break =
                      end_of-allotted bp front [] (adjust size) k fit
                      ∙ ap (end_of bp) (sym row)
                      ∙ end_of-join_free bp bs (asked size) []
                      ∙ ap (λ y. y + asked size) h.at_break;
                },
              )
          | inr refused ↦
              let (calls, x) =
                mm_malloc-IsRefused sbrk size s lists bp bs h.heap some_bytes no_wrap h.start end
                  full refused in
              subst (Held bp) (same_state size _ q _ t x e)
                (lists, bs, record { heap = h.heap; start = h.start; at_break = h.at_break })
        ]
        | inr (ls, rs, k, (row, fit, (m, at, r, (after, g)))) ↦
            subst (Held bp) (same_state size _ q _ t r e) (
              after,
              ls ++ (allot (adjust size) k ++ rs),
              record {
                heap = g;
                start = h.start;
                at_break =
                    end_of-allotted bp ls rs (adjust size) k fit
                    ∙ ap (end_of bp) (sym row)
                    ∙ h.at_break;
              },
            )
      ]

  mm_realloc-Held :
      (ptr n size q : ℕ) (t : State)
      → IsLive bp s ptr n true
      → 0 < size
      → size + 11 < 2 ^ 64
      → Grants sbrk s (asked size)
      → mm_realloc sbrk ptr size s ≡ some (q, t)
      → Held bp t
  unfolding state_of
  mm_realloc-Held ptr n size q t l some_bytes no_wrap g e =
      let f =
        mm_realloc-Reallocated sbrk size s l.lists bp l.ls l.rs n l.holds.heap l.follows some_bytes
          no_wrap l.holds.start
          (Grants-CanGrow l.lists (l.ls ++ used_block n ∷ l.rs) (asked size) l.holds g) in
      let same =
        ap state_of (sym f.answer ∙ ap (λ p. mm_realloc sbrk p size s) (sym l.place) ∙ e) in
      subst (Held bp) same
        (f.lists, f.row, record { heap = f.heap; start = f.start; at_break = f.at_break })

mm_init-Held :
    (sbrk : Sbrk) (s t : State)
    → CanInit sbrk s
    → s.sys.heap ≤ s.sys.mem_brk
    → mm_init sbrk s ≡ (true, t)
    → Held (s.sys.mem_brk + 112) t
unfolding end_of
mm_init-Held sbrk s t c start e =
    let (m, after, r, g) = mm_init-heap sbrk s c in
    subst (Held (s.sys.mem_brk + 112)) (ap (λ (y : Bool × State). y.1) (sym r ∙ e)) (
      after,
      free_block 992 ∷ [],
      record { heap = g; start = omega (arith, start); at_break = refl },
    )

-- A run starts with mm_init at a break that is a multiple of 8, not below the start of the simulated
-- heap, and can move by 112 and then by 992 bytes. Then come, in any order: mm_malloc for some bytes
-- that do not wrap, where the system grants or refuses what the heap would be extended by; mm_free of
-- a used block that a used block or the end follows; mm_realloc of such a block likewise, where the
-- system grants; writes into payloads of used blocks. Bytes granted, at mm_init too, are within the
-- limit of the heap, fewer than 2 ^ 31, in reach of 64-bit addresses and of the offsets, and their
-- last word has its second bit clear (as fresh memory has; memory used before mem_reset_brk may not).
-- Then the heap holds a row of used and free blocks up to the break, and the lists exactly the free
-- ones.
pub Reachable-Held :
    (sbrk : Sbrk) (bp : ℕ) (s : State)
    → Reachable sbrk bp s
    → (lists : Lists) × (bs : List Block) × Holds bp s lists bs
Reachable-Held sbrk bp _ (initialised s t c start at e) =
    subst (λ y. Held y t) (sym at) (mm_init-Held sbrk s t c start e)
Reachable-Held sbrk bp _ (requested s t size q r some_bytes no_wrap system e) =
    mm_malloc-Held sbrk bp s size q t (Reachable-Held sbrk bp s r) some_bytes no_wrap system e
Reachable-Held sbrk bp _ (released s ptr n r l) = mm_free-Held sbrk bp s ptr n l
Reachable-Held sbrk bp _ (written s ptr n next k r l same) =
    write-Held sbrk bp s ptr n next k l same
Reachable-Held sbrk bp _ (moved s t ptr n size q r l some_bytes no_wrap g e) =
    mm_realloc-Held sbrk bp s ptr n size q t l some_bytes no_wrap g e
