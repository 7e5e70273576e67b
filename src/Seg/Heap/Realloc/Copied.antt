-- ===== src/Seg/Heap/Realloc/Copied.antt =====
-- The copy that mm_realloc of mm-segregated list(97:100)/mm.c makes into the payload of a used block.
use mar_2015_dynamic_storage.Base.{
  ℕ, ◌+◌, ◌-◌, ◌≤◌, ◌<◌, ◌≡◌, ◌⊎◌, inl, inr, List, [], ◌∷◌, ◌++◌, arith, refl, ◌∙◌, All-map,
}
use mar_2015_dynamic_storage.Machine.Memory.{Mem, get, memcpy}
use mar_2015_dynamic_storage.Links.Chain.{}
use mar_2015_dynamic_storage.Seg.Lists.{Lists, head, IsFreeLists, Linked-same}
use mar_2015_dynamic_storage.Seg.Heap.{Block, end_of, last_used, IsMember, IsHeap}
use mar_2015_dynamic_storage.Seg.Heap.Around.{used_block, all-Sizes, own, low, Tiled-replace}
use mar_2015_dynamic_storage.Seg.Heap.Free.{FreeAt-around}
use mar_2015_dynamic_storage.Seg.Heap.Words.{}

byte-memcpy_outside : (m : Mem) (d s n q : ℕ) → (q < d) ⊎ (d + n ≤ q) → memcpy m d s n q ≡ m q
unfolding memcpy
byte-memcpy_outside m d s n q h = ground arith

byte-memcpy : (m : Mem) (d s n q r : ℕ) → d ≤ q → q < d + n → r + d ≡ s + q → memcpy m d s n q ≡ m r
unfolding memcpy
byte-memcpy m d s n q r low high e = let at : s + (q - d) ≡ r = omega arith in ground arith

pub get-memcpy_outside :
    (m : Mem) (d s n w : ℕ) → (w + 4 ≤ d) ⊎ (d + n ≤ w) → get (memcpy m d s n) w ≡ get m w
unfolding get
get-memcpy_outside m d s n w h = omega (
  arith,
  byte-memcpy_outside m d s n w (omega arith),
  byte-memcpy_outside m d s n (w + 1) (omega arith),
  byte-memcpy_outside m d s n (w + 2) (omega arith),
  byte-memcpy_outside m d s n (w + 3) (omega arith),
)

pub get-memcpy : (m : Mem) (d s n i : ℕ) → i + 4 ≤ n → get (memcpy m d s n) (d + i) ≡ get m (s + i)
unfolding get
get-memcpy m d s n i h = omega (
  arith,
  byte-memcpy m d s n (d + i) (s + i) (omega arith) (omega arith) (omega arith),
  byte-memcpy m d s n (d + i + 1) (s + i + 1) (omega arith) (omega arith) (omega arith),
  byte-memcpy m d s n (d + i + 2) (s + i + 2) (omega arith) (omega arith) (omega arith),
  byte-memcpy m d s n (d + i + 3) (s + i + 3) (omega arith) (omega arith) (omega arith),
)

-- A memory that differs from that of a heap in the payload of one used block only.
module _ (heap_listp free_listp : ℕ) (m : Mem) (lists : Lists) (bp : ℕ) (ls rs : List Block) (n : ℕ)
    (h : IsHeap heap_listp free_listp m lists bp (ls ++ used_block n ∷ rs)) (k : Mem)
    (same : (w : ℕ) → (w + 4 ≤ end_of bp ls) ⊎ (end_of bp ls + n ≤ w + 4) → get k w ≡ get m w) where
  abbrev all : List Block
  all = ls ++ used_block n ∷ rs

  links_same :
      (i x : ℕ) → IsMember bp all i x → (get k x ≡ get m x) × (get k (x + 4) ≡ get m (x + 4))
  links_same i x (s, f, e) =
      elim (FreeAt-around bp ls (used_block n) rs x s
        (all-Sizes heap_listp free_listp m lists bp ls (used_block n) rs h) f) [
          | inl a ↦ (same x (omega (arith, a)), same (x + 4) (omega (arith, a)))
          | inr (inl a) ↦ cc
          | inr (inr a) ↦ (same x (omega (arith, a)), same (x + 4) (omega (arith, a)))
        ]

  lists_same : IsFreeLists heap_listp free_listp k lists
  lists_same = record {
    linked = λ i r.
        rw
          (same (head free_listp i) (
            inl (
              omega
                (arith, r, h.heads, low heap_listp free_listp m lists bp ls (used_block n) rs h))))
          (Linked-same heap_listp m k 0 (get m (head free_listp i)) (lists i)
            (All-map (IsMember bp all i)
              (λ x. (get k x ≡ get m x) × (get k (x + 4) ≡ get m (x + 4))) (links_same i) (lists i)
              (h.members i r))
            (h.in_memory.linked i r));
    clear = h.in_memory.clear;
    spaced = h.in_memory.spaced;
    apart = h.in_memory.apart;
  }

  pub IsHeap-copied : IsHeap heap_listp free_listp k lists bp all
  unfolding end_of last_used
  IsHeap-copied =
      let ((a, z, f), t) = own heap_listp free_listp m lists bp ls (used_block n) rs h in
      let under = low heap_listp free_listp m lists bp ls (used_block n) rs h in
      record {
        tiled =
            Tiled-replace heap_listp free_listp m lists bp ls (used_block n) rs h k
              (used_block n ∷ []) refl
              (
                (
                  same (end_of bp ls - 4) (inl (omega (arith, under, h.room, h.above))) ∙ a,
                  z,
                  λ u. cc,
                ),
                tt,
              )
              (omega (arith, same (end_of bp ls + n - 4) (inr (omega (arith, z)))))
              (λ w o r. same w (omega (arith, r)));
        in_memory = lists_same;
        members = h.members;
        complete = h.complete;
        room = h.room;
        heads = h.heads;
        above = h.above;
        near = h.near;
        aligned = h.aligned;
      }
