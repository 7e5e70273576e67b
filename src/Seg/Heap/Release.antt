-- ===== src/Seg/Heap/Release.antt =====
-- The writes of mm_free before it coalesces: a used block of the heap gets the header and the footer of a
-- free one, and is in no list yet.
use mar_2015_dynamic_storage.Base.{
  ℕ, ◌+◌, ◌-◌, ◌^◌, ◌≤◌, ◌<◌, ◌≡◌, ◌⊎◌, inl, inr, true, List, [], ◌∷◌, ◌++◌, arith, refl, ◌∙◌,
}
use mar_2015_dynamic_storage.Machine.Memory.{Mem, get, put, get-put-Apart, get-put_self}
use mar_2015_dynamic_storage.Machine.Word.{bit1, clear_bit1}
use mar_2015_dynamic_storage.Blocks.{get_size, put_hd}
use mar_2015_dynamic_storage.Seg.Lists.{Lists, IsFreeLists}
use mar_2015_dynamic_storage.Seg.Frame.{Outside, IsSize, get-put_hd-Apart, put-IsFreeLists}
use mar_2015_dynamic_storage.Seg.Place.{get-put_hd_self}
use mar_2015_dynamic_storage.Seg.Package.{release}
use mar_2015_dynamic_storage.Seg.Heap.{Block, end_of, last_used, IsLaidOut, IsHeap}
use mar_2015_dynamic_storage.Seg.Heap.Words.{first_header, bit_bound, end_of-append}
use mar_2015_dynamic_storage.Seg.Heap.Around.{
  free_block, used_block, own, low, word-Outside, next-Outside, Tiled-replace,
}

module _ (m : Mem) (bp n : ℕ) (z : IsSize n) (least : 16 ≤ n) (pos : 8 ≤ bp) where
  -- the memory after the header and the footer
  unfoldable pub sized : Mem
  sized = put (put_hd (bp - 4) n m) (bp + n - 8) n

  pub sized_words :
      (get sized (bp - 4) ≡ n + bit1 (get m (bp - 4)))
      × (get sized (bp + n - 8) ≡ n)
      × (get sized (bp + n - 4) ≡ get m (bp + n - 4))
  unfolding sized
  sized_words =
      let k = put_hd (bp - 4) n m in
      (
        get-put-Apart k (bp + n - 8) n (bp - 4) (inr (omega arith))
            ∙ get-put_hd_self m (bp - 4) n (omega (arith, z)) z.1,
        omega (arith, get-put_self k (bp + n - 8) n, z),
        get-put-Apart k (bp + n - 8) n (bp + n - 4) (inl (omega arith))
            ∙ get-put_hd-Apart m (bp - 4) n (bp + n - 4) (inl (omega arith)),
      )

module _ (m : Mem) (bp n : ℕ) (z : IsSize n) (least : 16 ≤ n) (pos : 8 ≤ bp)
    (next : get m (bp + n - 4) < 2 ^ 32) where
  release-sized :
      release bp n m
      ≡ put
          (sized m bp n z least pos)
          (bp + n - 4)
          (clear_bit1 (get (sized m bp n z least pos) (bp + n - 4)))
  unfolding release sized
  release-sized =
      let size₁ : get_size (put_hd (bp - 4) n m) (bp - 4) ≡ n =
        omega (arith, z, get-put_hd_self m (bp - 4) n (omega (arith, z)) z.1) in
      let size₂ : get_size (put (put_hd (bp - 4) n m) (bp + n - 8) n) (bp - 4) ≡ n =
        omega (arith, z, (sized_words m bp n z least pos).0) in
      rw (size₁, size₂) refl

  pub release_words :
      (get (release bp n m) (bp - 4) ≡ n + bit1 (get m (bp - 4)))
      × (get (release bp n m) (bp + n - 8) ≡ n)
      × (get (release bp n m) (bp + n - 4) ≡ clear_bit1 (get m (bp + n - 4)))
  release_words =
      let v = clear_bit1 (get (sized m bp n z least pos) (bp + n - 4)) in
      let w = (sized_words m bp n z least pos) in
      rw release-sized (
        get-put-Apart (sized m bp n z least pos) (bp + n - 4) v (bp - 4) (inr (omega arith)) ∙ w.0,
        get-put-Apart (sized m bp n z least pos) (bp + n - 4) v (bp + n - 8) (inr (omega arith))
            ∙ w.1,
        omega (arith, get-put_self (sized m bp n z least pos) (bp + n - 4) v, w.2, next),
      )

  pub get-release : (p : ℕ) → (p + 8 ≤ bp) ⊎ (bp + n ≤ p) → get (release bp n m) p ≡ get m p
  unfolding sized
  get-release p a = rw release-sized (
      get-put-Apart (sized m bp n z least pos) (bp + n - 4)
        (clear_bit1 (get (sized m bp n z least pos) (bp + n - 4))) p (omega (arith, a))
      ∙ get-put-Apart (put_hd (bp - 4) n m) (bp + n - 8) n p (omega (arith, a))
      ∙ get-put_hd-Apart m (bp - 4) n p (omega (arith, a)))

  pub release-IsFreeLists :
      (heap_listp free_listp : ℕ) (lists : Lists)
      → IsFreeLists heap_listp free_listp m lists
      → Outside free_listp lists (bp - 4)
      → Outside free_listp lists (bp + n - 8)
      → Outside free_listp lists (bp + n - 4)
      → IsFreeLists heap_listp free_listp (release bp n m) lists
  unfolding sized
  release-IsFreeLists heap_listp free_listp lists l a b c =
      let write = put-IsFreeLists heap_listp free_listp in
      rw release-sized (
        write _ lists (write _ lists (write m lists l (bp - 4) _ a) (bp + n - 8) n b) (bp + n - 4) _
          c)

-- If a heap holds the blocks `ls`, a used block of `n` bytes and `rs`: after the writes the block is a free one,
-- which is in no list.
pub release-IsLaidOut :
    (heap_listp free_listp : ℕ) (m : Mem) (lists : Lists) (bp : ℕ) (ls rs : List Block) (n : ℕ)
    → IsHeap heap_listp free_listp m lists bp (ls ++ used_block n ∷ rs)
    → IsLaidOut heap_listp free_listp
        (release (end_of bp ls) n m)
        lists
        bp
        (ls ++ free_block n ∷ rs)
        (ls ++ used_block n ∷ rs)
unfolding end_of last_used
release-IsLaidOut heap_listp free_listp m lists bp ls rs n h =
    let here = end_of bp ls in
    let b = used_block n in
    let ((a, s, f), t) = own heap_listp free_listp m lists bp ls b rs h in
    let (v, at, low2, small) = first_header m (here + n) true rs t in
    let under = low heap_listp free_listp m lists bp ls b rs h in
    let z : IsSize n = (s.0, s.2) in
    let pos : 8 ≤ here = omega (arith, under, h.aligned, h.room, h.above) in
    let next : get m (here + n - 4) < 2 ^ 32 = omega (arith, at, small) in
    let w = release_words m here n z s.1 pos next in
    record {
      tiled =
          Tiled-replace heap_listp free_listp m lists bp ls b rs h (release here n m)
            (free_block n ∷ []) refl
            ((omega (arith, w.0, a, s, bit_bound (last_used true ls)), s, λ u. w.1), tt)
            (omega (arith, w.2, at, low2, small))
            (λ p o r. get-release m here n z s.1 pos next p r);
      in_memory =
          release-IsFreeLists m here n z s.1 pos next heap_listp free_listp lists h.in_memory
            (word-Outside heap_listp free_listp m lists bp ls b rs h (here - 4) (inl refl))
            (word-Outside heap_listp free_listp m lists bp ls b rs h (here + n - 8)
              (inr (inl refl)))
            (next-Outside heap_listp free_listp m lists bp ls b rs h);
      members = h.members;
      complete = h.complete;
      room = h.room;
      heads = h.heads;
      above = h.above;
      near =
          omega
            (arith, h.near, end_of-append bp ls (b ∷ rs), end_of-append bp ls (free_block n ∷ rs));
      aligned = h.aligned;
    }
