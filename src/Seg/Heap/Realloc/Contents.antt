-- ===== src/Seg/Heap/Realloc/Contents.antt =====
-- mm_realloc of a used block to some bytes: the heap and the payloads after it.
use mar_2015_dynamic_storage.Base.{
  ℕ, ◌+◌, ◌/◌, ◌^◌, ◌≤◌, ◌<◌, ◌≡◌, inl, true, false, List, ◌∷◌, ◌++◌, some, arith, refl, sym, ap,
  ◌∙◌, subst, ◌==◌, ltb, if◌then◌else◌,
}
use mar_2015_dynamic_storage.Machine.Memory.{Mem, get, memcpy}
use mar_2015_dynamic_storage.Machine.State.{State}
use mar_2015_dynamic_storage.Memlib.{Sbrk}
use mar_2015_dynamic_storage.Blocks.{get_size, hdrp}
use mar_2015_dynamic_storage.Seg.Fit.{null}
use mar_2015_dynamic_storage.Seg.Sizes.{adjust, extend_size}
use mar_2015_dynamic_storage.Seg.Classes.{adjust_least}
use mar_2015_dynamic_storage.Seg.Lists.{Lists}
use mar_2015_dynamic_storage.Seg.Package.{mm_free, mm_realloc, move, even_bytes}
use mar_2015_dynamic_storage.Seg.Heap.{Block, end_of, last_used, IsHeap}
use mar_2015_dynamic_storage.Seg.Heap.Words.{le-end_of, bit_bound}
use mar_2015_dynamic_storage.Seg.Heap.Around.{free_block, used_block, own}
use mar_2015_dynamic_storage.Seg.Heap.Coalesce.{first_used}
use mar_2015_dynamic_storage.Seg.Heap.Freed.{join_free, mm_free-heap}
use mar_2015_dynamic_storage.Seg.Heap.Grown.{CanGrow}
use mar_2015_dynamic_storage.Seg.Heap.Used.{InPayload, InPayload-right, InPayload-used}
use mar_2015_dynamic_storage.Seg.Heap.Kept.{InPayload-join_free}
use mar_2015_dynamic_storage.Seg.Heap.Kept.Requests.{mm_free-payload, mm_malloc-payload}
use mar_2015_dynamic_storage.Seg.Heap.Realloc.Rows.{end_of-join_free}
use mar_2015_dynamic_storage.Seg.Heap.Words.{end_of-append}
use mar_2015_dynamic_storage.Seg.Heap.Realloc.Copied.{get-memcpy, get-memcpy_outside, IsHeap-copied}
use mar_2015_dynamic_storage.Seg.Heap.Realloc.Fresh.{Fresh, mm_malloc-fresh}

-- The bytes that are copied: the request, or all of the old block if that is smaller.
abbrev copied : (size n : ℕ) → ℕ
copied size n = if ltb size n then size else n

copied-lem :
    (size n : ℕ)
    → (copied size n ≤ size)
      × (copied size n ≤ n)
      × ((i : ℕ) → i ≤ size → i ≤ n → i ≤ copied size n)
copied-lem size n = (ground arith, ground arith, λ i a b. ground arith)

module _ (sbrk : Sbrk) (size : ℕ) (s : State) (bp : ℕ) (ls rs : List Block) (n : ℕ)
    (f : Fresh sbrk size s bp ls rs n) where
  -- the state in which the old block is freed
  abbrev copy_state : State
  copy_state = record f.state {
    mem = memcpy f.state.mem f.newptr (end_of bp f.ls') (copied size n);
  }

  copy_heap :
      IsHeap f.state.heap_listp f.state.free_listp copy_state.mem f.lists bp
        (f.ls' ++ used_block n ∷ f.rs')
  copy_heap =
      let on_row = λ (m : Mem) (row : List Block).
        IsHeap f.state.heap_listp f.state.free_listp m f.lists bp row in
      subst (on_row copy_state.mem) (sym f.row) (
        IsHeap-copied f.state.heap_listp f.state.free_listp f.state.mem f.lists bp f.front f.rest
          f.csize (subst (on_row f.state.mem) f.row f.heap) copy_state.mem
          (λ w o.
            get-memcpy_outside f.state.mem f.newptr (end_of bp f.ls') (copied size n) w
              (omega (arith, o, f.at, f.large, copied-lem size n))))

  mm_realloc-copied :
      0 < size
      → mm_realloc sbrk (end_of bp ls) size s
        ≡ some (f.newptr, mm_free sbrk (end_of bp f.ls') copy_state)
  unfolding mm_realloc move
  mm_realloc-copied some_bytes =
      let asked : (size == 0) ≡ false = ground arith in
      let old : (end_of bp ls == null) ≡ false =
        ground (arith, f.heap.above, f.place, le-end_of bp f.ls') in
      let new : (f.newptr == null) ≡ false =
        ground (arith, f.heap.above, f.at, le-end_of bp f.front) in
      let ((a, z, g), t) =
        own f.state.heap_listp f.state.free_listp f.state.mem f.lists bp f.ls' (used_block n) f.rs'
          f.heap in
      let oldsize : get_size f.state.mem (hdrp (end_of bp f.ls')) ≡ n =
        omega (arith, a, z, bit_bound (last_used true f.ls')) in
      rw (asked, old, f.answer, new, ← f.place, oldsize) refl

-- The heap after a reallocation to `size` bytes of the block of `n` bytes between `ls` and `rs`.
pub record Reallocated (sbrk : Sbrk) (size : ℕ) (s : State) (bp : ℕ) (ls rs : List Block) (n : ℕ)
    : Type 0 where
  pub newptr : ℕ
  pub state : State
  pub lists : Lists
  pub row : List Block
  pub answer : mm_realloc sbrk (end_of bp ls) size s ≡ some (newptr, state)
  pub heap : IsHeap state.heap_listp state.free_listp state.mem lists bp row
  pub start : state.sys.heap ≤ bp
  pub at_break : end_of bp row ≡ state.sys.mem_brk
  pub payload : (i : ℕ) → i + 8 ≤ adjust size → InPayload bp row (newptr + i)
  pub contents :
      (i : ℕ) → i + 4 ≤ size → i + 8 ≤ n → get state.mem (newptr + i) ≡ get s.mem (end_of bp ls + i)
  pub others :
      (w : ℕ)
      → InPayload bp (ls ++ free_block n ∷ rs) w
      → InPayload bp row w × (get state.mem w ≡ get s.mem w)

module _ (sbrk : Sbrk) (size : ℕ) (s : State) (lists : Lists) (bp : ℕ) (ls rs : List Block) (n : ℕ)
    (h : IsHeap s.heap_listp s.free_listp s.mem lists bp (ls ++ used_block n ∷ rs))
    (u : first_used rs ≡ true) (some_bytes : 0 < size) (no_wrap : size + 11 < 2 ^ 64)
    (start : s.sys.heap ≤ bp)
    (c : CanGrow sbrk s bp
      (ls ++ used_block n ∷ rs)
      (even_bytes (extend_size (adjust size) / 4))) where
  abbrev f : Fresh sbrk size s bp ls rs n
  f = mm_malloc-fresh sbrk size s lists bp ls rs n h u some_bytes no_wrap start c

  abbrev copy : State
  copy = copy_state sbrk size s bp ls rs n f

  copied_heap :
      IsHeap copy.heap_listp copy.free_listp copy.mem f.lists bp (f.ls' ++ used_block n ∷ f.rs')
  copied_heap = copy_heap sbrk size s bp ls rs n f

  -- no word of a used payload changes when the request is answered
  answered_same :
      (w : ℕ) → InPayload bp (ls ++ used_block n ∷ rs) w → get f.state.mem w ≡ get s.mem w
  answered_same w v =
      mm_malloc-payload sbrk s lists bp (ls ++ used_block n ∷ rs) h size some_bytes no_wrap start c
        f.newptr f.state f.answer w v

  freed_same :
      (w : ℕ)
      → InPayload bp (f.ls' ++ free_block n ∷ f.rs') w
      → get (mm_free sbrk (end_of bp f.ls') copy).mem w ≡ get copy.mem w
  freed_same w v = mm_free-payload sbrk copy f.lists bp f.ls' f.rs' n copied_heap f.next w v

  new_contents :
      (i : ℕ)
      → i + 4 ≤ size
      → i + 8 ≤ n
      → get (mm_free sbrk (end_of bp f.ls') copy).mem (f.newptr + i) ≡ get s.mem (end_of bp ls + i)
  new_contents i r q =
      freed_same (f.newptr + i) (f.payload i (omega (arith, r, adjust_least size no_wrap)))
      ∙ get-memcpy f.state.mem f.newptr (end_of bp f.ls') (copied size n) i
          ((copied-lem size n).2 (i + 4) r (omega arith))
      ∙ ap (λ t. get f.state.mem (t + i)) f.place
      ∙ answered_same (end_of bp ls + i) (
          InPayload-right bp ls (used_block n ∷ rs) (end_of bp ls + i)
            (inl (refl, omega arith, omega arith)))

  other_contents :
      (w : ℕ)
      → InPayload bp (ls ++ free_block n ∷ rs) w
      → get (mm_free sbrk (end_of bp f.ls') copy).mem w ≡ get s.mem w
  other_contents w v =
      let there = InPayload-used bp ls n (used_block n) rs w refl v in
      freed_same w (f.kept w v)
      ∙ get-memcpy_outside f.state.mem f.newptr (end_of bp f.ls') (copied size n) w
          (omega (arith, f.apart w there, copied-lem size n))
      ∙ answered_same w there

  -- If a heap holds the blocks `ls`, a used block of `n` bytes and `rs`, no free block follows that
  -- block, the blocks begin not below the start of the simulated heap, a request of `size` bytes is
  -- not empty and does not wrap, the break stands where the blocks end, the system grants what the
  -- heap would be extended by and the limit of the heap allows it, it is below 2 ^ 31 bytes and in
  -- reach of 64-bit addresses and of the offsets, and the last word of those bytes has its second bit
  -- clear (as fresh memory has; memory used before mem_reset_brk may not): mm_realloc of the block
  -- ends and returns a payload, not NULL. The blocks again tile the heap, exactly the free ones
  -- listed; the new payload, of the adjusted size less the header, lies in a used block, and the
  -- words of the request in it are those of the old payload as far as that reaches; every word in the
  -- payload of another used block is as before, and still in the payload of one.
  pub mm_realloc-Reallocated : Reallocated sbrk size s bp ls rs n
  unfolding end_of
  mm_realloc-Reallocated =
      let (m, e, (after, g)) = mm_free-heap sbrk copy f.lists bp f.ls' f.rs' n copied_heap f.next in
      let free = ap (λ (t : State). t.mem) e in
      record {
        newptr = f.newptr;
        state = mm_free sbrk (end_of bp f.ls') copy;
        lists = after;
        row = join_free f.ls' n f.rs';
        answer = mm_realloc-copied sbrk size s bp ls rs n f some_bytes;
        heap = rw e g;
        start = rw e f.start;
        at_break =
            end_of-join_free bp f.ls' n f.rs'
            ∙ sym (end_of-append bp f.ls' (used_block n ∷ f.rs'))
            ∙ f.at_break
            ∙ ap (λ (t : State). t.sys.mem_brk) (sym e);
        payload = λ i r. InPayload-join_free bp f.ls' n f.rs' (f.newptr + i) (f.payload i r);
        contents = new_contents;
        others = λ w v. (InPayload-join_free bp f.ls' n f.rs' w (f.kept w v), other_contents w v);
      }
