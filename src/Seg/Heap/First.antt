-- ===== src/Seg/Heap/First.antt =====
-- The first request to mm_malloc of mm-segregated list(97:100)/mm.c: mm_malloc calls mm_init itself.
use mar_2015_dynamic_storage.Base.{
  ℕ, ◌+◌, ◌≤◌, ◌<◌, ◌≡◌, ◌≢◌, inl, inr, true, false, Option, none, if◌then◌else◌, List, [], ◌∷◌,
  ◌++◌, some, arith, refl, sym, ap, ◌∙◌, subst, length, length-append, ◌==◌,
}
use mar_2015_dynamic_storage.Machine.Memory.{Mem}
use mar_2015_dynamic_storage.Machine.State.{State}
use mar_2015_dynamic_storage.Memlib.{Sbrk}
use mar_2015_dynamic_storage.Seg.Sizes.{adjust}
use mar_2015_dynamic_storage.Seg.Classes.{adjust_least}
use mar_2015_dynamic_storage.Seg.Lists.{Lists}
use mar_2015_dynamic_storage.Seg.Package.{
  mm_malloc, malloc_extend, walk_fuel, mm_init, init_if_needed,
}
use mar_2015_dynamic_storage.Seg.{place}
use mar_2015_dynamic_storage.Seg.Fit.{null, find_fit}
use mar_2015_dynamic_storage.Seg.Heap.{Block, end_of, IsHeap}
use mar_2015_dynamic_storage.Seg.Heap.Around.{free_block}
use mar_2015_dynamic_storage.Seg.Heap.Allot.{allot}
use mar_2015_dynamic_storage.Seg.Heap.Malloc.{Answered, mm_malloc-heap}
use mar_2015_dynamic_storage.Seg.Heap.Grown.{grown}
use mar_2015_dynamic_storage.Seg.Heap.Init.{CanInit, mm_init-heap}

-- what mm_malloc does after the call of mm_init
after_init : Sbrk → ℕ → State → Option (ℕ × State)
after_init sbrk size s =
    let asize = adjust size in
    if size == 0
    then some (null, s)
    else elim (find_fit s.heap_listp s.mem asize (walk_fuel s) s.free_listp) [
      | none ↦ none
      | some bp ↦
          if bp == null
          then some (malloc_extend sbrk asize s)
          else some (bp, record s { mem = place s.heap_listp s.free_listp bp asize s.mem })
    ]

mm_malloc-after_init :
    (sbrk : Sbrk) (size : ℕ) (s : State)
    → mm_malloc sbrk size s ≡ after_init sbrk size (init_if_needed sbrk s)
unfolding mm_malloc after_init
mm_malloc-after_init sbrk size s = refl

-- A package that is not initialised behaves like one that mm_init has left.
mm_malloc-mm_init :
    (sbrk : Sbrk) (size : ℕ) (s t : State)
    → s.heap_listp ≡ 0
    → mm_init sbrk s ≡ (true, t)
    → t.heap_listp ≢ 0
    → mm_malloc sbrk size s ≡ mm_malloc sbrk size t
unfolding init_if_needed
mm_malloc-mm_init sbrk size s t z e ne =
    let unset : (s.heap_listp == 0) ≡ true = ground (arith, z) in
    let set : (t.heap_listp == 0) ≡ false = ground (arith, ne) in
    let same : init_if_needed sbrk s ≡ init_if_needed sbrk t = rw (unset, set) (ap (λ r. r.1) e) in
    mm_malloc-after_init sbrk size s
    ∙ ap (after_init sbrk size) same
    ∙ sym (mm_malloc-after_init sbrk size t)

-- the size of the first block and the blocks behind it
first_size : List Block → ℕ
first_size [] = 0
first_size (b ∷ bs) = b.size

behind : List Block → List Block
behind [] = []
behind (b ∷ bs) = bs

-- A request that the only block answers.
only_block :
    (sbrk : Sbrk) (size : ℕ) (t : State) (bp n : ℕ) (ls rs : List Block) (k : ℕ)
    → Answered sbrk size t bp (free_block n ∷ []) ls rs k
    → (m : Mem) × (after : Lists) × (mm_malloc sbrk size t ≡ some (bp, record t { mem = m }))
      × IsHeap t.heap_listp t.free_listp m after bp (allot (adjust size) n ++ [])
unfolding end_of first_size behind
only_block sbrk size t bp n [] rs k (e, fit, (m, at, r, (after, h))) = (
  m,
  after,
  r,
  subst (λ u. IsHeap t.heap_listp t.free_listp m after bp (allot (adjust size) u ++ []))
      (sym (ap first_size e))
      (subst (λ u. IsHeap t.heap_listp t.free_listp m after bp (allot (adjust size) k ++ u))
        (sym (ap behind e)) h),
)
only_block sbrk size t bp n (b ∷ ls) rs k (e, fit, a) =
    absurd (omega (arith, ap length e, length-append ls (free_block k ∷ rs)))

-- If the package is not initialised, the break stands at a multiple of 8 above the start of the
-- simulated heap, can move by 112 and then by 992 bytes, the word at its end has its second bit
-- clear, and a request has 1 to 988 bytes: mm_malloc ends and returns the first block, which begins
-- 112 bytes above the old break, and the heap then holds that block's parts.
pub mm_malloc-first :
    (sbrk : Sbrk) (size : ℕ) (s : State)
    → CanInit sbrk s
    → s.heap_listp ≡ 0
    → s.sys.heap ≤ s.sys.mem_brk
    → 0 < size
    → size ≤ 988
    → (t : State) × (after : Lists) × (mm_malloc sbrk size s ≡ some (s.sys.mem_brk + 112, t))
      × (t.sys ≡ grown 992 (grown 112 s.sys))
      × IsHeap
          (s.sys.mem_brk + 104)
          (s.sys.mem_brk + 4)
          t.mem
          after
          (s.sys.mem_brk + 112)
          (allot (adjust size) 992 ++ [])
unfolding end_of
mm_malloc-first sbrk size s c z start some_bytes few =
    let (m, lists, e, h) = mm_init-heap sbrk s c in
    let t : State = record {
      mem = m;
      sys = grown 992 (grown 112 s.sys);
      heap_listp = s.sys.mem_brk + 104;
      free_listp = s.sys.mem_brk + 4;
    } in
    let bp = s.sys.mem_brk + 112 in
    let same = mm_malloc-mm_init sbrk size s t z e (omega arith) in
    let fits = (adjust_least size (omega arith)).3 992 (omega arith) (omega arith) (omega arith) in
    elim (mm_malloc-heap sbrk size t lists bp (free_block 992 ∷ []) h some_bytes (omega arith)
      (omega arith) (omega arith)) [
        | inl (full, r) ↦ absurd (omega (arith, full bp 992 (inl (refl, refl, refl)), fits))
        | inr (ls, rs, k, a) ↦
            let (m', after, r, g) = only_block sbrk size t bp 992 ls rs k a in
            (record t { mem = m' }, after, same ∙ r, refl, g)
      ]
