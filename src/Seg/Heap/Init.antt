-- ===== src/Seg/Heap/Init.antt =====
-- mm_init of mm-segregated list(97:100)/mm.c: the first words of the heap, and then its first block.
use mar_2015_dynamic_storage.Base.{
  ℕ, zero, suc, ◌+◌, ◌-◌, ◌*◌, ◌%◌, ◌^◌, ◌≤◌, ◌<◌, ◌≡◌, ◌⊎◌, inr, true, false, [], ◌∷◌, arith, refl,
  sym, ap, ◌∙◌, subst, ◌==◌, ltb,
}
use native.Mathlib.Decide.{ℕ_discrete}
use mar_2015_dynamic_storage.Machine.Memory.{Mem, get, put, get-put-Apart, get-put_self}
use mar_2015_dynamic_storage.Machine.State.{State}
use mar_2015_dynamic_storage.Machine.Word.{bit1}
use mar_2015_dynamic_storage.Memlib.{Sbrk, mem_sbrk, sbrk_failed}
use mar_2015_dynamic_storage.Blocks.{get_size}
use mar_2015_dynamic_storage.Seg.Fit.{null}
use mar_2015_dynamic_storage.Seg.Sizes.{chunk_words}
use mar_2015_dynamic_storage.Seg.Lists.{Lists, head}
use mar_2015_dynamic_storage.Seg.Package.{clear_lists, init_words, mm_init, extend_heap, even_bytes}
use mar_2015_dynamic_storage.Seg.Heap.{end_of, IsHeap}
use mar_2015_dynamic_storage.Seg.Heap.Around.{free_block}
use mar_2015_dynamic_storage.Seg.Heap.Freed.{join_free, join_start}
use mar_2015_dynamic_storage.Seg.Heap.Grown.{CanGrow, grown, extend_heap-heap}

abbrev pub no_block : Lists
no_block i = []

get-clear_lists_other :
    (free_listp n i : ℕ) (m : Mem) (w : ℕ)
    → (w + 4 ≤ free_listp + i * 4) ⊎ (free_listp + (i + n) * 4 ≤ w)
    → get (clear_lists free_listp n i m) w ≡ get m w
unfolding clear_lists
get-clear_lists_other free_listp zero i m w a = refl
get-clear_lists_other free_listp (suc n) i m w a =
    get-clear_lists_other free_listp n (i + 1) (put m (free_listp + i * 4) 0) w (omega (arith, a))
    ∙ get-put-Apart m (free_listp + i * 4) 0 w (omega (arith, a))

get-clear_lists :
    (free_listp n i : ℕ) (m : Mem) (j : ℕ)
    → i ≤ j
    → j < i + n
    → get (clear_lists free_listp n i m) (free_listp + 4 * j) ≡ 0
unfolding clear_lists
get-clear_lists free_listp zero i m j a b = absurd (omega arith)
get-clear_lists free_listp (suc n) i m j a b = elim (ℕ_discrete j i) [
  | yes e ↦
      get-clear_lists_other free_listp n (i + 1) (put m (free_listp + i * 4) 0) (free_listp + 4 * j)
        (omega (arith, e))
      ∙ (let at : free_listp + 4 * j ≡ free_listp + i * 4 = omega (arith, e) in
          rw at (omega (arith, get-put_self m (free_listp + i * 4) 0)))
  | no ne ↦
      get-clear_lists free_listp n (i + 1) (put m (free_listp + i * 4) 0) j (omega (arith, ne))
        (omega (arith, ne))
]

module _ (base : ℕ) (m : Mem) where
  -- the memory after the four words
  abbrev four : Mem
  four = put (put (put (put m base 0) (base + 100) 9) (base + 104) 9) (base + 108) 1

  four_words : (get_size four (base + 100) ≡ 8) × (get four (base + 108) ≡ 1)
  four_words =
      let k₁ : Mem = put m base 0 in
      let k₂ : Mem = put k₁ (base + 100) 9 in
      let k₃ : Mem = put k₂ (base + 104) 9 in
      let size : get four (base + 100) ≡ 9 =
        get-put-Apart k₃ (base + 108) 1 (base + 100) (inr (omega arith))
        ∙ get-put-Apart k₂ (base + 104) 9 (base + 100) (inr (omega arith))
        ∙ omega (arith, get-put_self k₁ (base + 100) 9) in
      (omega (arith, size), omega (arith, get-put_self k₃ (base + 108) 1))

  init_words-clear_lists : init_words base m ≡ clear_lists (base + 4) 24 0 (put four (base + 108) 3)
  unfolding init_words
  init_words-clear_lists =
      let before : base + 104 - 4 ≡ base + 100 = omega arith in
      let after : base + 104 + 8 - 4 ≡ base + 108 = omega arith in
      rw (before, four_words.0, after, four_words.1) refl

  epilogue : get (init_words base m) (base + 108) ≡ 3
  epilogue = rw init_words-clear_lists (
      get-clear_lists_other (base + 4) 24 0 (put four (base + 108) 3) (base + 108) (omega arith)
      ∙ omega (arith, get-put_self four (base + 108) 3))

  get-init_words : (w : ℕ) → base + 112 ≤ w → get (init_words base m) w ≡ get m w
  get-init_words w h = rw init_words-clear_lists (
      get-clear_lists_other (base + 4) 24 0 (put four (base + 108) 3) w (omega arith)
      ∙ get-put-Apart four (base + 108) 3 w (omega arith)
      ∙ get-put-Apart _ (base + 108) 1 w (omega arith)
      ∙ get-put-Apart _ (base + 104) 9 w (omega arith)
      ∙ get-put-Apart _ (base + 100) 9 w (omega arith)
      ∙ get-put-Apart m base 0 w (omega arith))

  init_words-IsHeap :
      base % 8 ≡ 0 → IsHeap (base + 104) (base + 4) (init_words base m) no_block (base + 112) []
  unfolding end_of
  init_words-IsHeap e = record {
    tiled = let at : base + 112 - 4 ≡ base + 108 = omega arith in rw at epilogue;
    in_memory = record {
      linked = λ i h.
          let at : head (base + 4) i ≡ base + 4 + 4 * i = omega arith in
          rw (init_words-clear_lists, at)
            (get-clear_lists (base + 4) 24 0 (put four (base + 108) 3) i (omega arith)
              (omega arith));
      clear = λ i j h h'. tt;
      spaced = λ i h. tt;
      apart = λ i j h h' n. tt;
    };
    members = λ i h. tt;
    complete = λ x s f. absurd f;
    room = omega arith;
    heads = omega arith;
    above = omega arith;
    near = omega arith;
    aligned = omega arith;
  }

-- The break stands at a multiple of 8 and can move twice, first for the words and then for the first
-- block, and the last word of that block has its second bit clear.
pub record CanInit (sbrk : Sbrk) (s : State) : Type 0 where
  pub aligned : s.sys.mem_brk % 8 ≡ 0
  pub under_limit : s.sys.mem_brk + 1104 ≤ s.sys.mem_max_addr
  pub granted : sbrk s.sys.sbrk_calls 112 ≡ true
  pub granted_again : sbrk (s.sys.sbrk_calls + 1) 992 ≡ true
  pub address : s.sys.mem_brk + 1104 < 2 ^ 64
  pub clean : bit1 (get s.mem (s.sys.mem_brk + 1100)) ≡ 0

module _ (sbrk : Sbrk) (s : State) (c : CanInit sbrk s) where
  abbrev base : ℕ
  base = s.sys.mem_brk

  -- the state before extend_heap
  abbrev first : State
  first = record {
    mem = init_words base s.mem;
    sys = grown 112 s.sys;
    heap_listp = base + 104;
    free_listp = base + 4;
  }

  chunk : even_bytes chunk_words ≡ 992
  unfolding even_bytes
  chunk = refl

  first-CanGrow : CanGrow sbrk first (base + 112) [] 992
  unfolding end_of
  first-CanGrow = record {
    at_break = refl;
    under_limit = omega (arith, c.under_limit);
    granted = c.granted_again;
    positive_int = omega arith;
    address = omega (arith, c.address);
    near = omega arith;
    clean =
        let at : base + 112 + 992 - 4 ≡ base + 1100 = omega arith in
        rw at (ap bit1 (get-init_words base s.mem (base + 1100) (omega arith)) ∙ c.clean);
  }

  mem_sbrk-words : mem_sbrk sbrk 112 s.sys ≡ (base, grown 112 s.sys)
  unfolding mem_sbrk
  mem_sbrk-words =
      let fits : ltb s.sys.mem_max_addr (base + 112) ≡ false = ground (arith, c.under_limit) in
      rw (fits, c.granted) refl

  -- the state after mm_init, with the memory `m`
  abbrev last : Mem → State
  last m = record first { mem = m; sys = grown 992 (grown 112 s.sys) }

  mm_init-last :
      (m : Mem)
      → extend_heap sbrk chunk_words first ≡ (base + 112, last m)
      → mm_init sbrk s ≡ (true, last m)
  unfolding mm_init
  mm_init-last m e =
      let mapped : (base == sbrk_failed) ≡ false = ground (arith, c.address) in
      let there : (base + 112 == null) ≡ false = ground arith in
      rw (mem_sbrk-words, mapped, e, there) refl

  abbrev Extended : ℕ → Type 0
  Extended n =
      (m : Mem) × (extend_heap sbrk chunk_words first
        ≡ (base + 112, record first { mem = m; sys = grown n (grown 112 s.sys) }))
      × ((after : Lists) × IsHeap (base + 104) (base + 4) m after (base + 112) (free_block n ∷ []))

  extended : Extended (even_bytes chunk_words)
  unfolding join_free join_start
  extended =
      extend_heap-heap sbrk first no_block (base + 112) [] (init_words-IsHeap base s.mem c.aligned)
        chunk_words (omega (arith, chunk))
        (subst (λ t. CanGrow sbrk first (base + 112) [] t) (sym chunk) first-CanGrow)

  -- If the break stands at a multiple of 8, can move by 112 and then by 992 bytes, and the word at its
  -- end has its second bit clear: mm_init succeeds, and the heap then holds one free block of 992
  -- bytes, which begins 112 bytes above the old break.
  pub mm_init-heap :
      (m : Mem) × (after : Lists) × (mm_init sbrk s ≡ (true, last m))
      × IsHeap (base + 104) (base + 4) m after (base + 112) (free_block 992 ∷ [])
  mm_init-heap =
      let (m, e, (after, g)) = subst Extended chunk extended in (m, after, mm_init-last m e, g)
