-- ===== src/Explicit/Package.antt =====
-- The calls of the package in mm-explicit list(82:100)/mm.c: mm_init, mm_malloc, mm_free and
-- mm_realloc, and extend_heap. The first argument says how `sbrk` answers.
use mar_2015_dynamic_storage.Base.{
  ℕ, ◌+◌, ◌-◌, ◌*◌, ◌/◌, ◌%◌, ◌^◌, Bool, true, false, Option, none, some, ◌==◌, ltb, if◌then◌else◌,
}
use mar_2015_dynamic_storage.Machine.Memory.{Mem, put, memcpy, memset}
use mar_2015_dynamic_storage.Machine.State.{State}
use mar_2015_dynamic_storage.Memlib.{Sbrk, mem_sbrk, sbrk_failed}
use mar_2015_dynamic_storage.Blocks.{wsize, dsize, pack, get_size, hdrp, ftrp, next_blkp}
use mar_2015_dynamic_storage.Explicit.{coalesce, place, find_fit, adjust, chunk_words, extend_size}
use mar_2015_dynamic_storage.Seg.Fit.{null}

-- the bytes that extend_heap asks for
unfoldable pub even_bytes : ℕ → ℕ
even_bytes words = (if words % 2 == 0 then words * wsize else (words + 1) * wsize) % 2 ^ 64

-- The header, the footer and the new epilogue of a fresh block of `size` bytes at `bp`.
unfoldable pub new_block : ℕ → ℕ → Mem → Mem
new_block bp size m =
    let m₁ : Mem = put m (hdrp bp) (pack size false) in
    let m₂ : Mem = put m₁ (ftrp m₁ bp) (pack size false) in
    put m₂ (hdrp (next_blkp m₂ bp)) (pack 0 true)

-- `mem_sbrk` takes an `int`: the size is converted.
unfoldable pub extend_heap : Sbrk → ℕ → State → ℕ × State
extend_heap sbrk words s =
    let size = even_bytes words in
    let (bp, sys) = mem_sbrk sbrk (size % 2 ^ 32) s.sys in
    if bp == sbrk_failed
    then (null, record s { sys = sys })
    else (let (bp', m) = coalesce s.heap_listp s.free_listp bp (new_block bp size s.mem) in
        (bp', record s { mem = m; sys = sys }))

-- The first words of the heap at `base`; the word at `base + 2*WSIZE` is not written.
unfoldable pub init_words : ℕ → Mem → Mem
init_words base m =
    let m₁ : Mem = put m base 0 in
    let m₂ : Mem = put m₁ (base + 1 * wsize) 0 in
    let m₃ : Mem = put m₂ (base + 3 * wsize) (pack dsize true) in
    let m₄ : Mem = put m₃ (base + 4 * wsize) (pack dsize true) in
    put m₄ (base + 5 * wsize) (pack 0 true)

-- `true` is the result 0, `false` the result -1.
unfoldable pub mm_init : Sbrk → State → Bool × State
mm_init sbrk s =
    let (base, sys) = mem_sbrk sbrk (6 * wsize) s.sys in
    if base == sbrk_failed
    then (false, record s { sys = sys; heap_listp = base })
    else (let s₁ : State = record {
      mem = init_words base s.mem;
      sys = sys;
      heap_listp = base + 4 * wsize;
      free_listp = base + 1 * wsize;
    } in
        let (bp, s₂) = extend_heap sbrk chunk_words s₁ in
        if bp == null then (false, s₂) else (true, s₂))

-- `if (heap_listp == 0) mm_init();`
unfoldable pub init_if_needed : Sbrk → State → State
init_if_needed sbrk s = if s.heap_listp == 0 then (mm_init sbrk s).1 else s

-- enough rounds for a walk along blocks of the heap
abbrev pub walk_fuel : State → ℕ
walk_fuel s = s.sys.mem_brk - s.sys.heap + 1

-- mm_malloc where no free block fits
unfoldable pub malloc_extend : Sbrk → ℕ → State → ℕ × State
malloc_extend sbrk asize s =
    let (bp, s₁) = extend_heap sbrk (extend_size asize / wsize) s in
    if bp == null
    then (null, s₁)
    else (bp, record s₁ { mem = place s₁.heap_listp s₁.free_listp bp asize s₁.mem })

-- `none` is a search that does not end.
unfoldable pub mm_malloc : Sbrk → ℕ → State → Option (ℕ × State)
mm_malloc sbrk size s₀ =
    let s = init_if_needed sbrk s₀ in
    let asize = adjust size in
    if size == 0
    then some (null, s)
    else elim (find_fit s.heap_listp s.free_listp s.mem asize (walk_fuel s)) [
      | none ↦ none
      | some bp ↦
          if bp == null
          then some (malloc_extend sbrk asize s)
          else some (bp, record s { mem = place s.heap_listp s.free_listp bp asize s.mem })
    ]

-- the writes of mm_free before it coalesces
unfoldable pub release : ℕ → ℕ → Mem → Mem
release bp size m =
    let m₁ : Mem = put m (hdrp bp) (pack size false) in put m₁ (ftrp m₁ bp) (pack size false)

-- The size is read before mm_init may run.
unfoldable pub mm_free : Sbrk → ℕ → State → State
mm_free sbrk bp s₀ =
    if bp == null
    then s₀
    else (let size = get_size s₀.mem (hdrp bp) in
        let s = init_if_needed sbrk s₀ in
        record s { mem = (coalesce s.heap_listp s.free_listp bp (release bp size s.mem)).1 })

-- Copy, then free the old block.
unfoldable pub move : Sbrk → (ptr newptr size : ℕ) → State → State
move sbrk ptr newptr size s =
    let oldsize = get_size s.mem (hdrp ptr) in
    let n = if ltb size oldsize then size else oldsize in
    mm_free sbrk ptr (record s { mem = memcpy s.mem newptr ptr n })

unfoldable pub mm_realloc : Sbrk → ℕ → ℕ → State → Option (ℕ × State)
mm_realloc sbrk ptr size s =
    if size == 0
    then some (null, mm_free sbrk ptr s)
    else if ptr == null
    then mm_malloc sbrk size s
    else elim (mm_malloc sbrk size s) [
      | none ↦ none
      | some (newptr, s₁) ↦
          if newptr == null then some (null, s₁) else some (newptr, move sbrk ptr newptr size s₁)
    ]

-- It calls `malloc`, which is the C library's here, as in the other mm.c.
unfoldable pub calloc : (lib_malloc : ℕ → ℕ) → (nmemb size : ℕ) → Mem → ℕ × Mem
calloc lib_malloc nmemb size m =
    let bytes = nmemb * size % 2 ^ 64 in
    let newptr = lib_malloc bytes in (newptr, memset m newptr 0 bytes)
