-- ===== src/Naive.antt =====
-- malloclab-handout/mm-naive.c: blocks are never freed. A block's size stands in the 8 bytes before
-- its payload. The state is that of the other allocators, without use of the statics of mm.c.
pub mod Laws
mod Tests
use mar_2015_dynamic_storage.Base.{
  ℕ, ◌+◌, ◌-◌, ◌*◌, ◌/◌, ◌%◌, ◌^◌, Bool, true, ◌==◌, leb, ltb, if◌then◌else◌,
}
use mar_2015_dynamic_storage.Machine.Memory.{Mem, get, put, memcpy, memset}
use mar_2015_dynamic_storage.Machine.State.{State}
use mar_2015_dynamic_storage.Memlib.{Sbrk, mem_sbrk}

-- `ALIGN(size)`, in `size_t` arithmetic: `(size + 7) & ~0x7`
unfoldable pub align : ℕ → ℕ
align size = (size + 7) % 2 ^ 64 / 8 * 8

-- `SIZE_T_SIZE`
abbrev pub size_t_size : ℕ
size_t_size = 8

-- `*SIZE_PTR(p)`, a `size_t`: two words, the low one first
unfoldable pub get_size : Mem → ℕ → ℕ
get_size m p = get m (p - size_t_size) + get m (p - 4) * 2 ^ 32

-- `*SIZE_PTR(p) = size`
unfoldable pub put_size : Mem → ℕ → ℕ → Mem
put_size m p size = put (put m (p - size_t_size) size) (p - 4) (size / 2 ^ 32)

unfoldable pub mm_init : State → Bool × State
mm_init s = (true, s)

-- `newsize` is an `int`: the sum is converted. The test `(long)p < 0` is for the top bit.
unfoldable pub malloc : Sbrk → ℕ → State → ℕ × State
malloc sbrk size s =
    let newsize = align ((size + size_t_size) % 2 ^ 64) % 2 ^ 32 in
    let (p, sys) = mem_sbrk sbrk newsize s.sys in
    if leb (2 ^ 63) p
    then (0, record s { sys = sys })
    else (p + size_t_size, record s { mem = put_size s.mem (p + size_t_size) size; sys = sys })

unfoldable pub free : ℕ → State → State
free ptr s = s

unfoldable pub realloc : Sbrk → ℕ → ℕ → State → ℕ × State
realloc sbrk oldptr size s =
    if size == 0
    then (0, free oldptr s)
    else if oldptr == 0
    then malloc sbrk size s
    else (let (newptr, s₁) = malloc sbrk size s in
        if newptr == 0
        then (0, s₁)
        else (let oldsize = get_size s₁.mem oldptr in
            let n = if ltb size oldsize then size else oldsize in
            (newptr, free oldptr (record s₁ { mem = memcpy s₁.mem newptr oldptr n }))))

-- The memory is cleared with no test for NULL.
unfoldable pub calloc : Sbrk → (nmemb size : ℕ) → State → ℕ × State
calloc sbrk nmemb size s =
    let bytes = nmemb * size % 2 ^ 64 in
    let (newptr, s₁) = malloc sbrk bytes s in
    (newptr, record s₁ { mem = memset s₁.mem newptr 0 bytes })
