-- ===== src/Blocks.antt =====
-- The macros of the two mm.c files that read and write block headers, footers and links. Addresses
-- are numbers; `-` is only used above the start of the heap, where it does not stop at 0.
use mar_2015_dynamic_storage.Base.{ℕ, ◌+◌, ◌-◌, ◌^◌, Bool, ◌==◌, if◌then◌else◌}
use mar_2015_dynamic_storage.Machine.Memory.{Mem, get, put}
use mar_2015_dynamic_storage.Machine.Word.{clear_low3, bit0, bit1, set_bit0, set_bit1, clear_bit1}

abbrev pub wsize : ℕ
wsize = 4

abbrev pub dsize : ℕ
dsize = 8

-- `PACK(size, alloc)`, which the code calls with 0 or 1 for `alloc`
abbrev pub pack : ℕ → Bool → ℕ
pack size alloc = if alloc then set_bit0 size else size

abbrev pub get_size : Mem → ℕ → ℕ
get_size m p = clear_low3 (get m p)

abbrev pub get_alloc : Mem → ℕ → ℕ
get_alloc m p = bit0 (get m p)

abbrev pub hdrp : ℕ → ℕ
hdrp bp = bp - wsize

abbrev pub ftrp : Mem → ℕ → ℕ
ftrp m bp = bp + get_size m (hdrp bp) - dsize

abbrev pub next_blkp : Mem → ℕ → ℕ
next_blkp m bp = bp + get_size m (bp - wsize)

abbrev pub prev_blkp : Mem → ℕ → ℕ
prev_blkp m bp = bp - get_size m (bp - dsize)

-- `PUT_HD(p, val)`: the second bit stays as it was
abbrev pub put_hd : ℕ → ℕ → Mem → Mem
put_hd p v m = put m p (if bit1 (get m p) == 0 then v else set_bit1 v)

-- `PTR_OFF(p, ptr)`: the offset of `ptr` from `heap_listp`, as an `unsigned int`
abbrev pub ptr_off : ℕ → ℕ → ℕ → Mem → Mem
ptr_off heap_listp p ptr m = put m p (ptr + 2 ^ 64 - heap_listp)

-- `OFF_PTR(p)`
abbrev pub off_ptr : ℕ → Mem → ℕ → ℕ
off_ptr heap_listp m p = get m p + heap_listp

-- `PREV_ALLOC(bp)`
abbrev pub prev_alloc : ℕ → Mem → Mem
prev_alloc bp m = put m (hdrp (next_blkp m bp)) (set_bit1 (get m (hdrp (next_blkp m bp))))

-- `PREV_UNALLOC(bp)`
abbrev pub prev_unalloc : ℕ → Mem → Mem
prev_unalloc bp m = put m (hdrp (next_blkp m bp)) (clear_bit1 (get m (hdrp (next_blkp m bp))))

-- `GET_PREV_ALLOC(bp)`
abbrev pub get_prev_alloc : Mem → ℕ → ℕ
get_prev_alloc m bp = bit1 (get m (hdrp bp))
