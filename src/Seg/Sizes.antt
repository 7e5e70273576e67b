-- ===== src/Seg/Sizes.antt =====
-- The size classes of mm-segregated list(97:100)/mm.c, and the size of the block for a request.
use mar_2015_dynamic_storage.Base.{ℕ, ◌+◌, ◌-◌, ◌*◌, ◌/◌, ◌%◌, ◌^◌, leb, if◌then◌else◌}
use mar_2015_dynamic_storage.Blocks.{wsize, dsize}

-- LIST_NUM
abbrev pub list_num : ℕ
list_num = 24

unfoldable pub list_entry : ℕ → ℕ
list_entry size =
    if leb size (2 ^ 4)
    then 0
    else if leb size 24
    then 1
    else if leb size 48
    then 2
    else if leb size (2 ^ 7)
    then 3
    else if leb size (2 ^ 8)
    then 4
    else if leb size (2 ^ 9)
    then 5
    else if leb size (2 ^ 10)
    then 6
    else if leb size (2 ^ 11)
    then 7
    else if leb size (2 ^ 12)
    then 8
    else if leb size 9200
    then 9
    else if leb size 12000
    then 10
    else if leb size 16000
    then 11
    else if leb size 20000
    then 12
    else if leb size 24000
    then 13
    else if leb size 28000
    then 14
    else if leb size 32000
    then 15
    else if leb size 40000
    then 16
    else if leb size (2 ^ 15)
    then 17
    else if leb size (2 ^ 16)
    then 18
    else list_num - 1

-- The block size for a request of `size` bytes, in `size_t` arithmetic.
unfoldable pub adjust : ℕ → ℕ
adjust size =
    if leb size dsize then 2 * dsize else dsize * ((size + wsize + (dsize - 1)) % 2 ^ 64 / dsize)

-- CHUNKSIZE is `(1<<8)-(1<<5)` with no parentheses round it. `MAX(asize,CHUNKSIZE)` puts some.
abbrev pub chunk_size : ℕ
chunk_size = 2 ^ 8 - 2 ^ 5

-- `CHUNKSIZE/WSIZE` divides only the second term.
abbrev pub chunk_words : ℕ
chunk_words = 2 ^ 8 - 2 ^ 5 / wsize

-- `MAX(asize,CHUNKSIZE)`
unfoldable pub extend_size : ℕ → ℕ
extend_size asize = if leb asize chunk_size then chunk_size else asize
