-- ===== src/Timing/Cache.antt =====
-- Clearing the cache in malloclab-handout/fcyc.c: the buffer is read in steps of a cache block. What malloc returns for
-- the buffer is a parameter.
use mar_2015_dynamic_storage.Base.{
  ℕ, zero, suc, ◌+◌, ◌*◌, ◌/◌, ◌%◌, ◌^◌, ◌<◌, ◌≡◌, Option, none, some, ◌==◌, ltb, if◌then◌else◌,
  arith, refl, inl, inr, Bool-cases,
}
use mar_2015_dynamic_storage.Machine.Memory.{Mem, get}
use mar_2015_dynamic_storage.Driver.Result.{Result, done, app_error, hanging}

-- the statics for it; `sink` is the bit pattern of an `int`
pub record Cache : Type 0 where
  pub cache_bytes : ℕ
  pub cache_block : ℕ
  pub cache_buf : Option ℕ
  pub sink : ℕ

-- A buffer of another size is freed.
unfoldable pub set_fcyc_cache_size : ℕ → Cache → Cache
set_fcyc_cache_size bytes c =
    if bytes == c.cache_bytes then c else record c { cache_bytes = bytes; cache_buf = none }

unfoldable pub set_fcyc_cache_block : ℕ → Cache → Cache
set_fcyc_cache_block bytes c = record c { cache_block = bytes }

-- The `while` loop on fuel, at the `i`-th `int` of `count`; `none` is a loop that has not ended.
unfoldable pub clear_loop : Mem → (buf count incr fuel i x : ℕ) → Option ℕ
clear_loop m buf count incr zero i x = none
clear_loop m buf count incr (suc n) i x =
    let rest = clear_loop m buf count incr n (i + incr) ((x + get m (buf + 4 * i)) % 2 ^ 32) in
    if ltb i count then rest else some x

unfoldable pub clear_buf : Mem → (fuel buf : ℕ) → Cache → Result Cache
clear_buf m fuel buf c =
    elim (clear_loop m buf (c.cache_bytes / 4) (c.cache_block / 4) fuel 0 c.sink) [
      | none ↦ hanging
      | some x ↦ done (record c { cache_buf = some buf; sink = x })
    ]

-- The program ends where malloc returns NULL.
unfoldable pub clear : (malloced : ℕ) → Mem → (fuel : ℕ) → Cache → Result Cache
clear malloced m fuel c = elim c.cache_buf [
  | some buf ↦ clear_buf m fuel buf c
  | none ↦ if malloced == 0 then app_error else clear_buf m fuel malloced c
]

-- With a step of an `int` or more, one round more than there are `int`s is enough.
pub clear_loop-ends :
    (m : Mem) (buf count incr fuel i x : ℕ)
    → 0 < incr
    → 0 < fuel
    → count < fuel + i
    → (y : ℕ) × (clear_loop m buf count incr fuel i x ≡ some y)
unfolding clear_loop
clear_loop-ends m buf count incr zero i x p f h = absurd (omega arith)
clear_loop-ends m buf count incr (suc n) i x p f h = elim (Bool-cases (ltb i count)) [
  | inl e ↦
      let below : i < count = ground (arith, e) in
      let (y, g) =
        clear_loop-ends m buf count incr n (i + incr) ((x + get m (buf + 4 * i)) % 2 ^ 32) p
          (omega arith) (omega arith) in
      (y, rw (e, g) refl)
  | inr e ↦ (x, rw e refl)
]
