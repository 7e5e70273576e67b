-- ===== src/Machine/Memory.antt =====
-- Byte-addressed memory and its aligned or unaligned 32-bit words, little-endian as on x86: what
-- the macros GET and PUT of the allocators read and write.
use mar_2015_dynamic_storage.Base.{
  ℕ, ◌+◌, ◌-◌, ◌*◌, ◌/◌, ◌%◌, ◌^◌, ◌≤◌, ◌<◌, ◌≡◌, ◌⊎◌, ◌&&◌, arith, ◌==◌, ltb, leb, if◌then◌else◌,
}

-- the byte at each address
abbrev pub Mem : Type 0
Mem = ℕ → ℕ

-- `GET(p)`, `*(unsigned int *)p`
unfoldable pub get : Mem → ℕ → ℕ
get m p = m p + m (p + 1) * 2 ^ 8 + m (p + 2) * 2 ^ 16 + m (p + 3) * 2 ^ 24

-- `PUT(p, val)`: the value is converted to `unsigned int`
unfoldable pub put : Mem → ℕ → ℕ → Mem
put m p v q =
    if q == p
    then v % 2 ^ 8
    else if q == p + 1
    then v / 2 ^ 8 % 2 ^ 8
    else if q == p + 2
    then v / 2 ^ 16 % 2 ^ 8
    else if q == p + 3
    then v / 2 ^ 24 % 2 ^ 8
    else m q

-- two words that share no byte
abbrev pub Apart : ℕ → ℕ → Type 0
Apart p q = (p + 4 ≤ q) ⊎ (q + 4 ≤ p)

pub byte-put_self : (m : Mem) (p v q : ℕ) → (q < p) ⊎ (p + 4 ≤ q) → put m p v q ≡ m q
unfolding put
byte-put_self m p v q h = ground arith

put_bytes :
    (m : Mem) (p v : ℕ)
    → (put m p v p ≡ v % 2 ^ 8)
      × (put m p v (p + 1) ≡ v / 2 ^ 8 % 2 ^ 8)
      × (put m p v (p + 2) ≡ v / 2 ^ 16 % 2 ^ 8)
      × (put m p v (p + 3) ≡ v / 2 ^ 24 % 2 ^ 8)
unfolding put
put_bytes m p v = (ground arith, ground arith, ground arith, ground arith)

pub get-put_self : (m : Mem) (p v : ℕ) → get (put m p v) p ≡ v % 2 ^ 32
unfolding get
get-put_self m p v = omega (arith, put_bytes m p v)

pub get-put-Apart : (m : Mem) (p v q : ℕ) → Apart p q → get (put m p v) q ≡ get m q
unfolding get
get-put-Apart m p v q h = omega (
  arith,
  byte-put_self m p v q (omega arith),
  byte-put_self m p v (q + 1) (omega arith),
  byte-put_self m p v (q + 2) (omega arith),
  byte-put_self m p v (q + 3) (omega arith),
)

-- `memcpy(dst, src, n)` of regions that do not overlap
unfoldable pub memcpy : Mem → ℕ → ℕ → ℕ → Mem
memcpy m dst src n q = if leb dst q && ltb q (dst + n) then m (src + (q - dst)) else m q

-- `memset(dst, c, n)`
unfoldable pub memset : Mem → ℕ → ℕ → ℕ → Mem
memset m dst c n q = if leb dst q && ltb q (dst + n) then c % 2 ^ 8 else m q
