-- ===== src/Machine/Word.antt =====
-- The bit fields of a 32-bit word, by quotients and remainders.
use mar_2015_dynamic_storage.Base.{ℕ, ◌+◌, ◌-◌, ◌*◌, ◌/◌, ◌%◌, ◌^◌, Bool, ltb, if◌then◌else◌}

-- `w & ~0x7`
abbrev pub clear_low3 : ℕ → ℕ
clear_low3 w = w / 8 * 8

-- `w & 0x1`
abbrev pub bit0 : ℕ → ℕ
bit0 w = w % 2

-- `w & 0x2`
abbrev pub bit1 : ℕ → ℕ
bit1 w = w / 2 % 2 * 2

-- `w | 0x1`
abbrev pub set_bit0 : ℕ → ℕ
set_bit0 w = w / 2 * 2 + 1

-- `w | 0x2`
abbrev pub set_bit1 : ℕ → ℕ
set_bit1 w = w / 4 * 4 + 2 + w % 2

-- `w & ~0x2`
abbrev pub clear_bit1 : ℕ → ℕ
clear_bit1 w = w / 4 * 4 + w % 2

-- an `int` from a `size_t`: its low 32 bits
abbrev pub to_int : ℕ → ℕ
to_int n = n % 2 ^ 32

-- a `size_t` from an `int`: the sign is extended
abbrev pub to_size_t : ℕ → ℕ
to_size_t k = if ltb k (2 ^ 31) then k else k + (2 ^ 64 - 2 ^ 32)

-- `<` on the bit patterns of two `int`s
abbrev pub lt_int : ℕ → ℕ → Bool
lt_int a b = ltb ((a + 2 ^ 31) % 2 ^ 32) ((b + 2 ^ 31) % 2 ^ 32)
