-- ===== src/Machine.antt =====
-- The machine of the C code: bytes at 64-bit addresses, words and their bit fields, and the state of
-- an allocator: the memory, the statics of memlib.c and those of mm.c.
pub mod Doubles
pub mod Memory
pub mod State
pub mod Word
