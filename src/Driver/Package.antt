-- ===== src/Driver/Package.antt =====
-- The interface of mm.h, through which the driver calls an allocator, and the parts of an
-- allocator's state that the driver sees: the memory and the statics of memlib.c.
use mar_2015_dynamic_storage.Base.{ℕ, ◌≡◌, Bool, Option}
use mar_2015_dynamic_storage.Machine.Memory.{Mem}
use mar_2015_dynamic_storage.Memlib.{MemSys}

-- `none` is a call that does not return.
pub record Package : Type 1 where
  pub State : Type 0
  pub mm_init : State → Bool × State
  pub mm_malloc : ℕ → State → Option (ℕ × State)
  pub mm_free : ℕ → State → State
  pub mm_realloc : ℕ → ℕ → State → Option (ℕ × State)
  pub mem : State → Mem
  pub with_mem : Mem → State → State
  pub sys : State → MemSys
  pub with_sys : MemSys → State → State
  pub mem-with_mem : (m : Mem) (s : State) → mem (with_mem m s) ≡ m
