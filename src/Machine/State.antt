-- ===== src/Machine/State.antt =====
-- What an allocator's functions read and change: the memory, the statics of memlib.c, and the two
-- statics of mm.c.
use mar_2015_dynamic_storage.Base.{ℕ}
use mar_2015_dynamic_storage.Machine.Memory.{Mem}
use mar_2015_dynamic_storage.Memlib.{MemSys}

pub record State : Type 0 where
  pub mem : Mem
  pub sys : MemSys
  pub heap_listp : ℕ
  pub free_listp : ℕ
