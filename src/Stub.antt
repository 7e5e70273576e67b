-- ===== src/Stub.antt =====
-- malloclab-handout/mm.c, where students begin: every request is refused. mm_checkheap is empty.
pub mod Fails
use mar_2015_dynamic_storage.Base.{
  ℕ, ◌+◌, ◌*◌, ◌/◌, ◌%◌, ◌^◌, Bool, true, ◌&&◌, ◌==◌, leb, some, refl,
}
use mar_2015_dynamic_storage.Machine.State.{State}
use mar_2015_dynamic_storage.Memlib.{MemSys, mem_heap_lo, mem_heap_hi}
use mar_2015_dynamic_storage.Driver.Package.{Package}

-- `ALIGN(p)`, in `size_t` arithmetic: `(p + 7) & ~0x7`
unfoldable pub align : ℕ → ℕ
align p = (p + 7) % 2 ^ 64 / 8 * 8

unfoldable pub mm_init : State → Bool × State
mm_init s = (true, s)

unfoldable pub malloc : ℕ → State → ℕ × State
malloc size s = (0, s)

unfoldable pub free : ℕ → State → State
free ptr s = s

unfoldable pub realloc : ℕ → ℕ → State → ℕ × State
realloc oldptr size s = (0, s)

unfoldable pub calloc : ℕ → ℕ → State → ℕ × State
calloc nmemb size s = (0, s)

unfoldable pub in_heap : MemSys → ℕ → Bool
in_heap sys p = leb p (mem_heap_hi sys) && leb (mem_heap_lo sys) p

unfoldable pub aligned : ℕ → Bool
aligned p = align p == p

-- behind the interface of mm.h
abbrev pub refusing : Package
refusing = record {
  State = State;
  mm_init = mm_init;
  mm_malloc = λ size s. some (malloc size s);
  mm_free = free;
  mm_realloc = λ p size s. some (realloc p size s);
  mem = λ s. s.mem;
  with_mem = λ m s. record s { mem = m };
  sys = λ s. s.sys;
  with_sys = λ k s. record s { sys = k };
  mem-with_mem = λ m s. refl;
}
