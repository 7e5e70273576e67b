-- ===== src/Seg/Heap/Sequence.antt =====
-- Calls of the package of mm-segregated list(97:100)/mm.c in sequence, and the writes of the program between them.
pub mod Keeps
use mar_2015_dynamic_storage.Base.{
  ℕ, ◌+◌, ◌-◌, ◌/◌, ◌%◌, ◌^◌, ◌≤◌, ◌<◌, ◌≡◌, ◌⊎◌, Bool, true, List, ◌∷◌, ◌++◌, some,
}
use mar_2015_dynamic_storage.Machine.Memory.{Mem, get}
use mar_2015_dynamic_storage.Machine.State.{State}
use mar_2015_dynamic_storage.Machine.Word.{bit1}
use mar_2015_dynamic_storage.Memlib.{Sbrk}
use mar_2015_dynamic_storage.Seg.Sizes.{adjust, extend_size}
use mar_2015_dynamic_storage.Seg.Lists.{Lists}
use mar_2015_dynamic_storage.Seg.Package.{mm_init, mm_malloc, mm_free, mm_realloc, even_bytes}
use mar_2015_dynamic_storage.Seg.Heap.{Block, end_of, IsHeap}
use mar_2015_dynamic_storage.Seg.Heap.Around.{used_block}
use mar_2015_dynamic_storage.Seg.Heap.Coalesce.{first_used}
use mar_2015_dynamic_storage.Seg.Heap.Init.{CanInit}
use mar_2015_dynamic_storage.Seg.Heap.Refused.{IsRefused}

-- The heap holds the blocks `bs` from `bp` on up to the break.
pub record Holds (bp : ℕ) (s : State) (lists : Lists) (bs : List Block) : Type 0 where
  pub heap : IsHeap s.heap_listp s.free_listp s.mem lists bp bs
  pub start : s.sys.heap ≤ bp
  pub at_break : end_of bp bs ≡ s.sys.mem_brk

-- A used block of `n` bytes at `ptr`; `next` says that the block behind it is used.
pub record IsLive (bp : ℕ) (s : State) (ptr n : ℕ) (next : Bool) : Type 0 where
  pub lists : Lists
  pub ls : List Block
  pub rs : List Block
  pub holds : Holds bp s lists (ls ++ used_block n ∷ rs)
  pub place : ptr ≡ end_of bp ls
  pub follows : first_used rs ≡ next

-- The break can move by `n` bytes, in the reach of the offsets, and the last word has its second bit clear.
pub record Grants (sbrk : Sbrk) (s : State) (n : ℕ) : Type 0 where
  pub under_limit : s.sys.mem_brk + n ≤ s.sys.mem_max_addr
  pub granted : sbrk s.sys.sbrk_calls n ≡ true
  pub positive_int : n < 2 ^ 31
  pub address : s.sys.mem_brk + n < 2 ^ 64
  pub near : s.sys.mem_brk + n < s.heap_listp + 2 ^ 32
  pub clean : bit1 (get s.mem (s.sys.mem_brk + n - 4)) ≡ 0

-- the bytes that a request for `size` bytes asks of the system if no free block fits
abbrev pub asked : ℕ → ℕ
asked size = even_bytes (extend_size (adjust size) / 4)

-- The states that calls and writes lead to, from mm_init on.
pub data Reachable (sbrk : Sbrk) (bp : ℕ) : State → Type 0 where
  initialised :
      (s t : State)
      → CanInit sbrk s
      → s.sys.heap ≤ s.sys.mem_brk
      → bp ≡ s.sys.mem_brk + 112
      → mm_init sbrk s ≡ (true, t)
      → Reachable sbrk bp t
  requested :
      (s t : State) (size q : ℕ)
      → Reachable sbrk bp s
      → 0 < size
      → size + 11 < 2 ^ 64
      → Grants sbrk s (asked size) ⊎ IsRefused sbrk (asked size % 2 ^ 32) s.sys
      → mm_malloc sbrk size s ≡ some (q, t)
      → Reachable sbrk bp t
  released :
      (s : State) (ptr n : ℕ)
      → Reachable sbrk bp s
      → IsLive bp s ptr n true
      → Reachable sbrk bp (mm_free sbrk ptr s)
  written :
      (s : State) (ptr n : ℕ) (next : Bool) (k : Mem)
      → Reachable sbrk bp s
      → IsLive bp s ptr n next
      → ((w : ℕ) → (w + 4 ≤ ptr) ⊎ (ptr + n ≤ w + 4) → get k w ≡ get s.mem w)
      → Reachable sbrk bp (record s { mem = k })
  moved :
      (s t : State) (ptr n size q : ℕ)
      → Reachable sbrk bp s
      → IsLive bp s ptr n true
      → 0 < size
      → size + 11 < 2 ^ 64
      → Grants sbrk s (asked size)
      → mm_realloc sbrk ptr size s ≡ some (q, t)
      → Reachable sbrk bp t
