-- ===== src/Naive/Laws.antt =====
-- What the naive allocator promises: aligned payloads inside the new part of the heap, and a size
-- that realloc reads back.
use mar_2015_dynamic_storage.Base.{ℕ, ◌+◌, ◌-◌, ◌*◌, ◌/◌, ◌%◌, ◌^◌, ◌≤◌, ◌<◌, ◌≡◌, ◌≢◌, arith}
use mar_2015_dynamic_storage.Machine.Memory.{Mem, put, get-put_self, get-put-Apart}
use mar_2015_dynamic_storage.Machine.State.{State}
use mar_2015_dynamic_storage.Memlib.{Sbrk, mem_sbrk}
use mar_2015_dynamic_storage.Memlib.Bounds.{IsValid, mem_sbrk_lem}
use mar_2015_dynamic_storage.Naive.{align, get_size, put_size, malloc}

pub get_size-put_size :
    (m : Mem) (p size : ℕ) → 8 ≤ p → size < 2 ^ 64 → get_size (put_size m p size) p ≡ size
unfolding get_size put_size
get_size-put_size m p size h k =
    let m₁ : Mem = put m (p - 8) size in
    omega (
      arith,
      get-put-Apart m₁ (p - 4) (size / 2 ^ 32) (p - 8) (omega arith),
      get-put_self m₁ (p - 4) (size / 2 ^ 32),
      get-put_self m (p - 8) size,
    )

-- When malloc does not return NULL, for a request below 2 ^ 31 - 16 bytes on a valid heap: the payload
-- starts 8 bytes above the old break and ends below the new one, which is aligned as the old one was;
-- the heap stays valid; and the size that realloc reads is the one requested.
pub malloc_lem :
    (sbrk : Sbrk) (size : ℕ) (s : State)
    → IsValid s.sys
    → size < 2 ^ 31 - 16
    → (malloc sbrk size s).0 ≢ 0
    → let (p, s') = malloc sbrk size s in
      (p ≡ s.sys.mem_brk + 8)
      × (p + size ≤ s'.sys.mem_brk)
      × (s'.sys.mem_brk % 8 ≡ s.sys.mem_brk % 8)
      × IsValid s'.sys
      × (get_size s'.mem p ≡ size)
unfolding malloc align
malloc_lem sbrk size s v h ne =
    let newsize = (((size + 8) % 2 ^ 64 + 7) % 2 ^ 64 / 8 * 8) % 2 ^ 32 in
    ground (
      arith,
      mem_sbrk_lem sbrk newsize v,
      get_size-put_size s.mem ((mem_sbrk sbrk newsize s.sys).0 + 8) size,
    )
