-- ===== src/Seg/Heap.antt =====
-- The whole heap of mm-segregated list(97:100)/mm.c as a sequence of blocks, each used or free: what
-- stands in the headers and footers, and which blocks the free lists hold.
pub mod Allot
pub mod Around
pub mod Coalesce
pub mod Extend
pub mod Find
pub mod First
pub mod Free
pub mod Freed
pub mod Grown
pub mod Init
pub mod Kept
pub mod Malloc
pub mod Place
pub mod Realloc
pub mod Refused
pub mod Release
pub mod Sequence
pub mod Served
pub mod Used
pub mod Words
use mar_2015_dynamic_storage.Base.{
  ℕ, zero, suc, ◌+◌, ◌-◌, ◌*◌, ◌%◌, ◌^◌, ◌≤◌, ◌<◌, ◌≡◌, ◌⊎◌, Bool, true, false, List, [], ◌∷◌, ◌++◌,
  All,
}
use mar_2015_dynamic_storage.Machine.Memory.{Mem, get}
use mar_2015_dynamic_storage.Seg.Sizes.{list_entry}
use mar_2015_dynamic_storage.Seg.Lists.{Lists, IsFreeLists}
use mar_2015_dynamic_storage.Seg.Search.{Has}

pub record Block : Type 0 where
  pub size : ℕ
  pub used : Bool

abbrev pub bit : Bool → ℕ
bit true = 1
bit false = 0

-- a multiple of 8 from 16 on that fits a word
abbrev pub IsBlockSize : ℕ → Type 0
IsBlockSize n = (n % 8 ≡ 0) × (16 ≤ n) × (n < 2 ^ 32)

-- where the blocks `bs` end that begin at `bp`
unfoldable pub end_of : ℕ → List Block → ℕ
end_of bp [] = bp
end_of bp (b ∷ bs) = end_of (bp + b.size) bs

-- The state of the last block, or that of the block before them.
unfoldable pub last_used : Bool → List Block → Bool
last_used p [] = p
last_used p (b ∷ bs) = last_used b.used bs

-- The block at `bp`, after a block that is used if `p` is set: its header has the size and both bits,
-- and a free block has its footer.
abbrev pub InPlace : Mem → (bp : ℕ) → (p : Bool) → Block → Type 0
InPlace m bp p b =
    (get m (bp - 4) ≡ b.size + bit b.used + 2 * bit p)
    × IsBlockSize b.size
    × (b.used ≡ false → get m (bp + b.size - 8) ≡ b.size)

-- Blocks side by side from `bp` on.
abbrev pub Row : Mem → (bp : ℕ) → (p : Bool) → List Block → Type 0
Row m bp p [] = Unit
Row m bp p (b ∷ bs) = InPlace m bp p b × Row m (bp + b.size) b.used bs

-- The blocks `bs` from `bp` on, and then the epilogue.
abbrev pub Tiled : Mem → (bp : ℕ) → (p : Bool) → List Block → Type 0
Tiled m bp p [] = get m (bp - 4) ≡ 1 + 2 * bit p
Tiled m bp p (b ∷ bs) = InPlace m bp p b × Tiled m (bp + b.size) b.used bs

-- Among the blocks from `bp` on there is a free one of `s` bytes at `x`.
abbrev pub FreeAt : (bp : ℕ) → List Block → (x s : ℕ) → Type 0
FreeAt bp [] x s = ⊥
FreeAt bp (b ∷ bs) x s = ((x ≡ bp) × (s ≡ b.size) × (b.used ≡ false)) ⊎ FreeAt (bp + b.size) bs x s

-- a listed block is a free one of the list's class
abbrev pub IsMember : (bp : ℕ) → List Block → (i x : ℕ) → Type 0
IsMember bp bs i x = (s : ℕ) × FreeAt bp bs x s × (list_entry s ≡ i)

-- The blocks `tiles` tile the heap from the block at `bp` on, and the lists hold exactly the free blocks
-- of `bs`, each in the list of its size.
pub record IsLaidOut (heap_listp free_listp : ℕ) (m : Mem) (lists : Lists) (bp : ℕ)
    (tiles bs : List Block) : Type 0 where
  pub tiled : Tiled m bp true tiles
  pub in_memory : IsFreeLists heap_listp free_listp m lists
  pub members : (i : ℕ) → i < 24 → All (IsMember bp bs i) (lists i)
  pub complete : (x s : ℕ) → FreeAt bp bs x s → Has x (lists (list_entry s))
  pub room : 4 ≤ heap_listp
  pub heads : free_listp + 96 ≤ bp - 4
  pub above : heap_listp < bp
  pub near : end_of bp tiles < heap_listp + 2 ^ 32
  pub aligned : bp % 8 ≡ 0

-- The heap from the block at `bp` on holds the blocks `bs`, and exactly the free ones are listed.
abbrev pub IsHeap : (heap_listp free_listp : ℕ) → Mem → Lists → (bp : ℕ) → List Block → Type 0
IsHeap heap_listp free_listp m lists bp bs = IsLaidOut heap_listp free_listp m lists bp bs bs
