-- ===== src/Seg/Classes.antt =====
-- The size classes and the adjusted sizes of the segregated allocator.
use mar_2015_dynamic_storage.Base.{ℕ, ◌+◌, ◌%◌, ◌^◌, ◌/◌, ◌≤◌, ◌<◌, ◌≡◌, ◌⊎◌, arith}
use mar_2015_dynamic_storage.Seg.Sizes.{list_entry, adjust, extend_size}
use mar_2015_dynamic_storage.Seg.Package.{even_bytes}

pub list_entry-lt : (size : ℕ) → list_entry size < 24
unfolding list_entry
list_entry-lt size = ground arith

-- A larger block falls into the same class or a later one.
pub list_entry_mono : (s t : ℕ) → s ≤ t → list_entry s ≤ list_entry t
unfolding list_entry
list_entry_mono s t h = ground arith

-- Every size falls into one of 19 of the 24 lists: those numbered 17 and 19 to 22 are never used.
pub list_entry_used :
    (size : ℕ) → (list_entry size ≤ 16) ⊎ (list_entry size ≡ 18) ⊎ (list_entry size ≡ 23)
unfolding list_entry
list_entry_used size = ground arith

-- Unless the addition wraps, the adjusted size is the least multiple of 8 from 16 on that holds the
-- request and a header.
pub adjust_least :
    (size : ℕ)
    → size + 11 < 2 ^ 64
    → (adjust size % 8 ≡ 0)
      × (16 ≤ adjust size)
      × (size + 4 ≤ adjust size)
      × ((n : ℕ) → n % 8 ≡ 0 → 16 ≤ n → size + 4 ≤ n → adjust size ≤ n)
unfolding adjust
adjust_least size h = (ground arith, ground arith, ground arith, λ n a b c. ground arith)

-- For the 11 largest requests the addition wraps, and the block has at most 8 bytes.
pub adjust_wraps : (size : ℕ) → size < 2 ^ 64 → 2 ^ 64 ≤ size + 11 → adjust size ≤ 8
unfolding adjust
adjust_wraps size h k = ground arith

-- For a size that is a multiple of 8 below 2 ^ 64: extend_heap asks for this size, or for 224 bytes if that is more.
pub extend_bytes :
    (asize : ℕ)
    → asize % 8 ≡ 0
    → asize < 2 ^ 64
    → (asize ≤ even_bytes (extend_size asize / 4))
      × (224 ≤ even_bytes (extend_size asize / 4))
      × ((even_bytes (extend_size asize / 4) ≡ asize) ⊎ (even_bytes (extend_size asize / 4) ≡ 224))
unfolding extend_size even_bytes
extend_bytes asize h k = ground arith
