-- ===== src/Seg/Tests/Requests.antt =====
-- The size classes and adjusted sizes at some requests.
use mar_2015_dynamic_storage.Base.{ℕ, ◌+◌, ◌-◌, ◌%◌, ◌^◌, ◌≤◌, ◌≡◌, ◌⊎◌, arith}
use mar_2015_dynamic_storage.Seg.Sizes.{list_entry, adjust}
use mar_2015_dynamic_storage.Seg.Package.{}
use mar_2015_dynamic_storage.Seg.Classes.{list_entry_used, adjust_least, adjust_wraps}

list_entry_used_example :
    (list_entry 100000 ≤ 16) ⊎ (list_entry 100000 ≡ 18) ⊎ (list_entry 100000 ≡ 23)
list_entry_used_example = list_entry_used 100000

adjust_least_example :
    (adjust 100 % 8 ≡ 0)
    × (16 ≤ adjust 100)
    × (100 + 4 ≤ adjust 100)
    × ((n : ℕ) → n % 8 ≡ 0 → 16 ≤ n → 100 + 4 ≤ n → adjust 100 ≤ n)
adjust_least_example = adjust_least 100 (omega arith)

adjust_wraps_example : adjust (2 ^ 64 - 5) ≤ 8
adjust_wraps_example = adjust_wraps (2 ^ 64 - 5) (omega arith) (omega arith)
