-- ===== src/Driver/Ranges/Accepts.antt =====
-- Which payloads add_range accepts, and what stays true of the list.
use mar_2015_dynamic_storage.Base.{
  ℕ, ◌+◌, ◌-◌, ◌%◌, ◌^◌, ◌≤◌, ◌<◌, ◌≡◌, ◌↔◌, ◌⊎◌, refl, false, List, [], ◌∷◌, arith, All,
  Bool-cases, inl, inr,
}
use mar_2015_dynamic_storage.Memlib.{MemSys, mem_heap_lo, mem_heap_hi}
use mar_2015_dynamic_storage.Memlib.Bounds.{IsValid}
use mar_2015_dynamic_storage.Driver.Ranges.{
  Range, added, is_aligned, hits, any_hit, is_outside, add_range,
}

-- no byte in common
abbrev pub Disjoint : (lo hi : ℕ) → Range → Type 0
Disjoint lo hi p = (hi < p.lo) ⊎ (p.hi < lo)

-- the old range lies strictly inside the new one: an overlap that the test does not see
abbrev pub Inside : (lo hi : ℕ) → Range → Type 0
Inside lo hi p = (lo < p.lo) × (p.hi < hi)

hits_iff :
    (lo hi : ℕ) (p : Range)
    → lo ≤ hi
    → p.lo ≤ p.hi
    → (hits lo hi p ≡ false) ↔ (Disjoint lo hi p ⊎ Inside lo hi p)
unfolding hits
hits_iff lo hi p h k = (ground arith, ground arith)

pub any_hit_iff :
    (lo hi : ℕ) (ps : List Range)
    → lo ≤ hi
    → All (λ p. p.lo ≤ p.hi) ps
    → (any_hit lo hi ps ≡ false) ↔ All (λ p. Disjoint lo hi p ⊎ Inside lo hi p) ps
unfolding any_hit
any_hit_iff lo hi [] h k = (λ e. tt, λ a. refl)
any_hit_iff lo hi (p ∷ ps) h k =
    let here = hits_iff lo hi p h k.0 in
    let rest = any_hit_iff lo hi ps h k.1 in
    elim (Bool-cases (hits lo hi p)) [
      | inl e ↦ rw e (λ f. cc, λ a. cc (here.1 a.0))
      | inr e ↦ rw e (λ f. (here.0 e, rest.0 f), λ a. rest.1 a.1)
    ]

-- what the driver knows of the ranges in its list
abbrev pub Proper : MemSys → Range → Type 0
Proper sys p = (p.lo % 8 ≡ 0) × (sys.heap ≤ p.lo) × (p.lo ≤ p.hi) × (p.hi < sys.mem_brk)

-- With checks on, a valid heap and ranges that are not empty: add_range accepts a payload of `size`
-- bytes exactly if the size is a positive `int`, the address is aligned, the payload lies in the
-- heap, and each range of the list is either disjoint from it or strictly inside it. The list then
-- has the payload in front.
pub add_range_accepts :
    (sys : MemSys) (ranges : List Range) (lo size index : ℕ)
    → IsValid sys
    → 0 < sys.mem_brk
    → All (λ p. p.lo ≤ p.hi) ranges
    → (add_range false sys ranges lo size index
        ≡ added (record { lo = lo; hi = lo + size - 1; index = index } ∷ ranges))
      ↔ ((0 < size)
          × (size < 2 ^ 31)
          × Proper sys (record { lo = lo; hi = lo + size - 1; index = index })
          × All (λ p. Disjoint lo (lo + size - 1) p ⊎ Inside lo (lo + size - 1) p) ranges)
unfolding add_range is_aligned is_outside mem_heap_lo mem_heap_hi
add_range_accepts sys ranges lo size index v pos k = (
  λ e. (
    ground arith,
    ground arith,
    ground arith,
    (any_hit_iff lo (lo + size - 1) ranges (ground arith) k).0 (ground arith),
  ),
  λ (a, b, c, d).
      let clear = (any_hit_iff lo (lo + size - 1) ranges (omega arith) k).1 d in
      ground (arith, clear, a, b, c),
)
