-- ===== src/Driver/Ranges/Separated.antt =====
-- The ranges that the driver holds have not been seen to overlap, and stay so.
use mar_2015_dynamic_storage.Base.{
  ℕ, ◌+◌, ◌-◌, ◌%◌, ◌≤◌, ◌<◌, ◌≡◌, ◌⊎◌, Bool, false, List, [], ◌∷◌, ◌==◌, arith, All, Bool-cases,
  inl, inr,
}
use mar_2015_dynamic_storage.Memlib.{MemSys}
use mar_2015_dynamic_storage.Driver.Ranges.{
  Range, added, is_aligned, any_hit, add_range, remove_range,
}
use mar_2015_dynamic_storage.Driver.Ranges.Accepts.{Disjoint, Inside, any_hit_iff}

-- A range's ends lie in none of the older ranges.
abbrev pub Newer : Range → Range → Type 0
Newer p q = Disjoint p.lo p.hi q ⊎ Inside p.lo p.hi q

-- aligned and not empty
abbrev pub Aligned : Range → Type 0
Aligned p = (p.lo % 8 ≡ 0) × (p.lo ≤ p.hi)

abbrev pub Separated : List Range → Type 0
Separated [] = Unit
Separated (p ∷ ps) = Aligned p × All (Newer p) ps × Separated ps

proper_sizes : (ps : List Range) → Separated ps → All (λ p. p.lo ≤ p.hi) ps
proper_sizes [] s = tt
proper_sizes (p ∷ ps) s = (s.0.1, proper_sizes ps s.2)

-- what add_range has checked when it returns 1
add_range_inv :
    (unchecked : Bool) (sys : MemSys) (ranges : List Range) (lo size index : ℕ) (rs : List Range)
    → add_range unchecked sys ranges lo size index ≡ added rs
    → (rs ≡ ranges)
      ⊎ (rs ≡ record { lo = lo; hi = lo + size - 1; index = index } ∷ ranges)
        × (0 < size)
        × (lo % 8 ≡ 0)
        × (any_hit lo (lo + size - 1) ranges ≡ false)
unfolding add_range is_aligned
add_range_inv unchecked sys ranges lo size index rs e = ground arith

pub add_range-Separated :
    (unchecked : Bool) (sys : MemSys) (ranges : List Range) (lo size index : ℕ) (rs : List Range)
    → Separated ranges
    → add_range unchecked sys ranges lo size index ≡ added rs
    → Separated rs
add_range-Separated unchecked sys ranges lo size index rs s e =
    elim (add_range_inv unchecked sys ranges lo size index rs e) [
      | inl same ↦ rw same s
      | inr (new, pos, a, clear) ↦ rw new (
        (a, omega arith),
        (any_hit_iff lo (lo + size - 1) ranges (omega arith) (proper_sizes ranges s)).0 clear,
        s,
      )
    ]

All-remove_range :
    (P : Range → Type 0) (ps : List Range) (lo : ℕ) → All P ps → All P (remove_range ps lo)
unfolding remove_range
All-remove_range P [] lo h = tt
All-remove_range P (p ∷ ps) lo h = elim (Bool-cases (p.lo == lo)) [
  | inl e ↦ rw e h.1
  | inr e ↦ rw e (h.0, All-remove_range P ps lo h.1)
]

pub remove_range-Separated :
    (ps : List Range) (lo : ℕ) → Separated ps → Separated (remove_range ps lo)
unfolding remove_range
remove_range-Separated [] lo s = tt
remove_range-Separated (p ∷ ps) lo s = elim (Bool-cases (p.lo == lo)) [
  | inl e ↦ rw e s.2
  | inr e ↦ rw e (s.0, All-remove_range (Newer p) ps lo s.1, remove_range-Separated ps lo s.2)
]
