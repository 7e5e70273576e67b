-- ===== src/Driver/Read/Weight.antt =====
-- The weight that read_trace hands on.
use mar_2015_dynamic_storage.Base.{ℕ, ◌≤◌, ◌≡◌, Bool, [], Option, none, some, arith, ◌==◌}
use mar_2015_dynamic_storage.Driver.Trace.{Trace}
use mar_2015_dynamic_storage.Driver.Read.{
  Scanner, Reading, parsed, read_trace, read_ops, finish, or_else,
}

module _ (sc : Scanner) where
  finish-weight :
      (w ids n : ℕ) (ig : Bool) (r : Option (Reading × Option ℕ)) (trace : Trace)
      (weight num_ops : ℕ)
      → finish sc w ids n ig r ≡ parsed trace weight num_ops
      → w ≡ weight
  unfolding finish
  finish-weight w ids n ig none trace weight num_ops e = cc
  finish-weight w ids n ig (some (r, some c)) trace weight num_ops e = cc
  finish-weight w ids n ig (some (r, none)) trace weight num_ops e = ground (arith, e)

  -- read_trace accepts the weights from 0 to 3 only.
  pub read_trace-weight :
      (opened : Option sc.File) (fails : ℕ → Bool) (left : ℕ → ℕ) (size₀ fuel : ℕ) (trace : Trace)
      (weight num_ops : ℕ)
      → read_trace sc opened fails left size₀ fuel ≡ parsed trace weight num_ops
      → weight ≤ 3
  unfolding read_trace
  read_trace-weight none fails left size₀ fuel trace weight num_ops e = cc
  read_trace-weight (some f) fails left size₀ fuel trace weight num_ops e =
      let (a₁, f₁) = sc.scan_int f in
      let (a₂, f₂) = sc.scan_int f₁ in
      let (a₃, f₃) = sc.scan_int f₂ in
      let (a₄, f₄) = sc.scan_int f₃ in
      let n = or_else a₃ (left 2) in
      let ops =
        read_ops sc n fuel f₄
          (record { index = 0; size = size₀; max_index = 0; op_index = 0; ops = [] }) in
      ground (
        arith,
        e,
        finish-weight (or_else a₁ (left 0)) (or_else a₂ (left 1)) n (or_else a₄ (left 3) == 1) ops
            trace weight num_ops,
      )
