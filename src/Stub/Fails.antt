-- ===== src/Stub/Fails.antt =====
-- The stub in the driver: no trace that begins with a request is valid.
use mar_2015_dynamic_storage.Base.{
  ℕ, ◌+◌, ◌%◌, ◌^◌, ◌<◌, ◌≡◌, ◌↔◌, true, arith, refl, List, [], ◌∷◌, Bool-cases, inl, inr,
}
use mar_2015_dynamic_storage.Memlib.{mem_reset_brk}
use mar_2015_dynamic_storage.Driver.Ranges.{clear_ranges}
use mar_2015_dynamic_storage.Driver.Trace.{Op, alloc, reinit_trace}
use mar_2015_dynamic_storage.Driver.Valid.{
  Config, Driver, invalid, is_expensive, malloc_error, and_then, check_all, eval_alloc, eval_op,
  eval_ops, eval_mm_valid,
}
use mar_2015_dynamic_storage.Stub.{align, aligned, mm_init, malloc, refusing}

-- Below the last addresses, `aligned` is divisibility by 8.
pub aligned-lem : (p : ℕ) → p + 7 < 2 ^ 64 → (aligned p ≡ true) ↔ (p % 8 ≡ 0)
unfolding aligned align
aligned-lem p h = (λ e. ground (arith, e), λ e. ground (arith, e))

-- On a trace that begins with an ALLOC the driver finds the stub invalid at this request: it counts
-- one error and does nothing else.
pub eval_mm_valid-refusing :
    (cfg : Config) (d : Driver refusing) (index size : ℕ) (ops : List Op)
    → d.trace.ops ≡ alloc index size ∷ ops
    → eval_mm_valid refusing cfg d
      ≡ invalid (record d {
        state = record d.state { sys = mem_reset_brk d.state.sys };
        trace = reinit_trace d.trace;
        ranges = [];
        errors = d.errors + 1;
      })
unfolding eval_mm_valid eval_ops eval_op eval_alloc and_then malloc_error mm_init malloc
    clear_ranges check_all
eval_mm_valid-refusing cfg d index size ops first =
    elim (Bool-cases (is_expensive cfg.debug_mode)) [
      | inl e ↦ rw (first, e) refl
      | inr e ↦ rw (first, e) refl
    ]
