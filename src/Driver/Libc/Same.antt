-- ===== src/Driver/Libc/Same.antt =====
-- The two runs of a trace on the C library's package.
use mar_2015_dynamic_storage.Base.{ℕ, ◌^◌, ◌<◌, ◌≡◌, List, [], ◌∷◌, All, arith, refl, ap, ◌∙◌}
use mar_2015_dynamic_storage.Machine.Word.{to_int, to_size_t}
use mar_2015_dynamic_storage.Driver.Result.{Result, done, app_error, hanging, bind}
use mar_2015_dynamic_storage.Driver.Trace.{Op, alloc, realloc, free, Trace, reinit_trace}
use mar_2015_dynamic_storage.Driver.Libc.{
  LibraryPackage, Run, valid_alloc, valid_op, valid_ops, eval_libc_valid, libc_speed_alloc,
  libc_speed_op, libc_speed_ops, eval_libc_speed,
}

-- A size to allocate fits an `int`.
abbrev pub IsIntSized : Op → Type 0
IsIntSized (alloc index size) = size < 2 ^ 31
IsIntSized (realloc index size) = Unit
IsIntSized (free index) = Unit

to_size_t-to_int : (size : ℕ) → size < 2 ^ 31 → to_size_t (to_int size) ≡ size
to_size_t-to_int size h = ground (arith, h)

module _ (lib : LibraryPackage) where
  libc_speed_op-valid_op :
      (op : Op) (r : Run lib) → IsIntSized op → libc_speed_op lib op r ≡ valid_op lib op r
  unfolding libc_speed_op valid_op libc_speed_alloc valid_alloc
  libc_speed_op-valid_op (alloc index size) r h = rw (to_size_t-to_int size h) refl
  libc_speed_op-valid_op (realloc index size) r h = refl
  libc_speed_op-valid_op (free index) r h = refl

  bind-same :
      (x : Result (Run lib)) (f g : Run lib → Result (Run lib))
      → ((r : Run lib) → f r ≡ g r)
      → bind x f ≡ bind x g
  bind-same (done r) f g h = h r
  bind-same app_error f g h = refl
  bind-same hanging f g h = refl

  libc_speed_ops-valid_ops :
      (ops : List Op) (r : Run lib)
      → All IsIntSized ops
      → libc_speed_ops lib ops r ≡ valid_ops lib ops r
  unfolding libc_speed_ops valid_ops
  libc_speed_ops-valid_ops [] r h = refl
  libc_speed_ops-valid_ops (op ∷ ops) r h =
      ap (λ x. bind x (libc_speed_ops lib ops)) (libc_speed_op-valid_op op r h.0)
      ∙ bind-same (valid_op lib op r) (libc_speed_ops lib ops) (valid_ops lib ops)
          (λ t. libc_speed_ops-valid_ops ops t h.1)

  -- On a trace whose sizes to allocate are below 2 ^ 31, eval_libc_speed makes the calls of
  -- eval_libc_valid, with the same end: the run that is timed is the run that was tried.
  pub eval_libc_speed-eval_libc_valid :
      (trace : Trace) (s : lib.State)
      → All IsIntSized trace.ops
      → eval_libc_speed lib trace s ≡ eval_libc_valid lib trace s
  unfolding eval_libc_speed eval_libc_valid
  eval_libc_speed-eval_libc_valid trace s h =
      libc_speed_ops-valid_ops trace.ops
        (record { state = s; blocks = (reinit_trace trace).blocks }) h
