-- ===== src/Driver/Result.antt =====
-- What comes of an evaluation that stops the program at the first error.
use mar_2015_dynamic_storage.Base.{}

-- A result; the end of the program by `app_error`; or a call that does not return.
pub data Result {ℓ} (A : Type ℓ) : Type ℓ where
  done : A → Result A
  app_error : Result A
  hanging : Result A

abbrev pub bind {ℓ κ} : {A : Type ℓ} {B : Type κ} → Result A → (A → Result B) → Result B
bind (done a) k = k a
bind app_error k = app_error
bind hanging k = hanging
