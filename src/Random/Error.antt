-- ===== src/Random/Error.antt =====
-- `Error` of src/random/mod.rs and the results that carry it. The error of `getrandom` is its
-- code; the static text that names the required features is left out.
use hardware_rust_crypto.Prelude.{ℕ}

pub data Error : Type 0 where
  os_entropy : ℕ → Error
  unsupported_cpu fork_detected : Error

pub data Result {ℓ} (A : Type ℓ) : Type ℓ where
  ok : A → Result A
  err : Error → Result A
