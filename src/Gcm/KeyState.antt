-- ===== src/Gcm/KeyState.antt =====
-- `KeyState` of src/aes_gcm/mod.rs: its construction, and the calls that the public handles
-- delegate to. A `Vec` that a failing call drops leaves no trace, so wiping it is not a step here.
pub mod Encrypt
pub mod Decrypt
pub mod Limits
pub mod Exact
pub mod RoundTrip
pub mod Authentic
pub mod Refused
use hardware_rust_crypto.Prelude.{ℕ, Bool, List, ◌&&◌, not, replicate, if◌then◌else◌}
use hardware_rust_crypto.Cpu.{Cpu}
use hardware_rust_crypto.Aes.{
  encrypt_block, hardware_available as aes_available, init_in_place as init_aes,
}
use hardware_rust_crypto.Ghash.Backend.{hardware_available as ghash_available}
use hardware_rust_crypto.Ghash.Key.{init_in_place as init_ghash}
use hardware_rust_crypto.Gcm.Counter.{tag_size}
use hardware_rust_crypto.Gcm.Error.{Error, Result, ok, err, or_error, and_then}
use hardware_rust_crypto.Gcm.Seal.{KeyState}

module _ (cpu : Cpu) where
  unfoldable pub hardware_available : Bool
  hardware_available = aes_available cpu && ghash_available cpu

  unfoldable pub init_in_place : List ℕ → Result KeyState
  unfolding hardware_available
  init_in_place key =
      if not hardware_available
      then err Error.unsupported_cpu
      else and_then (or_error (init_aes cpu key) Error.unsupported_cpu) (λ aes.
        let hash_subkey = encrypt_block cpu aes (replicate tag_size 0) in
        and_then (or_error (init_ghash cpu hash_subkey) Error.unsupported_cpu)
          (λ ghash. ok (record { aes = aes; ghash = ghash })))
