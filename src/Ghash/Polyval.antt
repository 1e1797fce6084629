-- ===== src/Ghash/Polyval.antt =====
-- `Polyval` of src/aes_gcm/ghash.rs: the batches of `Ghasher`, with blocks as they come.
use hardware_rust_crypto.Prelude.{ℕ, List, ◌++◌, Option, none, some, to_le_bytes}
use hardware_rust_crypto.Cpu.{Cpu}
use hardware_rust_crypto.Ghash.Key.{bit_len}
use hardware_rust_crypto.Ghash.Backend.{
  Backend, new as new_backend, update_block, finalize as digest,
}
use hardware_rust_crypto.Ghash.Hasher.{absorb_blocks_by, absorb_padded_by}

pub record Polyval : Type 0 where
  pub backend : Backend

unfoldable pub new : Cpu → List (List ℕ) → Option Polyval
new cpu powers = elim (new_backend cpu powers) [
  | none ↦ none
  | some b ↦ some (record { backend = b })
]

unfoldable pub absorb_blocks : Polyval → List ℕ → Polyval
absorb_blocks p bytes = record { backend = absorb_blocks_by (λ block. block) p.backend bytes }

unfoldable pub absorb_padded : Polyval → List ℕ → Polyval
absorb_padded p bytes = record { backend = absorb_padded_by (λ block. block) p.backend bytes }

unfoldable pub finalize_with_lengths : Polyval → ℕ → ℕ → Option (List ℕ)
finalize_with_lengths p aad_len data_len = elim (bit_len aad_len) [
  | none ↦ none
  | some aad_bits ↦ elim (bit_len data_len) [
    | none ↦ none
    | some data_bits ↦
        let length_block = to_le_bytes 8 aad_bits ++ to_le_bytes 8 data_bits in
        some (digest (update_block p.backend length_block))
  ]
]
