-- ===== src/Ghash/Hasher.antt =====
-- `Ghasher` of src/aes_gcm/ghash.rs, with the batching that `Polyval` shares: a message section in
-- batches of eight, four and one block, the last one padded, and the length block.
pub mod Sections
pub mod Serial
pub mod Reference
pub mod Padded
use hardware_rust_crypto.Prelude.{
  ℕ, ◌+◌, ◌-◌, ◌*◌, ◌/◌, ◌%◌, List, [], ◌∷◌, ◌++◌, map, foldl, reverse, Option, none, some, length,
  take, drop, replicate, runs, to_be_bytes, to_le_bytes,
}
use hardware_rust_crypto.Cpu.{Cpu}
use hardware_rust_crypto.Ghash.Key.{GHashKey, bit_len}
use hardware_rust_crypto.Ghash.Backend.{
  Backend, new as new_backend, update_block, update_blocks4, update_blocks8, finalize as digest,
}

-- `chunks_exact(n)` and its `remainder()`.
abbrev pub chunks_exact {ℓ} : {A : Type ℓ} → ℕ → List A → List (List A)
chunks_exact n bytes = runs (length bytes / n) n bytes

abbrev pub remainder {ℓ} : {A : Type ℓ} → ℕ → List A → List A
remainder n bytes = drop (length bytes / n * n) bytes

-- A partial block, padded with zeros to 16 bytes.
abbrev pub padded : List ℕ → List ℕ
padded rest = rest ++ replicate (16 - length rest) 0

-- How a block enters the backend: GHASH reverses its bytes, POLYVAL does not.
module _ (enter : List ℕ → List ℕ) where
  unfoldable pub absorb_octet : Backend → List ℕ → Backend
  unfolding runs
  absorb_octet b octet = update_blocks8 b (map enter (runs 8 16 octet))

  unfoldable pub absorb_quad : Backend → List ℕ → Backend
  unfolding runs
  absorb_quad b quad = update_blocks4 b (map enter (runs 4 16 quad))

  unfoldable pub absorb_one : Backend → List ℕ → Backend
  absorb_one b chunk = update_block b (enter chunk)

  unfoldable pub absorb_blocks_by : Backend → List ℕ → Backend
  absorb_blocks_by b bytes =
      let b₁ = foldl absorb_octet b (chunks_exact 128 bytes) in
      let rest₁ = remainder 128 bytes in
      let b₂ = foldl absorb_quad b₁ (chunks_exact 64 rest₁) in
      let rest₂ = remainder 64 rest₁ in foldl absorb_one b₂ (chunks_exact 16 rest₂)

  unfoldable pub close_section : Backend → List ℕ → Backend
  close_section b [] = b
  close_section b (x ∷ rest) = update_block b (enter (padded (x ∷ rest)))

  unfoldable pub absorb_padded_by : Backend → List ℕ → Backend
  unfolding close_section
  absorb_padded_by b bytes =
      let full = length bytes - length bytes % 16 in
      close_section (absorb_blocks_by b (take full bytes)) (drop full bytes)

pub record Ghasher : Type 0 where
  pub backend : Backend

unfoldable pub new : Cpu → GHashKey → Option Ghasher
new cpu key = elim (new_backend cpu key.polyval_key_powers) [
  | none ↦ none
  | some b ↦ some (record { backend = b })
]

unfoldable pub absorb_blocks : Ghasher → List ℕ → Ghasher
absorb_blocks g bytes = record { backend = absorb_blocks_by reverse g.backend bytes }

unfoldable pub absorb_padded : Ghasher → List ℕ → Ghasher
absorb_padded g bytes = record { backend = absorb_padded_by reverse g.backend bytes }

unfoldable pub finalize : Ghasher → ℕ → ℕ → Option (List ℕ)
finalize g aad_len data_len = elim (bit_len aad_len) [
  | none ↦ none
  | some aad_bits ↦ elim (bit_len data_len) [
    | none ↦ none
    | some data_bits ↦
        let length_block = reverse (to_be_bytes 8 aad_bits ++ to_be_bytes 8 data_bits) in
        some (reverse (digest (update_block g.backend length_block)))
  ]
]
