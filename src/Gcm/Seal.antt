-- ===== src/Gcm/Seal.antt =====
-- `KeyState` of src/aes_gcm/mod.rs up to its two passes over a message: `apply_ctr_serial`,
-- `seal`, `seal_in_place`, `open`, `open_in_place`.
pub mod Serial
pub mod Reference
pub mod Passes
pub mod Inverse
use hardware_rust_crypto.Prelude.{
  ℕ, ◌*◌, ◌/◌, List, [], ◌∷◌, ◌++◌, Option, none, some, length, take, drop, nonempty, chunks,
  xor_bytes, if◌then◌else◌,
}
use hardware_rust_crypto.Cpu.{Cpu}
use hardware_rust_crypto.Aes.{Aes256, encrypt_block}
use hardware_rust_crypto.Ghash.Key.{GHashKey}
use hardware_rust_crypto.Ghash.Hasher.{Ghasher, new as new_ghasher, absorb_padded, finalize}
use hardware_rust_crypto.Ghash.Bulk.{
  Pass, seal_bulk, seal_in_place_bulk, seal_in_place_tail_blocks, open_bulk, open_in_place_bulk,
}
use hardware_rust_crypto.Gcm.Counter.{j0, increment_counter}

pub record KeyState : Type 0 where
  pub aes : Aes256
  pub ghash : GHashKey

abbrev pub aes_block_size : ℕ
aes_block_size = 16

-- `PAR_BLOCKS * AES_BLOCK_SIZE`.
abbrev pub par_bytes : ℕ
par_bytes = 8 * 16

-- A message buffer after a pass, and the tag if there is one.
pub record Sealed : Type 0 where
  pub buffer : List ℕ
  pub tag : Option (List ℕ)

-- What CTR leaves behind: the counter and the bytes.
pub record Ctr : Type 0 where
  pub counter : List ℕ
  pub out : List ℕ

module _ (cpu : Cpu) (st : KeyState) where
  unfoldable pub ctr_blocks : List ℕ → List (List ℕ) → Ctr
  ctr_blocks counter [] = record { counter = counter; out = [] }
  ctr_blocks counter (block ∷ blocks) =
      let keystream = encrypt_block cpu st.aes counter in
      let rest = ctr_blocks (increment_counter counter) blocks in
      record { counter = rest.counter; out = xor_bytes block keystream ++ rest.out }

  unfoldable pub apply_ctr_serial : List ℕ → List ℕ → Ctr
  unfolding ctr_blocks chunks
  apply_ctr_serial counter input = ctr_blocks counter (chunks aes_block_size input)

  -- The tag is the hash, masked by the encryption of `J0`.
  unfoldable pub mask_tag : List ℕ → List ℕ → List ℕ
  mask_tag nonce hash = xor_bytes hash (encrypt_block cpu st.aes (j0 nonce))

  -- `finalize(..)?`, then the mask, with the buffer as it then is.
  unfoldable pub close : List ℕ → List ℕ → List ℕ → Ghasher → List ℕ → Sealed
  unfolding mask_tag
  close nonce aad message ghasher buffer = elim (finalize ghasher (length aad) (length message)) [
    | none ↦ record { buffer = buffer; tag = none }
    | some hash ↦ record { buffer = buffer; tag = some (mask_tag nonce hash) }
  ]

  -- A bulk pass from the hasher's backend, skipped on an empty region.
  unfoldable pub bulk_unless_empty : (List ℕ → Pass) → Ghasher → List ℕ → List ℕ → Pass
  bulk_unless_empty run ghasher counter region =
      if nonempty region
      then run region
      else record { backend = ghasher.backend; counter = counter; out = [] }

  unfoldable pub seal_tail : Pass → List ℕ → Ghasher × List ℕ
  seal_tail pass tail =
      let ctr = apply_ctr_serial pass.counter tail in
      let ghasher : Ghasher = record { backend = pass.backend } in
      if nonempty tail
      then (absorb_padded ghasher ctr.out, pass.out ++ ctr.out)
      else (ghasher, pass.out)

  unfoldable pub seal_from : Ghasher → List ℕ → List ℕ → List ℕ → Sealed
  unfolding close bulk_unless_empty seal_tail
  seal_from fresh nonce aad plaintext =
      let ghasher = absorb_padded fresh aad in
      let counter = increment_counter (j0 nonce) in
      let bulk = length plaintext / par_bytes * par_bytes in
      let pass =
        bulk_unless_empty (seal_bulk cpu ghasher.backend st.aes.round_keys counter) ghasher counter
          (take bulk plaintext) in
      let done = seal_tail pass (drop bulk plaintext) in close nonce aad plaintext done.0 done.1

  -- Out of place: `ciphertext` is the buffer that the pass writes.
  unfoldable pub seal : List ℕ → List ℕ → List ℕ → List ℕ → Sealed
  unfolding seal_from
  seal nonce aad plaintext ciphertext = elim (new_ghasher cpu st.ghash) [
    | none ↦ record { buffer = ciphertext; tag = none }
    | some fresh ↦ seal_from fresh nonce aad plaintext
  ]

  unfoldable pub seal_in_place_tail : Pass → List ℕ → Ghasher × List ℕ
  unfolding seal_tail
  seal_in_place_tail pass tail =
      let full = length tail / aes_block_size * aes_block_size in
      let blocks = take full tail in
      let ran = seal_in_place_tail_blocks cpu pass.backend st.aes.round_keys pass.counter blocks in
      let joined : Pass = record {
        backend = ran.backend;
        counter = ran.counter;
        out = pass.out ++ ran.out;
      } in
      let pass' = if nonempty blocks then joined else pass in
      if nonempty tail
      then seal_tail pass' (drop full tail)
      else (record { backend = pass.backend }, pass.out)

  unfoldable pub seal_in_place_from : Ghasher → List ℕ → List ℕ → List ℕ → Sealed
  unfolding close bulk_unless_empty seal_in_place_tail
  seal_in_place_from fresh nonce aad input =
      let ghasher = absorb_padded fresh aad in
      let counter = increment_counter (j0 nonce) in
      let bulk = length input / par_bytes * par_bytes in
      let pass =
        bulk_unless_empty (seal_in_place_bulk cpu ghasher.backend st.aes.round_keys counter) ghasher
          counter (take bulk input) in
      let done = seal_in_place_tail pass (drop bulk input) in close nonce aad input done.0 done.1

  unfoldable pub seal_in_place : List ℕ → List ℕ → List ℕ → Sealed
  unfolding seal_in_place_from
  seal_in_place nonce aad input = elim (new_ghasher cpu st.ghash) [
    | none ↦ record { buffer = input; tag = none }
    | some fresh ↦ seal_in_place_from fresh nonce aad input
  ]

  -- GHASH takes the ciphertext before it is decrypted.
  unfoldable pub open_tail : Pass → List ℕ → Ghasher × List ℕ
  open_tail pass tail =
      let ghasher : Ghasher = record { backend = pass.backend } in
      let ctr = apply_ctr_serial pass.counter tail in
      if nonempty tail
      then (absorb_padded ghasher tail, pass.out ++ ctr.out)
      else (ghasher, pass.out)

  unfoldable pub open_from :
      (Ghasher → List ℕ → List ℕ → Pass) → Ghasher → List ℕ → List ℕ → List ℕ → Sealed
  unfolding close bulk_unless_empty open_tail
  open_from run fresh nonce aad ciphertext =
      let ghasher = absorb_padded fresh aad in
      let counter = increment_counter (j0 nonce) in
      let bulk = length ciphertext / par_bytes * par_bytes in
      let pass = bulk_unless_empty (run ghasher counter) ghasher counter (take bulk ciphertext) in
      let done = open_tail pass (drop bulk ciphertext) in close nonce aad ciphertext done.0 done.1

  unfoldable pub open_message : List ℕ → List ℕ → List ℕ → List ℕ → Sealed
  unfolding open_from
  open_message nonce aad ciphertext plaintext = elim (new_ghasher cpu st.ghash) [
    | none ↦ record { buffer = plaintext; tag = none }
    | some fresh ↦
        open_from (λ g. open_bulk cpu g.backend st.aes.round_keys) fresh nonce aad ciphertext
  ]

  unfoldable pub open_in_place : List ℕ → List ℕ → List ℕ → Sealed
  unfolding open_from
  open_in_place nonce aad input = elim (new_ghasher cpu st.ghash) [
    | none ↦ record { buffer = input; tag = none }
    | some fresh ↦
        open_from (λ g. open_in_place_bulk cpu g.backend st.aes.round_keys) fresh nonce aad input
  ]
