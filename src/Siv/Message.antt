-- ===== src/Siv/Message.antt =====
-- The message level of src/aes_gcm/siv.rs: derived keys, the digest, the counter mode, sealing and
-- opening.
use hardware_rust_crypto.Prelude.{
  ℕ, zero, suc, ◌+◌, ◌*◌, ◌/◌, ◌%◌, ◌^◌, Bool, false, List, [], ◌∷◌, ◌++◌, map, Option, none, some,
  length, take, drop, set, get_or, runs, chunks, xor_bytes, from_le_bytes, to_le_bytes, bit_and,
  bit_or, flatten,
}
use hardware_rust_crypto.Cpu.{Cpu}
use hardware_rust_crypto.Aes.{Aes256, encrypt_block, encrypt8, init_in_place as init_aes}
use hardware_rust_crypto.Ghash.Key.{key_powers}
use hardware_rust_crypto.Ghash.Polyval.{new as new_polyval, absorb_padded, finalize_with_lengths}
use hardware_rust_crypto.Gcm.Crates.{Crates, constant_time_eq}
use hardware_rust_crypto.Gcm.Seal.{Ctr, Sealed}

-- `LE32(counter) || nonce`.
unfoldable pub derive_input : ℕ → List ℕ → List ℕ
unfolding to_le_bytes
derive_input counter nonce = to_le_bytes 4 counter ++ nonce

-- The two keys of a message.
pub record MessageKeys : Type 0 where
  pub auth_key : List ℕ
  pub enc_key : List ℕ

-- `u32::from_le_bytes(..).wrapping_add(1)` over the first four bytes.
unfoldable pub increment_siv_counter : List ℕ → List ℕ
unfolding from_le_bytes to_le_bytes
increment_siv_counter counter =
    to_le_bytes 4 ((from_le_bytes (take 4 counter) + 1) % 2 ^ 32) ++ drop 4 counter

-- The counter blocks of a batch, and the counter behind them.
unfoldable pub siv_counters : ℕ → List ℕ → List (List ℕ) × List ℕ
siv_counters zero counter = ([], counter)
siv_counters (suc n) counter =
    let rest = siv_counters n (increment_siv_counter counter) in (counter ∷ rest.0, rest.1)

-- Key blocks over data blocks, as far as both go.
unfoldable pub xor_blocks : List (List ℕ) → List (List ℕ) → List ℕ
xor_blocks [] blocks = []
xor_blocks (key ∷ keys) [] = []
xor_blocks (key ∷ keys) (block ∷ blocks) = xor_bytes block key ++ xor_blocks keys blocks

-- `digest[15] &= 0x7f` and `counter[15] |= 0x80`.
abbrev pub clear_top : List ℕ → List ℕ
clear_top block = set block 15 (bit_and (get_or block 15 0) 0x7f)

abbrev pub set_top : List ℕ → List ℕ
set_top block = set block 15 (bit_or (get_or block 15 0) 0x80)

module _ (cpu : Cpu) where
  -- The low half of one encrypted input.
  unfoldable pub derive_into : Aes256 → List ℕ → ℕ → List ℕ
  unfolding derive_input
  derive_into master nonce counter = take 8 (encrypt_block cpu master (derive_input counter nonce))

  unfoldable pub derive_keys : Aes256 → List ℕ → MessageKeys
  unfolding derive_into flatten
  derive_keys master nonce = record {
    auth_key = flatten (map (derive_into master nonce) (0 ∷ 1 ∷ []));
    enc_key = flatten (map (derive_into master nonce) (2 ∷ 3 ∷ 4 ∷ 5 ∷ []));
  }

  unfoldable pub build_message_cipher : List ℕ → Option Aes256
  build_message_cipher enc_key = init_aes cpu enc_key

  unfoldable pub polyval_digest : List ℕ → List ℕ → List ℕ → Option (List ℕ)
  unfolding finalize_with_lengths
  polyval_digest auth_key aad message = elim (key_powers cpu auth_key) [
    | none ↦ none
    | some powers ↦ elim (new_polyval cpu powers) [
      | none ↦ none
      | some polyval ↦
          finalize_with_lengths (absorb_padded (absorb_padded polyval aad) message) (length aad)
            (length message)
    ]
  ]

  module _ (cipher : Aes256) where
    unfoldable pub ctr_batches : List ℕ → List (List ℕ) → Ctr
    unfolding siv_counters xor_blocks runs
    ctr_batches counter [] = record { counter = counter; out = [] }
    ctr_batches counter (batch ∷ batches) =
        let blocks = siv_counters 8 counter in
        let keystream = encrypt8 cpu cipher blocks.0 in
        let rest = ctr_batches blocks.1 batches in
        record { counter = rest.counter; out = xor_blocks keystream (runs 8 16 batch) ++ rest.out }

    unfoldable pub ctr_singles : List ℕ → List (List ℕ) → Ctr
    ctr_singles counter [] = record { counter = counter; out = [] }
    ctr_singles counter (block ∷ blocks) =
        let keystream = encrypt_block cpu cipher counter in
        let rest = ctr_singles (increment_siv_counter counter) blocks in
        record { counter = rest.counter; out = xor_bytes block keystream ++ rest.out }

    -- Batches of 128 bytes, then blocks of at most 16.
    unfoldable pub ctr_apply : List ℕ → List ℕ → Ctr
    unfolding ctr_batches ctr_singles runs chunks
    ctr_apply counter text =
        let n = length text / 128 in
        let bulk = ctr_batches counter (runs n 128 text) in
        let rest = ctr_singles bulk.counter (chunks 16 (drop (n * 128) text)) in
        record { counter = rest.counter; out = bulk.out ++ rest.out }

    unfoldable pub siv_tag : List ℕ → List ℕ → List ℕ
    siv_tag nonce digest = encrypt_block cpu cipher (clear_top (xor_bytes digest nonce))

  -- What `siv_seal` does once it has the cipher.
  unfoldable pub seal_under : Aes256 → List ℕ → List ℕ → List ℕ → List ℕ → Sealed
  unfolding polyval_digest siv_tag ctr_apply
  seal_under cipher auth_key nonce aad text = elim (polyval_digest auth_key aad text) [
    | none ↦ record { buffer = text; tag = none }
    | some digest ↦
        let tag = siv_tag cipher nonce digest in
        record { buffer = (ctr_apply cipher (set_top tag) text).out; tag = some tag }
  ]

  unfoldable pub siv_seal : Aes256 → List ℕ → List ℕ → List ℕ → Sealed
  unfolding derive_keys build_message_cipher seal_under
  siv_seal master nonce aad text =
      let keys = derive_keys master nonce in
      elim (build_message_cipher keys.enc_key) [
        | none ↦ record { buffer = text; tag = none }
        | some cipher ↦ seal_under cipher keys.auth_key nonce aad text
      ]

  -- What `siv_open` does once it has the cipher: the buffer that it leaves, and the verdict.
  unfoldable pub open_under :
      Crates → Aes256 → List ℕ → List ℕ → List ℕ → List ℕ → List ℕ → List ℕ × Bool
  unfolding polyval_digest siv_tag ctr_apply constant_time_eq
  open_under crates cipher auth_key nonce aad text tag =
      let opened = (ctr_apply cipher (set_top tag) text).out in
      elim (polyval_digest auth_key aad opened) [
        | none ↦ (opened, false)
        | some digest ↦ (opened, constant_time_eq crates (siv_tag cipher nonce digest) tag)
      ]

  unfoldable pub siv_open : Crates → Aes256 → List ℕ → List ℕ → List ℕ → List ℕ → List ℕ × Bool
  unfolding derive_keys build_message_cipher open_under
  siv_open crates master nonce aad text tag =
      let keys = derive_keys master nonce in
      elim (build_message_cipher keys.enc_key) [
        | none ↦ (text, false)
        | some cipher ↦ open_under crates cipher keys.auth_key nonce aad text tag
      ]
