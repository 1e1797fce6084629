-- ===== src/Gcm/Seal/Passes.antt =====
-- AES-GCM of `KeyState` as two passes, and the fused code against it.
use hardware_rust_crypto.Prelude.{
  ℕ, ◌*◌, ◌≡◌, refl, ap, ◌∙◌, ◌<◌, ◌/◌, List, Bool, true, false, Option, none, some, length,
  length-drop, IsBytes, IsBytes-drop, arith,
}
use hardware_rust_crypto.Cpu.{Cpu}
use hardware_rust_crypto.Ghash.Hasher.{Ghasher, new as new_ghasher, absorb_padded}
use hardware_rust_crypto.Ghash.Bulk.{
  Pass, bulk, seal_bulk, seal_in_place_bulk, open_bulk, open_in_place_bulk, seal_lanes, open_lanes,
}
use hardware_rust_crypto.Ghash.Bulk.Lanes.{ciphertext_of, seal_lanes-LanesLaw, open_lanes-LanesLaw}
use hardware_rust_crypto.Ghash.Bulk.Stitch.{bulk_lem}
use hardware_rust_crypto.Gcm.Counter.{j0, increment_counter}
use hardware_rust_crypto.Gcm.Keystream.{under, blocks_in}
use hardware_rust_crypto.Gcm.Seal.{
  KeyState, Sealed, close, seal, seal_in_place, open_message, open_in_place, seal_from,
  seal_in_place_from, open_from, seal_tail, seal_in_place_tail, open_tail,
}
use hardware_rust_crypto.Gcm.Seal.Reference.{
  fused_lem, seal_tail_lem, open_tail_lem, seal_in_place_tail_lem, tail_part,
}

-- The text that one pass of CTR from the counter behind `J0` makes of a message.
abbrev pub crypted : Cpu → KeyState → List ℕ → List ℕ → List ℕ
crypted cpu st nonce input =
    under cpu st.aes (increment_counter (j0 nonce)) input (blocks_in (length input))

module _ (cpu : Cpu) (st : KeyState) where
  -- After CTR, one pass of GHASH over AAD and ciphertext.
  abbrev pub two_passes_from : Bool → Ghasher → List ℕ → List ℕ → List ℕ → Sealed
  two_passes_from sealing fresh nonce aad input =
      let w = crypted cpu st nonce input in
      close cpu st nonce aad input
        (absorb_padded (absorb_padded fresh aad) (ciphertext_of sealing input w)) w

  -- `untouched` is the buffer as it stays where the CPU has no backend.
  abbrev pub two_passes_by : Option Ghasher → Bool → List ℕ → List ℕ → List ℕ → List ℕ → Sealed
  two_passes_by hasher sealing nonce aad input untouched = elim hasher [
    | none ↦ record { buffer = untouched; tag = none }
    | some fresh ↦ two_passes_from sealing fresh nonce aad input
  ]

  abbrev pub two_passes : Bool → List ℕ → List ℕ → List ℕ → List ℕ → Sealed
  two_passes = two_passes_by (new_ghasher cpu st.ghash)

  short_tail : (input : List ℕ) → length (tail_part input) < 128
  short_tail input = omega (arith, length-drop (length input / 128 * 128) input)

  seal_from_lem :
      (fresh : Ghasher) (nonce aad input : List ℕ)
      → IsBytes input
      → seal_from cpu st fresh nonce aad input ≡ two_passes_from true fresh nonce aad input
  unfolding seal_from absorb_padded seal_bulk
  seal_from_lem fresh nonce aad input q =
      let g = absorb_padded fresh aad in
      let counter = increment_counter (j0 nonce) in
      ap (λ t. close cpu st nonce aad input t.0 t.1)
        (fused_lem cpu st g.backend counter true (seal_bulk cpu g.backend st.aes.round_keys counter)
          (seal_tail cpu st) input q
          (λ m region e b.
            bulk_lem cpu st.aes true seal_lanes seal_lanes-LanesLaw g.backend counter region m e b)
          (λ pass. seal_tail_lem cpu st pass (tail_part input)))

  seal_in_place_from_lem :
      (fresh : Ghasher) (nonce aad input : List ℕ)
      → IsBytes input
      → seal_in_place_from cpu st fresh nonce aad input ≡ two_passes_from true fresh nonce aad input
  unfolding seal_in_place_from absorb_padded seal_in_place_bulk
  seal_in_place_from_lem fresh nonce aad input q =
      let g = absorb_padded fresh aad in
      let counter = increment_counter (j0 nonce) in
      ap (λ t. close cpu st nonce aad input t.0 t.1)
        (fused_lem cpu st g.backend counter true
          (seal_in_place_bulk cpu g.backend st.aes.round_keys counter) (seal_in_place_tail cpu st)
          input q
          (λ m region e b.
            bulk_lem cpu st.aes true seal_lanes seal_lanes-LanesLaw g.backend counter region m e b)
          (λ pass.
            seal_in_place_tail_lem cpu st pass (tail_part input) (short_tail input)
              (IsBytes-drop _ input q)))

  open_from_lem :
      (run : Ghasher → List ℕ → List ℕ → Pass) (fresh : Ghasher) (nonce aad input : List ℕ)
      → IsBytes input
      → ((g : Ghasher) (counter region : List ℕ)
          → run g counter region ≡ bulk cpu open_lanes g.backend st.aes.round_keys counter region)
      → open_from cpu st run fresh nonce aad input ≡ two_passes_from false fresh nonce aad input
  unfolding open_from absorb_padded
  open_from_lem run fresh nonce aad input q is_bulk =
      let g = absorb_padded fresh aad in
      let counter = increment_counter (j0 nonce) in
      ap (λ t. close cpu st nonce aad input t.0 t.1)
        (fused_lem cpu st g.backend counter false (run g counter) (open_tail cpu st) input q
          (λ m region e b.
            is_bulk g counter region
            ∙ bulk_lem cpu st.aes false open_lanes open_lanes-LanesLaw g.backend counter region m e
                b)
          (λ pass. open_tail_lem cpu st pass (tail_part input)))

  -- For a message of bytes the fused, out-of-place `seal` gives the two-pass result: the text
  -- under the key stream, and the masked hash of AAD and ciphertext; on an unsupported CPU the
  -- output stays as it was and there is no tag.
  pub seal-eq-two_passes :
      (nonce aad plaintext ciphertext : List ℕ)
      → IsBytes plaintext
      → seal cpu st nonce aad plaintext ciphertext ≡ two_passes true nonce aad plaintext ciphertext
  unfolding seal
  seal-eq-two_passes nonce aad plaintext ciphertext q = λ i. elim (new_ghasher cpu st.ghash) [
    | none ↦ record { buffer = ciphertext; tag = none }
    | some fresh ↦ seal_from_lem fresh nonce aad plaintext q i
  ]

  -- The same of `seal_in_place`, whose stitched tail and overlapped batches leave the ciphertext
  -- in the buffer of the plaintext.
  pub seal_in_place-eq-two_passes :
      (nonce aad input : List ℕ)
      → IsBytes input
      → seal_in_place cpu st nonce aad input ≡ two_passes true nonce aad input input
  unfolding seal_in_place
  seal_in_place-eq-two_passes nonce aad input q = λ i. elim (new_ghasher cpu st.ghash) [
    | none ↦ record { buffer = input; tag = none }
    | some fresh ↦ seal_in_place_from_lem fresh nonce aad input q i
  ]

  -- For a ciphertext of bytes `open` gives the two-pass result: the hash is of the ciphertext
  -- that is read, and the text written is the ciphertext under the key stream.
  pub open_message-eq-two_passes :
      (nonce aad ciphertext plaintext : List ℕ)
      → IsBytes ciphertext
      → open_message cpu st nonce aad ciphertext plaintext
        ≡ two_passes false nonce aad ciphertext plaintext
  unfolding open_message open_bulk
  open_message-eq-two_passes nonce aad ciphertext plaintext q = λ i.
      elim (new_ghasher cpu st.ghash) [
        | none ↦ record { buffer = plaintext; tag = none }
        | some fresh ↦
            open_from_lem (λ g. open_bulk cpu g.backend st.aes.round_keys) fresh nonce aad
              ciphertext q (λ g c r. refl) i
      ]

  -- The same of `open_in_place`.
  pub open_in_place-eq-two_passes :
      (nonce aad input : List ℕ)
      → IsBytes input
      → open_in_place cpu st nonce aad input ≡ two_passes false nonce aad input input
  unfolding open_in_place open_in_place_bulk
  open_in_place-eq-two_passes nonce aad input q = λ i. elim (new_ghasher cpu st.ghash) [
    | none ↦ record { buffer = input; tag = none }
    | some fresh ↦
        open_from_lem (λ g. open_in_place_bulk cpu g.backend st.aes.round_keys) fresh nonce aad
          input q (λ g c r. refl) i
  ]
