-- ===== src/Gcm/Seal/Inverse.antt =====
-- Opening what sealing wrote: the same text, under the same tag.
use hardware_rust_crypto.Prelude.{
  ℕ, ◌≡◌, ◌≢◌, refl, sym, ap, ◌∙◌, List, true, false, Option, none, some, length, IsBytes,
  xor_bytes, xor_bytes_cancel, arith,
}
use hardware_rust_crypto.Cpu.{Cpu}
use hardware_rust_crypto.Ghash.Backend.{hardware_available, new as new_backend}
use hardware_rust_crypto.Ghash.Hasher.{Ghasher, new as new_ghasher, absorb_padded, finalize}
use hardware_rust_crypto.Gcm.Counter.{j0, increment_counter}
use hardware_rust_crypto.Gcm.Keystream.{keystream, blocks_in, length-under, under-IsBytes}
use hardware_rust_crypto.Gcm.Seal.{
  KeyState, Sealed, close, mask_tag, seal, seal_in_place, open_message, open_in_place,
}
use hardware_rust_crypto.Gcm.Seal.Passes.{
  crypted, two_passes_by, two_passes_from, seal-eq-two_passes, seal_in_place-eq-two_passes,
  open_message-eq-two_passes, open_in_place-eq-two_passes,
}

pub Sealed-ext : {a b : Sealed} → a.buffer ≡ b.buffer → a.tag ≡ b.tag → a ≡ b
Sealed-ext p q = λ i. record { buffer = p i; tag = q i }

module _ (cpu : Cpu) (st : KeyState) where
  pub length-crypted : (nonce input : List ℕ) → length (crypted cpu st nonce input) ≡ length input
  length-crypted nonce input =
      length-under cpu st.aes (increment_counter (j0 nonce)) input (blocks_in (length input))

  pub crypted-IsBytes :
      (nonce input : List ℕ) → IsBytes input → IsBytes (crypted cpu st nonce input)
  crypted-IsBytes nonce input q =
      under-IsBytes cpu st.aes (increment_counter (j0 nonce)) input (blocks_in (length input)) q

  -- CTR is its own inverse.
  pub crypted-crypted :
      (nonce input : List ℕ) → crypted cpu st nonce (crypted cpu st nonce input) ≡ input
  crypted-crypted nonce input =
      let c = increment_counter (j0 nonce) in
      let n = blocks_in (length input) in
      ap (λ t. xor_bytes (crypted cpu st nonce input) (keystream cpu st.aes c (blocks_in t)))
        (length-crypted nonce input)
      ∙ xor_bytes_cancel input (keystream cpu st.aes c n)

  -- What `close` returns, apart from the buffer.
  abbrev pub closing_tag : List ℕ → Option (List ℕ) → Option (List ℕ)
  closing_tag nonce hash = elim hash [ none ↦ none | some h ↦ some (mask_tag cpu st nonce h) ]

  close_by :
      (nonce buffer : List ℕ) (hash : Option (List ℕ))
      → ◌≡◌ {A = Sealed}
          (elim hash [
            | none ↦ record { buffer = buffer; tag = none }
            | some h ↦ record { buffer = buffer; tag = some (mask_tag cpu st nonce h) }
          ])
          (record { buffer = buffer; tag = closing_tag nonce hash })
  close_by nonce buffer none = refl
  close_by nonce buffer (some h) = refl

  pub close_lem :
      (nonce aad message : List ℕ) (g : Ghasher) (buffer : List ℕ)
      → close cpu st nonce aad message g buffer ≡ record {
        buffer = buffer;
        tag = closing_tag nonce (finalize g (length aad) (length message));
      }
  unfolding close
  close_lem nonce aad message g buffer =
      close_by nonce buffer (finalize g (length aad) (length message))

  -- The tag of a ciphertext under a fresh hasher.
  abbrev pub tag_from : Ghasher → List ℕ → List ℕ → List ℕ → Option (List ℕ)
  tag_from fresh nonce aad ciphertext = closing_tag nonce (
      finalize (absorb_padded (absorb_padded fresh aad) ciphertext) (length aad)
        (length ciphertext))

  sealed_lem :
      (fresh : Ghasher) (nonce aad input : List ℕ)
      → two_passes_from cpu st true fresh nonce aad input ≡ record {
        buffer = crypted cpu st nonce input;
        tag = tag_from fresh nonce aad (crypted cpu st nonce input);
      }
  sealed_lem fresh nonce aad input =
      let w = crypted cpu st nonce input in
      let g = absorb_padded (absorb_padded fresh aad) w in
      close_lem nonce aad input g w
      ∙ ap (λ (n : ℕ). record { buffer = w; tag = closing_tag nonce (finalize g (length aad) n) })
          (sym (length-crypted nonce input))

  opened_lem :
      (fresh : Ghasher) (nonce aad input : List ℕ)
      → two_passes_from cpu st false fresh nonce aad input
        ≡ record { buffer = crypted cpu st nonce input; tag = tag_from fresh nonce aad input }
  opened_lem fresh nonce aad input =
      close_lem nonce aad input (absorb_padded (absorb_padded fresh aad) input)
        (crypted cpu st nonce input)

  abbrev pub gcm_tag_by : Option Ghasher → List ℕ → List ℕ → List ℕ → Option (List ℕ)
  gcm_tag_by hasher nonce aad ciphertext = elim hasher [
    | none ↦ none
    | some fresh ↦ tag_from fresh nonce aad ciphertext
  ]

  -- The tag that AES-GCM gives a ciphertext: none on a CPU with no backend, or where a length in
  -- bits does not fit 64 bits.
  abbrev pub gcm_tag : List ℕ → List ℕ → List ℕ → Option (List ℕ)
  gcm_tag = gcm_tag_by (new_ghasher cpu st.ghash)

  sealed_by :
      (hasher : Option Ghasher) (nonce aad input u : List ℕ)
      → hasher ≢ none
      → two_passes_by cpu st hasher true nonce aad input u ≡ record {
        buffer = crypted cpu st nonce input;
        tag = gcm_tag_by hasher nonce aad (crypted cpu st nonce input);
      }
  sealed_by none nonce aad input u h = absurd (h refl)
  sealed_by (some fresh) nonce aad input u h = sealed_lem fresh nonce aad input

  opened_by :
      (hasher : Option Ghasher) (nonce aad input u : List ℕ)
      → hasher ≢ none
      → two_passes_by cpu st hasher false nonce aad input u
        ≡ record { buffer = crypted cpu st nonce input; tag = gcm_tag_by hasher nonce aad input }
  opened_by none nonce aad input u h = absurd (h refl)
  opened_by (some fresh) nonce aad input u h = opened_lem fresh nonce aad input

  module _ (ready : hardware_available cpu ≡ true) where
    pub has_hasher : new_ghasher cpu st.ghash ≢ none
    unfolding new_ghasher new_backend
    has_hasher e = ground arith

    pub seal-ready :
        (nonce aad input u : List ℕ)
        → IsBytes input
        → seal cpu st nonce aad input u ≡ record {
          buffer = crypted cpu st nonce input;
          tag = gcm_tag nonce aad (crypted cpu st nonce input);
        }
    seal-ready nonce aad input u q =
        seal-eq-two_passes cpu st nonce aad input u q
        ∙ sealed_by (new_ghasher cpu st.ghash) nonce aad input u has_hasher

    pub seal_in_place-ready :
        (nonce aad input : List ℕ)
        → IsBytes input
        → seal_in_place cpu st nonce aad input ≡ record {
          buffer = crypted cpu st nonce input;
          tag = gcm_tag nonce aad (crypted cpu st nonce input);
        }
    seal_in_place-ready nonce aad input q =
        seal_in_place-eq-two_passes cpu st nonce aad input q
        ∙ sealed_by (new_ghasher cpu st.ghash) nonce aad input input has_hasher

    pub open_message-ready :
        (nonce aad input u : List ℕ)
        → IsBytes input
        → open_message cpu st nonce aad input u
          ≡ record { buffer = crypted cpu st nonce input; tag = gcm_tag nonce aad input }
    open_message-ready nonce aad input u q =
        open_message-eq-two_passes cpu st nonce aad input u q
        ∙ opened_by (new_ghasher cpu st.ghash) nonce aad input u has_hasher

    pub open_in_place-ready :
        (nonce aad input : List ℕ)
        → IsBytes input
        → open_in_place cpu st nonce aad input
          ≡ record { buffer = crypted cpu st nonce input; tag = gcm_tag nonce aad input }
    open_in_place-ready nonce aad input q =
        open_in_place-eq-two_passes cpu st nonce aad input q
        ∙ opened_by (new_ghasher cpu st.ghash) nonce aad input input has_hasher
