-- ===== src/Examples/Messages.antt =====
-- The theorems on messages at the fixtures.
use hardware_rust_crypto.Prelude.{
  ℕ, ◌+◌, ◌≡◌, ◌↔◌, refl, map, reverse, true, false, not, List, [], ◌∷◌, ◌++◌, some, length, drop,
  replicate, if◌then◌else◌, arith,
}
use hardware_rust_crypto.Aes.{encrypt_block, encrypt8}
use hardware_rust_crypto.Aes.Lanes.{encrypt8-eq-map}
use hardware_rust_crypto.Ghash.Backend.{Backend}
use hardware_rust_crypto.Ghash.Hasher.Sections.{below_octets}
use hardware_rust_crypto.Ghash.Bulk.{seal_in_place_tail_blocks}
use hardware_rust_crypto.Ghash.Bulk.Tail.{tail_lem}
use hardware_rust_crypto.Gcm.Counter.{j0}
use hardware_rust_crypto.Gcm.Counter.Distinct.{counter_blocks-distinct}
use hardware_rust_crypto.Gcm.Crates.{constant_time_eq}
use hardware_rust_crypto.Gcm.Error.{Error, ok, err}
use hardware_rust_crypto.Gcm.Keystream.{advance, under}
use hardware_rust_crypto.Gcm.Seal.{seal, seal_in_place, open_message, open_in_place}
use hardware_rust_crypto.Gcm.Seal.Passes.{
  two_passes, crypted, seal-eq-two_passes, seal_in_place-eq-two_passes, open_message-eq-two_passes,
  open_in_place-eq-two_passes,
}
use hardware_rust_crypto.Gcm.Seal.Inverse.{gcm_tag, length-crypted}
use hardware_rust_crypto.Gcm.KeyState.Encrypt.{encrypt, encrypt_to, encrypt_envelope, copy_over}
use hardware_rust_crypto.Gcm.KeyState.Decrypt.{decrypt, decrypt_to, decrypt_envelope, open_detached}
use hardware_rust_crypto.Gcm.KeyState.Limits.{gcm_tag-ok}
use hardware_rust_crypto.Gcm.KeyState.Exact.{encrypt_to_lem}
use hardware_rust_crypto.Gcm.KeyState.RoundTrip.{decrypt-encrypt, decrypt_envelope-encrypt_envelope}
use hardware_rust_crypto.Gcm.KeyState.Authentic.{
  decrypt-ok_iff, decrypt_to_lem, open_detached-eq-decrypt,
}
use hardware_rust_crypto.Gcm.KeyState.Refused.{Refusal, encrypt_to-refused, decrypt_to-refused}
use hardware_rust_crypto.Gcm.Wipe.{volatile_wipe, volatile_wipe_lem}
use hardware_rust_crypto.Examples.Fixtures.{
  cpu, ready, state, nonce, aad, text, text-IsBytes, replicate-IsBytes, crates, documented,
}

abbrev blank : List ℕ
blank = replicate 163 0

abbrev backend : Backend
backend = record { h_pows = replicate 8 3; y = 1 }

-- The tag of the text itself, read as a ciphertext.
abbrev tag : List ℕ
tag = (gcm_tag-ok cpu state nonce aad text ready (omega arith, omega arith)).0

decrypt-encrypt_example :
    (sealed : List ℕ) × (encrypt cpu state nonce aad text ≡ ok sealed)
    × (length sealed ≡ length text + 16)
    × (decrypt crates cpu state nonce aad sealed ≡ ok text)
decrypt-encrypt_example =
    decrypt-encrypt crates cpu state nonce aad text documented ready refl (omega arith, omega arith)
      text-IsBytes

decrypt-ok_iff_example : (decrypt crates cpu state nonce aad (text ++ replicate 16 9) ≡ ok text) ↔ (
    (gcm_tag cpu state nonce aad text ≡ some (replicate 16 9))
    × (text ≡ crypted cpu state nonce text))
decrypt-ok_iff_example =
    decrypt-ok_iff crates cpu state nonce aad text (replicate 16 9) text documented ready refl
      (omega arith, omega arith) text-IsBytes refl

seal_in_place-eq-two_passes_example :
    seal_in_place cpu state nonce aad text ≡ two_passes cpu state true nonce aad text text
seal_in_place-eq-two_passes_example =
    seal_in_place-eq-two_passes cpu state nonce aad text text-IsBytes

seal-eq-two_passes_example :
    seal cpu state nonce aad text blank ≡ two_passes cpu state true nonce aad text blank
seal-eq-two_passes_example = seal-eq-two_passes cpu state nonce aad text blank text-IsBytes

open_in_place-eq-two_passes_example :
    open_in_place cpu state nonce aad text ≡ two_passes cpu state false nonce aad text text
open_in_place-eq-two_passes_example =
    open_in_place-eq-two_passes cpu state nonce aad text text-IsBytes

open_message-eq-two_passes_example :
    open_message cpu state nonce aad text blank ≡ two_passes cpu state false nonce aad text blank
open_message-eq-two_passes_example =
    open_message-eq-two_passes cpu state nonce aad text blank text-IsBytes

decrypt_envelope-encrypt_envelope_example :
    (sealed : List ℕ) × (encrypt_envelope cpu state nonce aad text ≡ ok sealed)
    × (length sealed ≡ length text + 28)
    × (decrypt_envelope crates cpu state aad sealed ≡ ok text)
decrypt_envelope-encrypt_envelope_example =
    decrypt_envelope-encrypt_envelope crates cpu state nonce aad text documented ready refl
      (omega arith, omega arith) text-IsBytes

open_detached-eq-decrypt_example :
    open_detached crates cpu state nonce aad text (replicate 16 9)
    ≡ decrypt crates cpu state nonce aad (text ++ replicate 16 9)
open_detached-eq-decrypt_example =
    open_detached-eq-decrypt crates cpu state nonce aad text (replicate 16 9) text-IsBytes refl

-- A wrong tag, into a buffer with four bytes to spare.
decrypt_to_lem_example :
    decrypt_to crates cpu state nonce aad (text ++ replicate 16 9) (replicate 167 1) ≡ (
      if not (constant_time_eq crates tag (replicate 16 9))
      then (replicate (length text) 0 ++ drop (length text) (replicate 167 1), err Error.decrypt)
      else (crypted cpu state nonce text ++ drop (length text) (replicate 167 1), ok (length text)))
decrypt_to_lem_example =
    decrypt_to_lem crates cpu state nonce aad text (replicate 16 9) tag (replicate 167 1) documented
      ready refl (omega arith, omega arith) text-IsBytes refl (omega arith)
      (gcm_tag-ok cpu state nonce aad text ready (omega arith, omega arith)).1

-- The tag of the sealed text.
sealed_tag :
    (t : List ℕ) × (gcm_tag cpu state nonce aad (crypted cpu state nonce text) ≡ some t)
    × (length t ≡ 16)
sealed_tag =
    gcm_tag-ok cpu state nonce aad (crypted cpu state nonce text) ready
      (omega arith, omega (arith, length-crypted cpu state nonce text))

encrypt_to_lem_example : encrypt_to cpu state nonce aad text (replicate 181 1) ≡ (
  crypted cpu state nonce text ++ copy_over (drop (length text) (replicate 181 1)) sealed_tag.0,
  ok (length text + 16),
)
encrypt_to_lem_example =
    encrypt_to_lem cpu state ready nonce aad refl text (replicate 181 1) sealed_tag.0
      (omega arith, omega arith) text-IsBytes (omega arith) sealed_tag.1

-- One byte of output too few.
encrypt_to-refused_example :
    encrypt_to cpu state nonce aad text (replicate 178 1)
    ≡ (replicate 178 1, err Error.output_too_small)
encrypt_to-refused_example =
    encrypt_to-refused cpu state nonce aad text (replicate 178 1) Error.output_too_small
      (Refusal.no_room refl (omega arith, omega arith) (omega arith))

decrypt_to-refused_example :
    decrypt_to crates cpu state (5 ∷ []) aad text (replicate 200 1)
    ≡ (replicate 200 1, err Error.invalid_nonce_length)
decrypt_to-refused_example =
    decrypt_to-refused cpu state crates (5 ∷ []) aad text (replicate 200 1)
      Error.invalid_nonce_length (omega arith) (Refusal.bad_nonce (omega arith))

-- Two blocks of one message are two numbers, so the theorem is applied to one number twice.
counter_blocks-distinct_example : (nonce ≡ nonce) × (◌≡◌ {A = ℕ} 7 7)
counter_blocks-distinct_example =
    counter_blocks-distinct nonce nonce 163 200 7 7 refl refl (omega arith) (omega arith)
      (omega arith) (omega arith) refl

-- Forty bytes of a buffer of forty-four, at an aligned address.
volatile_wipe_lem_example :
    volatile_wipe 64 40 (replicate 44 255) ≡ replicate 40 0 ++ drop 40 (replicate 44 255)
volatile_wipe_lem_example = volatile_wipe_lem 64 40 (replicate 44 255) (omega arith)

encrypt8-eq-map_example :
    encrypt8 cpu state.aes (nonce ∷ aad ∷ []) ≡ map (encrypt_block cpu state.aes) (nonce ∷ aad ∷ [])
encrypt8-eq-map_example = encrypt8-eq-map cpu state.aes (nonce ∷ aad ∷ [])

gcm_tag-ok_example : (t : List ℕ) × (gcm_tag cpu state nonce aad text ≡ some t) × (length t ≡ 16)
gcm_tag-ok_example = gcm_tag-ok cpu state nonce aad text ready (omega arith, omega arith)

seal_in_place_tail_blocks_example :
    seal_in_place_tail_blocks cpu backend state.aes.round_keys (j0 nonce) (replicate 96 8) ≡ (
      let w = under cpu state.aes (j0 nonce) (replicate 96 8) 6 in
      record { backend = below_octets reverse backend w; counter = advance 6 (j0 nonce); out = w })
seal_in_place_tail_blocks_example =
    tail_lem cpu state.aes backend (j0 nonce) (replicate 96 8) 6 refl
      (replicate-IsBytes 96 8 (omega arith))
