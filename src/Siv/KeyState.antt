-- ===== src/Siv/KeyState.antt =====
-- `SivKeyState` of src/aes_gcm/siv.rs and the helpers of its calls.
pub mod Refused
pub mod RoundTrip
use hardware_rust_crypto.Prelude.{
  ℕ, ◌+◌, ◌-◌, ◌^◌, Bool, true, false, ◌&&◌, ◌||◌, not, List, [], ◌++◌, Option, none, some, length,
  take, drop, replicate, ltb, leb, if◌then◌else◌,
}
use hardware_rust_crypto.Cpu.{Cpu}
use hardware_rust_crypto.Aes.{
  Aes256, hardware_available as aes_available, init_in_place as init_aes,
}
use hardware_rust_crypto.Ghash.Backend.{hardware_available as ghash_available}
use hardware_rust_crypto.Gcm.Counter.{nonce_size, tag_size}
use hardware_rust_crypto.Gcm.Crates.{Crates}
use hardware_rust_crypto.Gcm.Error.{
  Error, Result, ok, err, Writes, pure, ◌>>=◌, ◌>>◌, or_error, and_then, checked_add,
  nonce_from_slice,
}
use hardware_rust_crypto.Gcm.Seal.{Sealed}
use hardware_rust_crypto.Gcm.KeyState.Encrypt.{
  total_of, copy_over, with_trailer, append_or_clear, then_nonce,
}
use hardware_rust_crypto.Gcm.KeyState.Decrypt.{head_of, tail_of}
use hardware_rust_crypto.Siv.Message.{siv_seal, siv_open}

pub record SivKeyState : Type 0 where
  pub master : Aes256

abbrev pub max_siv_len : ℕ
max_siv_len = 2 ^ 36

unfoldable pub len_exceeds_siv_limit : ℕ → Bool
len_exceeds_siv_limit len = if leb (2 ^ 64) len then true else ltb max_siv_len len

unfoldable pub validate_siv_lengths : ℕ → ℕ → Result (Unit {0})
unfolding len_exceeds_siv_limit
validate_siv_lengths aad_len data_len =
    if len_exceeds_siv_limit aad_len || len_exceeds_siv_limit data_len
    then err Error.input_too_large
    else ok tt

unfoldable pub split_ciphertext_tag : List ℕ → Result (List ℕ × List ℕ)
split_ciphertext_tag input =
    if ltb (length input) tag_size
    then err Error.decrypt
    else ok (head_of tag_size input, tail_of tag_size input)

unfoldable pub split_trailing_nonce : List ℕ → Result (List ℕ × List ℕ)
split_trailing_nonce input =
    if ltb (length input) (tag_size + nonce_size)
    then err Error.ciphertext_too_short
    else ok (head_of nonce_size input, tail_of nonce_size input)

unfoldable pub init_in_place : Cpu → List ℕ → Result SivKeyState
init_in_place cpu key =
    if not (aes_available cpu && ghash_available cpu)
    then err Error.unsupported_cpu
    else and_then (or_error (init_aes cpu key) Error.unsupported_cpu)
        (λ aes. ok (record { master = aes }))

module _ (crates : Crates) where
  -- The sealed front of an output, or its wiped front.
  unfoldable pub put_or_wipe : List ℕ → ℕ → Sealed → List ℕ × Result ℕ
  put_or_wipe rest total done = elim done.tag [
    | none ↦ (crates.zeroize_slice done.buffer ++ rest, err Error.encrypt)
    | some tag ↦ (done.buffer ++ copy_over rest tag, ok total)
  ]

  -- The verdict of `siv_open` on the front of the caller's slice, which is wiped on a no.
  unfoldable pub deliver : ℕ → List ℕ → List ℕ × Bool → List ℕ × Result ℕ
  deliver n rest run =
      if run.1
      then (run.0 ++ rest, ok n)
      else (crates.zeroize_slice run.0 ++ rest, err Error.decrypt)

module _ (crates : Crates) (cpu : Cpu) (st : SivKeyState) where
  unfoldable pub encrypt_to : List ℕ → List ℕ → List ℕ → Writes ℕ
  unfolding nonce_from_slice validate_siv_lengths checked_add put_or_wipe siv_seal
  encrypt_to slice aad plaintext = pure (nonce_from_slice slice) >>= λ nonce.
      pure (validate_siv_lengths (length aad) (length plaintext))
      >> (pure (total_of (length plaintext) tag_size) >>= λ total. λ out.
          if ltb (length out) total
          then (out, err Error.output_too_small)
          else put_or_wipe crates (drop (length plaintext) out) total
              (siv_seal cpu st.master nonce aad plaintext))

  unfoldable pub encrypt : List ℕ → List ℕ → List ℕ → Result (List ℕ)
  unfolding encrypt_to checked_add
  encrypt nonce aad plaintext = and_then (total_of (length plaintext) tag_size) (λ total.
      let run = encrypt_to nonce aad plaintext (replicate total 0) in
      and_then run.1 (λ _. ok run.0))

  unfoldable pub encrypt_envelope : List ℕ → List ℕ → List ℕ → Result (List ℕ)
  unfolding nonce_from_slice validate_siv_lengths checked_add with_trailer siv_seal
  encrypt_envelope slice aad plaintext = and_then (nonce_from_slice slice) (λ nonce.
      and_then (validate_siv_lengths (length aad) (length plaintext)) (λ _.
        and_then (total_of (length plaintext) (tag_size + nonce_size))
          (λ total. with_trailer nonce (siv_seal cpu st.master nonce aad plaintext))))

  unfoldable pub encrypt_nonce_appended : List ℕ → List ℕ → Result (List ℕ)
  unfolding encrypt_envelope
  encrypt_nonce_appended nonce plaintext = encrypt_envelope nonce [] plaintext

  unfoldable pub encrypt_envelope_to : List ℕ → List ℕ → List ℕ → Writes ℕ
  unfolding nonce_from_slice validate_siv_lengths checked_add encrypt_to then_nonce
  encrypt_envelope_to slice aad plaintext = pure (nonce_from_slice slice) >>= λ nonce.
      pure (validate_siv_lengths (length aad) (length plaintext))
      >> (pure (total_of (length plaintext) (tag_size + nonce_size)) >>= λ total. λ out.
          if ltb (length out) total
          then (out, err Error.output_too_small)
          else then_nonce (length plaintext + tag_size) total nonce (encrypt_to nonce aad plaintext)
              out)

  -- `encrypt_nonce_appended_to` beside `SivKeyState`: the nonce lands behind what was written.
  unfoldable pub encrypt_nonce_appended_to : List ℕ → List ℕ → Writes ℕ
  unfolding checked_add encrypt_to
  encrypt_nonce_appended_to nonce plaintext =
      pure (total_of (length plaintext) (tag_size + nonce_size)) >>= λ total. λ out.
        if ltb (length out) total
        then (out, err Error.output_too_small)
        else ((encrypt_to nonce [] plaintext >>= λ written.
              λ buffer. (take written buffer ++ copy_over (drop written buffer) nonce, ok total))
            out)

  -- The verdict of `siv_open` on a vector of the call's own.
  unfoldable pub decrypt : List ℕ → List ℕ → List ℕ → Result (List ℕ)
  unfolding nonce_from_slice validate_siv_lengths split_ciphertext_tag siv_open
  decrypt slice aad bytes = and_then (nonce_from_slice slice) (λ nonce.
      and_then (split_ciphertext_tag bytes) (λ parts.
        and_then (validate_siv_lengths (length aad) (length parts.0)) (λ _.
          let run = siv_open cpu crates st.master nonce aad parts.0 parts.1 in
          if run.1 then ok run.0 else err Error.decrypt)))

  unfoldable pub decrypt_to : List ℕ → List ℕ → List ℕ → Writes ℕ
  unfolding nonce_from_slice validate_siv_lengths split_ciphertext_tag siv_open deliver
  decrypt_to slice aad bytes = pure (nonce_from_slice slice) >>= λ nonce.
      pure (split_ciphertext_tag bytes) >>= λ parts.
      pure (validate_siv_lengths (length aad) (length parts.0)) >> λ out.
      if ltb (length out) (length parts.0)
      then (out, err Error.output_too_small)
      else deliver crates (length parts.0) (drop (length parts.0) out)
          (siv_open cpu crates st.master nonce aad parts.0 parts.1)

  unfoldable pub decrypt_envelope : List ℕ → List ℕ → Result (List ℕ)
  unfolding decrypt split_trailing_nonce
  decrypt_envelope aad bytes =
      and_then (split_trailing_nonce bytes) (λ parts. decrypt parts.1 aad parts.0)

  unfoldable pub decrypt_envelope_to : List ℕ → List ℕ → Writes ℕ
  unfolding decrypt_to split_trailing_nonce
  decrypt_envelope_to aad bytes =
      pure (split_trailing_nonce bytes) >>= λ parts. decrypt_to parts.1 aad parts.0

  unfoldable pub encrypt_nonce_appended_in_place : List ℕ → Writes (Unit {0})
  unfolding nonce_from_slice validate_siv_lengths checked_add append_or_clear siv_seal
  encrypt_nonce_appended_in_place slice in_out =
      (pure (nonce_from_slice slice) >>= λ nonce.
      pure (validate_siv_lengths 0 (length in_out))
      >> (pure (total_of (length in_out) (tag_size + nonce_size)) >>= λ total.
          λ buffer. append_or_clear crates nonce (siv_seal cpu st.master nonce [] buffer)))
        in_out
