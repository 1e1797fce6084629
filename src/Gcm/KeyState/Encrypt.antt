-- ===== src/Gcm/KeyState/Encrypt.antt =====
-- The encrypting calls of `KeyState` in src/aes_gcm/mod.rs.
use hardware_rust_crypto.Prelude.{
  ℕ, ◌+◌, List, [], ◌++◌, none, some, length, take, drop, replicate, ltb, if◌then◌else◌,
}
use hardware_rust_crypto.Cpu.{Cpu}
use hardware_rust_crypto.Gcm.Counter.{nonce_size, tag_size}
use hardware_rust_crypto.Gcm.Crates.{Crates}
use hardware_rust_crypto.Gcm.Error.{
  Error, Result, ok, err, Writes, pure, ◌>>=◌, ◌>>◌, or_error, and_then, checked_add,
  nonce_from_slice, validate_gcm_lengths,
}
use hardware_rust_crypto.Gcm.Seal.{KeyState, Sealed, seal, seal_in_place}

-- `len.checked_add(extra).ok_or(Error::InputTooLarge)`.
abbrev pub total_of : ℕ → ℕ → Result ℕ
total_of len extra = or_error (checked_add len extra) Error.input_too_large

-- The trailer behind the ciphertext.
unfoldable pub append_tag_nonce : List ℕ → List ℕ → List ℕ → List ℕ
append_tag_nonce out tag nonce = out ++ (tag ++ nonce)

-- A write at the front of a slice.
abbrev pub copy_over : List ℕ → List ℕ → List ℕ
copy_over out bytes = bytes ++ drop (length bytes) out

-- What `encrypt_to` makes of a sealed front and the bytes behind it.
unfoldable pub put_tag : List ℕ → ℕ → Sealed → List ℕ × Result ℕ
put_tag rest total done = elim done.tag [
  | none ↦ (done.buffer ++ rest, err Error.encrypt)
  | some tag ↦ (done.buffer ++ copy_over rest tag, ok total)
]

-- What `encrypt_envelope` and `seal_detached` make of a sealed text.
unfoldable pub with_trailer : List ℕ → Sealed → Result (List ℕ)
unfolding append_tag_nonce
with_trailer nonce done = elim done.tag [
  | none ↦ err Error.encrypt
  | some tag ↦ ok (append_tag_nonce done.buffer tag nonce)
]

unfoldable pub in_parts : Sealed → Result (List ℕ × List ℕ)
in_parts done = elim done.tag [ none ↦ err Error.encrypt | some tag ↦ ok (done.buffer, tag) ]

-- A call on `&mut out[..len]`, and then the nonce in the bytes behind it.
unfoldable pub then_nonce : ℕ → ℕ → List ℕ → Writes ℕ → Writes ℕ
then_nonce len total nonce call out =
    let run = call (take len out) in
    elim run.1 [
      | ok written ↦ (run.0 ++ copy_over (drop len out) nonce, ok total)
      | err e ↦ (run.0 ++ drop len out, err e)
    ]

module _ (cpu : Cpu) (st : KeyState) where
  unfoldable pub seal_prefix : List ℕ → List ℕ → List ℕ → ℕ → Writes ℕ
  unfolding put_tag
  seal_prefix nonce aad plaintext total out =
      let n = length plaintext in
      put_tag (drop n out) total (seal cpu st nonce aad plaintext (take n out))

  unfoldable pub encrypt_to : List ℕ → List ℕ → List ℕ → Writes ℕ
  unfolding nonce_from_slice validate_gcm_lengths checked_add seal_prefix
  encrypt_to slice aad plaintext = pure (nonce_from_slice slice) >>= λ nonce.
      pure (validate_gcm_lengths (length aad) (length plaintext))
      >> (pure (total_of (length plaintext) tag_size) >>= λ total. λ out.
          if ltb (length out) total
          then (out, err Error.output_too_small)
          else seal_prefix nonce aad plaintext total out)

  unfoldable pub encrypt : List ℕ → List ℕ → List ℕ → Result (List ℕ)
  unfolding encrypt_to checked_add
  encrypt nonce aad plaintext = and_then (total_of (length plaintext) tag_size) (λ total.
      let run = encrypt_to nonce aad plaintext (replicate total 0) in
      and_then run.1 (λ _. ok run.0))

  unfoldable pub encrypt_envelope : List ℕ → List ℕ → List ℕ → Result (List ℕ)
  unfolding nonce_from_slice validate_gcm_lengths checked_add with_trailer
  encrypt_envelope slice aad plaintext = and_then (nonce_from_slice slice) (λ nonce.
      and_then (validate_gcm_lengths (length aad) (length plaintext)) (λ _.
        and_then (total_of (length plaintext) (tag_size + nonce_size))
          (λ total. with_trailer nonce (seal_in_place cpu st nonce aad plaintext))))

  unfoldable pub encrypt_nonce_appended : List ℕ → List ℕ → Result (List ℕ)
  unfolding encrypt_envelope
  encrypt_nonce_appended nonce plaintext = encrypt_envelope nonce [] plaintext

  unfoldable pub encrypt_envelope_to : List ℕ → List ℕ → List ℕ → Writes ℕ
  unfolding nonce_from_slice validate_gcm_lengths checked_add encrypt_to then_nonce
  encrypt_envelope_to slice aad plaintext = pure (nonce_from_slice slice) >>= λ nonce.
      pure (validate_gcm_lengths (length aad) (length plaintext))
      >> (pure (total_of (length plaintext) (tag_size + nonce_size)) >>= λ total. λ out.
          if ltb (length out) total
          then (out, err Error.output_too_small)
          else then_nonce (length plaintext + tag_size) total nonce (encrypt_to nonce aad plaintext)
              out)

  -- `encrypt_nonce_appended_to` beside `KeyState`: the nonce lands behind what was written.
  unfoldable pub encrypt_nonce_appended_to : List ℕ → List ℕ → Writes ℕ
  unfolding checked_add encrypt_to
  encrypt_nonce_appended_to nonce plaintext =
      pure (total_of (length plaintext) (tag_size + nonce_size)) >>= λ total. λ out.
        if ltb (length out) total
        then (out, err Error.output_too_small)
        else ((encrypt_to nonce [] plaintext >>= λ written.
              λ buffer. (take written buffer ++ copy_over (drop written buffer) nonce, ok total))
            out)

  unfoldable pub seal_detached : List ℕ → List ℕ → List ℕ → Result (List ℕ × List ℕ)
  unfolding nonce_from_slice validate_gcm_lengths in_parts
  seal_detached slice aad plaintext = and_then (nonce_from_slice slice) (λ nonce.
      and_then (validate_gcm_lengths (length aad) (length plaintext))
        (λ _. in_parts (seal cpu st nonce aad plaintext (replicate (length plaintext) 0))))

module _ (crates : Crates) where
  -- What `seal_in_place` leaves in the caller's vector.
  unfoldable pub append_or_clear : List ℕ → Sealed → List ℕ × Result (Unit {0})
  unfolding append_tag_nonce
  append_or_clear nonce done = elim done.tag [
    | none ↦ (crates.zeroize_vec done.buffer, err Error.encrypt)
    | some tag ↦ (append_tag_nonce done.buffer tag nonce, ok tt)
  ]

  unfoldable pub keep_or_wipe : Sealed → List ℕ × Result (List ℕ)
  keep_or_wipe done = elim done.tag [
    | none ↦ (crates.zeroize_slice done.buffer, err Error.encrypt)
    | some tag ↦ (done.buffer, ok tag)
  ]

module _ (crates : Crates) (cpu : Cpu) (st : KeyState) where
  unfoldable pub encrypt_nonce_appended_in_place : List ℕ → Writes (Unit {0})
  unfolding nonce_from_slice validate_gcm_lengths checked_add append_or_clear
  encrypt_nonce_appended_in_place slice in_out =
      (pure (nonce_from_slice slice) >>= λ nonce.
      pure (validate_gcm_lengths 0 (length in_out))
      >> (pure (total_of (length in_out) (tag_size + nonce_size)) >>= λ total.
          λ buffer. append_or_clear crates nonce (seal_in_place cpu st nonce [] buffer)))
        in_out

  unfoldable pub seal_in_place_detached : List ℕ → List ℕ → Writes (List ℕ)
  unfolding nonce_from_slice validate_gcm_lengths keep_or_wipe
  seal_in_place_detached slice aad in_out =
      (pure (nonce_from_slice slice) >>= λ nonce.
      pure (validate_gcm_lengths (length aad) (length in_out)) >> λ buffer.
      keep_or_wipe crates (seal_in_place cpu st nonce aad buffer))
        in_out
