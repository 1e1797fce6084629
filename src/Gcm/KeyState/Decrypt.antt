-- ===== src/Gcm/KeyState/Decrypt.antt =====
-- The decrypting calls of `KeyState` in src/aes_gcm/mod.rs.
use hardware_rust_crypto.Prelude.{
  ℕ, ◌+◌, ◌-◌, List, ◌++◌, none, some, not, length, take, drop, replicate, ltb, ◌==◌, if◌then◌else◌,
}
use hardware_rust_crypto.Cpu.{Cpu}
use hardware_rust_crypto.Gcm.Counter.{nonce_size, tag_size}
use hardware_rust_crypto.Gcm.Crates.{Crates, constant_time_eq}
use hardware_rust_crypto.Gcm.Error.{
  Error, Result, ok, err, Writes, pure, ◌>>=◌, ◌>>◌, and_then, nonce_from_slice,
  validate_gcm_lengths,
}
use hardware_rust_crypto.Gcm.Seal.{KeyState, Sealed, open_message, open_in_place}

-- `data.split_at(data.len() - n)`.
abbrev pub head_of : ℕ → List ℕ → List ℕ
head_of n bytes = take (length bytes - n) bytes

abbrev pub tail_of : ℕ → List ℕ → List ℕ
tail_of n bytes = drop (length bytes - n) bytes

module _ (crates : Crates) (cpu : Cpu) (st : KeyState) where
  -- The plaintext of a vector of the call's own, if the tag is right.
  unfoldable pub accept : List ℕ → Sealed → Result (List ℕ)
  unfolding constant_time_eq
  accept tag opened = elim opened.tag [
    | none ↦ err Error.decrypt
    | some expected ↦
        if not (constant_time_eq crates expected tag) then err Error.decrypt else ok opened.buffer
  ]

  -- The same in a buffer of the caller's, which is wiped if the tag is wrong.
  unfoldable pub accept_or_wipe : List ℕ → Sealed → List ℕ × Result (Unit {0})
  unfolding constant_time_eq
  accept_or_wipe tag opened = elim opened.tag [
    | none ↦ (crates.zeroize_slice opened.buffer, err Error.decrypt)
    | some expected ↦
        if not (constant_time_eq crates expected tag)
        then (crates.zeroize_slice opened.buffer, err Error.decrypt)
        else (opened.buffer, ok tt)
  ]

  unfoldable pub decrypt : List ℕ → List ℕ → List ℕ → Result (List ℕ)
  unfolding nonce_from_slice validate_gcm_lengths accept
  decrypt slice aad bytes = and_then (nonce_from_slice slice) (λ nonce.
      if ltb (length bytes) tag_size
      then err Error.decrypt
      else and_then (validate_gcm_lengths (length aad) (length (head_of tag_size bytes))) (λ _.
        accept (tail_of tag_size bytes) (open_in_place cpu st nonce aad (head_of tag_size bytes))))

  -- `open` into the front of the caller's slice.
  unfoldable pub open_prefix : List ℕ → List ℕ → List ℕ → List ℕ → Writes ℕ
  unfolding accept_or_wipe
  open_prefix nonce aad ciphertext tag out =
      let n = length ciphertext in
      let run = accept_or_wipe tag (open_message cpu st nonce aad ciphertext (take n out)) in
      (run.0 ++ drop n out, and_then run.1 (λ _. ok n))

  unfoldable pub decrypt_to : List ℕ → List ℕ → List ℕ → Writes ℕ
  unfolding nonce_from_slice validate_gcm_lengths open_prefix
  decrypt_to slice aad bytes = pure (nonce_from_slice slice) >>= λ nonce. λ out.
      if ltb (length bytes) tag_size
      then (out, err Error.decrypt)
      else (pure (validate_gcm_lengths (length aad) (length (head_of tag_size bytes))) >> λ buffer.
            if ltb (length buffer) (length (head_of tag_size bytes))
            then (buffer, err Error.output_too_small)
            else open_prefix nonce aad (head_of tag_size bytes) (tail_of tag_size bytes) buffer)
          out

  unfoldable pub decrypt_envelope : List ℕ → List ℕ → Result (List ℕ)
  unfolding decrypt
  decrypt_envelope aad bytes =
      if ltb (length bytes) (tag_size + nonce_size)
      then err Error.ciphertext_too_short
      else decrypt (tail_of nonce_size bytes) aad (head_of nonce_size bytes)

  unfoldable pub decrypt_envelope_to : List ℕ → List ℕ → Writes ℕ
  unfolding decrypt_to
  decrypt_envelope_to aad bytes out =
      if ltb (length bytes) (tag_size + nonce_size)
      then (out, err Error.ciphertext_too_short)
      else decrypt_to (tail_of nonce_size bytes) aad (head_of nonce_size bytes) out

  unfoldable pub open_detached : List ℕ → List ℕ → List ℕ → List ℕ → Result (List ℕ)
  unfolding nonce_from_slice validate_gcm_lengths accept
  open_detached slice aad ciphertext tag = and_then (nonce_from_slice slice) (λ nonce.
      if not (length tag == tag_size)
      then err Error.decrypt
      else and_then (validate_gcm_lengths (length aad) (length ciphertext)) (λ _.
        accept tag (open_message cpu st nonce aad ciphertext (replicate (length ciphertext) 0))))

  unfoldable pub open_in_place_detached : List ℕ → List ℕ → List ℕ → Writes (Unit {0})
  unfolding nonce_from_slice validate_gcm_lengths accept_or_wipe
  open_in_place_detached slice aad tag in_out =
      (pure (nonce_from_slice slice) >>= λ nonce. λ out.
          if not (length tag == tag_size)
          then (out, err Error.decrypt)
          else (pure (validate_gcm_lengths (length aad) (length out)) >> λ buffer.
                accept_or_wipe tag (open_in_place cpu st nonce aad buffer))
              out)
        in_out
