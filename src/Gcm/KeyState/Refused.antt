-- ===== src/Gcm/KeyState/Refused.antt =====
-- The guards of the calls that write a buffer of the caller's: what is refused leaves no trace.
use hardware_rust_crypto.Prelude.{
  ℕ, ◌+◌, ◌-◌, ◌≤◌, ◌<◌, ◌≡◌, ◌≢◌, ◌⊎◌, refl, List, length, length-take, ge→ltb, lt→ltb, ==_iff,
  arith,
}
use hardware_rust_crypto.Cpu.{Cpu}
use hardware_rust_crypto.Gcm.Crates.{Crates}
use hardware_rust_crypto.Gcm.Error.{
  Error, err, nonce_from_slice, max_gcm_data_len, max_ghash_input_len,
}
use hardware_rust_crypto.Gcm.Seal.{KeyState}
use hardware_rust_crypto.Gcm.KeyState.Encrypt.{encrypt_to, encrypt_envelope_to}
use hardware_rust_crypto.Gcm.KeyState.Decrypt.{decrypt_to, head_of}
use hardware_rust_crypto.Gcm.KeyState.Limits.{
  InLimits, nonce_from_slice-ok, validate_gcm_lengths-ok, validate_gcm_lengths-err, checked_add-ok,
}

-- Why a call on a nonce of `nonce_len` bytes, with AAD and message of these lengths, `extra` bytes
-- of trailer and `room` bytes of output is refused, and with which error.
pub data Refusal (nonce_len aad_len data_len extra room : ℕ) : Error → Type 0 where
  bad_nonce :
      nonce_len ≢ 12 → Refusal nonce_len aad_len data_len extra room Error.invalid_nonce_length
  past_limit :
      nonce_len ≡ 12
      → (max_ghash_input_len < aad_len) ⊎ (max_gcm_data_len < data_len)
      → Refusal nonce_len aad_len data_len extra room Error.input_too_large
  no_room :
      nonce_len ≡ 12
      → InLimits aad_len data_len
      → room < data_len + extra
      → Refusal nonce_len aad_len data_len extra room Error.output_too_small

pub nonce_from_slice-err :
    (nonce : List ℕ) → length nonce ≢ 12 → nonce_from_slice nonce ≡ err Error.invalid_nonce_length
unfolding nonce_from_slice
nonce_from_slice-err nonce h = ground (arith, ==_iff (length nonce) 12)

module _ (cpu : Cpu) (st : KeyState) where
  -- Where the nonce has not 12 bytes, a length is past its limit, or the output has not 16 bytes
  -- more than the plaintext, `encrypt_to` returns the error of the first of these and writes
  -- nothing.
  pub encrypt_to-refused :
      (nonce aad plaintext out : List ℕ) (e : Error)
      → Refusal (length nonce) (length aad) (length plaintext) 16 (length out) e
      → encrypt_to cpu st nonce aad plaintext out ≡ (out, err e)
  unfolding encrypt_to
  encrypt_to-refused nonce aad plaintext out e (bad_nonce h) =
      rw (nonce_from_slice-err nonce h) refl
  encrypt_to-refused nonce aad plaintext out e (past_limit n12 h) =
      rw (nonce_from_slice-ok nonce n12)
        (rw (validate_gcm_lengths-err (length aad) (length plaintext) h) refl)
  encrypt_to-refused nonce aad plaintext out e (no_room n12 k h) =
      rw (nonce_from_slice-ok nonce n12) (
        rw (validate_gcm_lengths-ok (length aad) (length plaintext) k) (
          rw (checked_add-ok (length plaintext) 16 k.1 (omega arith))
            (rw (lt→ltb (length out) (length plaintext + 16) h) refl)))

  -- The same of `encrypt_envelope_to`, whose output takes 28 bytes more than the plaintext.
  pub encrypt_envelope_to-refused :
      (nonce aad plaintext out : List ℕ) (e : Error)
      → Refusal (length nonce) (length aad) (length plaintext) 28 (length out) e
      → encrypt_envelope_to cpu st nonce aad plaintext out ≡ (out, err e)
  unfolding encrypt_envelope_to
  encrypt_envelope_to-refused nonce aad plaintext out e (bad_nonce h) =
      rw (nonce_from_slice-err nonce h) refl
  encrypt_envelope_to-refused nonce aad plaintext out e (past_limit n12 h) =
      rw (nonce_from_slice-ok nonce n12)
        (rw (validate_gcm_lengths-err (length aad) (length plaintext) h) refl)
  encrypt_envelope_to-refused nonce aad plaintext out e (no_room n12 k h) =
      rw (nonce_from_slice-ok nonce n12) (
        rw (validate_gcm_lengths-ok (length aad) (length plaintext) k) (
          rw (checked_add-ok (length plaintext) 28 k.1 (omega arith))
            (rw (lt→ltb (length out) (length plaintext + 28) h) refl)))

  -- `decrypt_to` of a text that holds a tag, with the lengths that it takes from it: the same
  -- errors in the same order, and nothing written.
  pub decrypt_to-refused :
      (crates : Crates) (nonce aad bytes out : List ℕ) (e : Error)
      → 16 ≤ length bytes
      → Refusal (length nonce) (length aad) (length bytes - 16) 0 (length out) e
      → decrypt_to crates cpu st nonce aad bytes out ≡ (out, err e)
  unfolding decrypt_to
  decrypt_to-refused crates nonce aad bytes out e long (bad_nonce h) =
      rw (nonce_from_slice-err nonce h) refl
  decrypt_to-refused crates nonce aad bytes out e long (past_limit n12 h) =
      let n : length (head_of 16 bytes) ≡ length bytes - 16 =
        omega (arith, length-take (length bytes - 16) bytes) in
      rw (nonce_from_slice-ok nonce n12) (
        rw (ge→ltb (length bytes) 16 long)
          (rw n (rw (validate_gcm_lengths-err (length aad) (length bytes - 16) h) refl)))
  decrypt_to-refused crates nonce aad bytes out e long (no_room n12 k h) =
      let n : length (head_of 16 bytes) ≡ length bytes - 16 =
        omega (arith, length-take (length bytes - 16) bytes) in
      rw (nonce_from_slice-ok nonce n12) (
        rw (ge→ltb (length bytes) 16 long) (
          rw n (
            rw (validate_gcm_lengths-ok (length aad) (length bytes - 16) k)
              (rw (lt→ltb (length out) (length bytes - 16) (omega arith)) refl))))
