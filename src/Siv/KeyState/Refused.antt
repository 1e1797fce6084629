-- ===== src/Siv/KeyState/Refused.antt =====
-- The guards of `SivKeyState`: what is refused leaves no trace.
use hardware_rust_crypto.Prelude.{
  ℕ, ◌+◌, ◌^◌, ◌≤◌, ◌<◌, ◌≡◌, ◌≢◌, ◌⊎◌, inl, inr, refl, true, false, List, length, leb, lt→ltb,
  ge→ltb, gt→leb, Bool-cases, arith,
}
use hardware_rust_crypto.Cpu.{Cpu}
use hardware_rust_crypto.Gcm.Crates.{Crates}
use hardware_rust_crypto.Gcm.Error.{Error, ok, err}
use hardware_rust_crypto.Gcm.KeyState.Limits.{nonce_from_slice-ok, checked_add-fits}
use hardware_rust_crypto.Gcm.KeyState.Refused.{nonce_from_slice-err}
use hardware_rust_crypto.Siv.KeyState.{
  SivKeyState, max_siv_len, len_exceeds_siv_limit, validate_siv_lengths, encrypt_to,
}

len_exceeds_siv_limit-true : (len : ℕ) → max_siv_len < len → len_exceeds_siv_limit len ≡ true
unfolding len_exceeds_siv_limit
len_exceeds_siv_limit-true len h = elim (Bool-cases (leb (2 ^ 64) len)) [
  | inl e ↦ rw e refl
  | inr e ↦ rw e (lt→ltb max_siv_len len h)
]

len_exceeds_siv_limit-false : (len : ℕ) → len ≤ max_siv_len → len_exceeds_siv_limit len ≡ false
unfolding len_exceeds_siv_limit
len_exceeds_siv_limit-false len h =
    rw (gt→leb (2 ^ 64) len (omega arith)) (ge→ltb max_siv_len len h)

-- Why a sealing call on a nonce, AAD and message of these lengths and `room` bytes of output is
-- refused, and with which error.
pub data SivRefusal (nonce_len aad_len data_len room : ℕ) : Error → Type 0 where
  bad_nonce : nonce_len ≢ 12 → SivRefusal nonce_len aad_len data_len room Error.invalid_nonce_length
  past_limit :
      nonce_len ≡ 12
      → (max_siv_len < aad_len) ⊎ (max_siv_len < data_len)
      → SivRefusal nonce_len aad_len data_len room Error.input_too_large
  no_room :
      nonce_len ≡ 12
      → aad_len ≤ max_siv_len
      → data_len ≤ max_siv_len
      → room < data_len + 16
      → SivRefusal nonce_len aad_len data_len room Error.output_too_small

validate_siv_lengths-err :
    (aad_len data_len : ℕ)
    → (max_siv_len < aad_len) ⊎ (max_siv_len < data_len)
    → validate_siv_lengths aad_len data_len ≡ err Error.input_too_large
unfolding validate_siv_lengths
validate_siv_lengths-err a d (inl h) = rw (len_exceeds_siv_limit-true a h) refl
validate_siv_lengths-err a d (inr h) =
    rw (len_exceeds_siv_limit-true d h)
      (elim (Bool-cases (len_exceeds_siv_limit a)) [ inl e ↦ rw e refl | inr e ↦ rw e refl ])

pub validate_siv_lengths-ok :
    (aad_len data_len : ℕ)
    → aad_len ≤ max_siv_len
    → data_len ≤ max_siv_len
    → validate_siv_lengths aad_len data_len ≡ ok tt
unfolding validate_siv_lengths
validate_siv_lengths-ok a d h k =
    rw (len_exceeds_siv_limit-false a h) (rw (len_exceeds_siv_limit-false d k) refl)

-- Where the nonce has not 12 bytes, a length is past 2^36, or the output has not 16 bytes more
-- than the plaintext, GCM-SIV's `encrypt_to` returns the error of the first of these and writes
-- nothing.
pub siv_encrypt_to-refused :
    (crates : Crates) (cpu : Cpu) (st : SivKeyState) (nonce aad plaintext out : List ℕ) (e : Error)
    → SivRefusal (length nonce) (length aad) (length plaintext) (length out) e
    → encrypt_to crates cpu st nonce aad plaintext out ≡ (out, err e)
unfolding encrypt_to
siv_encrypt_to-refused crates cpu st nonce aad plaintext out e (bad_nonce h) =
    rw (nonce_from_slice-err nonce h) refl
siv_encrypt_to-refused crates cpu st nonce aad plaintext out e (past_limit n12 h) =
    rw (nonce_from_slice-ok nonce n12)
      (rw (validate_siv_lengths-err (length aad) (length plaintext) h) refl)
siv_encrypt_to-refused crates cpu st nonce aad plaintext out e (no_room n12 h k few) =
    rw (nonce_from_slice-ok nonce n12) (
      rw (validate_siv_lengths-ok (length aad) (length plaintext) h k) (
        rw (checked_add-fits (length plaintext) 16 (omega arith))
          (rw (lt→ltb (length out) (length plaintext + 16) few) refl)))
