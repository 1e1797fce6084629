-- ===== src/Siv/Handle.antt =====
-- `HardwareAes256GcmSiv` of src/aes_gcm/siv.rs: a key state and, once a nonce was asked for, a
-- nonce generator. `HardwareAes256GcmSivKeyState` and the handle in the caller's storage have the
-- same methods.
pub mod Fresh
use hardware_rust_crypto.Prelude.{ℕ, List, [], Option, none, some, not, length, ◌==◌, if◌then◌else◌}
use hardware_rust_crypto.Cpu.{Cpu}
use hardware_rust_crypto.Gcm.Crates.{Crates}
use hardware_rust_crypto.Gcm.Error.{Error, Result, ok, err, Writes, and_then}
use hardware_rust_crypto.Gcm.Handle.{Platform}
use hardware_rust_crypto.Gcm.Nonce.{NonceGen, new as new_nonce_gen, next}
use hardware_rust_crypto.Siv.KeyState as Keyed
use hardware_rust_crypto.Siv.KeyState.{SivKeyState}

pub record Handle : Type 0 where
  pub state : SivKeyState
  pub nonce_gen : Option NonceGen

-- `init_siv_key_state_at`: the length of the key first.
unfoldable pub init_siv_key_state_at : Cpu → List ℕ → Result SivKeyState
unfolding Keyed.init_in_place
init_siv_key_state_at cpu key =
    if not (length key == 32) then err Error.invalid_key_length else Keyed.init_in_place cpu key

unfoldable pub new : Cpu → List ℕ → Result Handle
unfolding init_siv_key_state_at
new cpu key =
    and_then (init_siv_key_state_at cpu key)
      (λ state. ok (record { state = state; nonce_gen = none }))

unfoldable pub step_gen : Platform → NonceGen → Option NonceGen × Result (List ℕ)
unfolding next
step_gen platform gen =
    let call = next platform.process platform.for_fork platform.for_wrap gen in
    (some call.0, call.1)

-- What a call of `next_nonce` leaves in the field `nonce_gen`, and the nonce.
unfoldable pub next_nonce : Platform → Option NonceGen → Option NonceGen × Result (List ℕ)
unfolding step_gen new_nonce_gen
next_nonce platform (some gen) = step_gen platform gen
next_nonce platform none = elim (new_nonce_gen platform.process platform.for_new) [
  | err e ↦ (none, err e)
  | ok gen ↦ step_gen platform gen
]

-- A call under the next nonce, if there is one; the handle keeps the generator's step either way.
abbrev pub with_nonce :
    {A : Type 0}
    → Handle
    → (List ℕ → Result A)
    → Option NonceGen × Result (List ℕ)
    → Handle × Result A
with_nonce h f (gen, r) = (record h { nonce_gen = gen }, and_then r f)

abbrev pub with_nonce_to :
    Handle
    → (List ℕ → Writes ℕ)
    → Option NonceGen × Result (List ℕ)
    → List ℕ
    → Handle × (List ℕ × Result ℕ)
with_nonce_to h f (gen, ok nonce) out = (record h { nonce_gen = gen }, f nonce out)
with_nonce_to h f (gen, err e) out = (record h { nonce_gen = gen }, (out, err e))

module _ (crates : Crates) (cpu : Cpu) where
  unfoldable pub encrypt : Platform → Handle → List ℕ → List ℕ → Handle × Result (List ℕ)
  unfolding next_nonce Keyed.encrypt_envelope
  encrypt platform h aad plaintext =
      with_nonce h (λ nonce. Keyed.encrypt_envelope crates cpu h.state nonce aad plaintext)
        (next_nonce platform h.nonce_gen)

  unfoldable pub encrypt_to :
      Platform → Handle → List ℕ → List ℕ → List ℕ → Handle × (List ℕ × Result ℕ)
  unfolding next_nonce Keyed.encrypt_envelope_to
  encrypt_to platform h aad plaintext =
      with_nonce_to h (λ nonce. Keyed.encrypt_envelope_to crates cpu h.state nonce aad plaintext)
        (next_nonce platform h.nonce_gen)

  unfoldable pub encrypt_with_generated_nonce :
      Platform → Handle → List ℕ → List ℕ → Handle × Result (List ℕ × List ℕ)
  unfolding next_nonce Keyed.encrypt
  encrypt_with_generated_nonce platform h aad plaintext =
      with_nonce h
        (λ nonce.
          and_then (Keyed.encrypt crates cpu h.state nonce aad plaintext)
            (λ ciphertext. ok (nonce, ciphertext)))
        (next_nonce platform h.nonce_gen)

  unfoldable pub encrypt_nonce_appended_generated :
      Platform → Handle → List ℕ → Handle × Result (List ℕ)
  unfolding next_nonce Keyed.encrypt_nonce_appended
  encrypt_nonce_appended_generated platform h plaintext =
      with_nonce h (λ nonce. Keyed.encrypt_nonce_appended crates cpu h.state nonce plaintext)
        (next_nonce platform h.nonce_gen)

  unfoldable pub decrypt : Handle → List ℕ → List ℕ → Result (List ℕ)
  unfolding Keyed.decrypt_envelope
  decrypt h aad sealed = Keyed.decrypt_envelope crates cpu h.state aad sealed

  unfoldable pub decrypt_to : Handle → List ℕ → List ℕ → Writes ℕ
  unfolding Keyed.decrypt_envelope_to
  decrypt_to h aad sealed = Keyed.decrypt_envelope_to crates cpu h.state aad sealed

  -- The calls under a nonce of the caller's.
  unfoldable pub encrypt_with_nonce : Handle → List ℕ → List ℕ → List ℕ → Result (List ℕ)
  unfolding Keyed.encrypt
  encrypt_with_nonce h nonce aad plaintext = Keyed.encrypt crates cpu h.state nonce aad plaintext

  unfoldable pub encrypt_with_nonce_to : Handle → List ℕ → List ℕ → List ℕ → Writes ℕ
  unfolding Keyed.encrypt_to
  encrypt_with_nonce_to h nonce aad plaintext =
      Keyed.encrypt_to crates cpu h.state nonce aad plaintext

  unfoldable pub decrypt_with_nonce : Handle → List ℕ → List ℕ → List ℕ → Result (List ℕ)
  unfolding Keyed.decrypt
  decrypt_with_nonce h nonce aad sealed = Keyed.decrypt crates cpu h.state nonce aad sealed

  unfoldable pub decrypt_with_nonce_to : Handle → List ℕ → List ℕ → List ℕ → Writes ℕ
  unfolding Keyed.decrypt_to
  decrypt_with_nonce_to h nonce aad sealed = Keyed.decrypt_to crates cpu h.state nonce aad sealed

  unfoldable pub encrypt_nonce_appended : Handle → List ℕ → List ℕ → Result (List ℕ)
  unfolding Keyed.encrypt_nonce_appended
  encrypt_nonce_appended h nonce plaintext =
      Keyed.encrypt_nonce_appended crates cpu h.state nonce plaintext

  unfoldable pub encrypt_nonce_appended_in_place : Handle → List ℕ → Writes (Unit {0})
  unfolding Keyed.encrypt_nonce_appended_in_place
  encrypt_nonce_appended_in_place h nonce =
      Keyed.encrypt_nonce_appended_in_place crates cpu h.state nonce

  unfoldable pub encrypt_nonce_appended_to : Handle → List ℕ → List ℕ → Writes ℕ
  unfolding Keyed.encrypt_nonce_appended_to
  encrypt_nonce_appended_to h nonce plaintext =
      Keyed.encrypt_nonce_appended_to crates cpu h.state nonce plaintext

  unfoldable pub decrypt_nonce_appended : Handle → List ℕ → Result (List ℕ)
  unfolding Keyed.decrypt_envelope
  decrypt_nonce_appended h sealed = Keyed.decrypt_envelope crates cpu h.state [] sealed

  unfoldable pub decrypt_nonce_appended_to : Handle → List ℕ → Writes ℕ
  unfolding Keyed.decrypt_envelope_to
  decrypt_nonce_appended_to h sealed = Keyed.decrypt_envelope_to crates cpu h.state [] sealed
