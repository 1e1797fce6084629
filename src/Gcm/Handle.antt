-- ===== src/Gcm/Handle.antt =====
-- `HardwareAes256Gcm` of src/aes_gcm/mod.rs: a key state and, once a nonce was asked for, a nonce
-- generator. `HardwareAes256GcmIn` and `HardwareAes256GcmKeyState` have the same methods over
-- storage of the caller's or of their own.
pub mod Fresh
use hardware_rust_crypto.Prelude.{ℕ, List, [], Option, none, some, not, length, ◌==◌, if◌then◌else◌}
use hardware_rust_crypto.Cpu.{Cpu}
use hardware_rust_crypto.Gcm.Crates.{Crates}
use hardware_rust_crypto.Gcm.Error.{Error, Result, ok, err, Writes, and_then}
use hardware_rust_crypto.Gcm.Seal.{KeyState}
use hardware_rust_crypto.Gcm.KeyState.{init_in_place}
use hardware_rust_crypto.Gcm.KeyState.Encrypt as Sealing
use hardware_rust_crypto.Gcm.KeyState.Decrypt as Opening
use hardware_rust_crypto.Gcm.Nonce.{Process, Entropy, NonceGen, new as new_nonce_gen, next}

pub record Handle : Type 0 where
  pub state : KeyState
  pub nonce_gen : Option NonceGen

-- What the platform answers during a call: the process it runs in, and what the OS gives to the
-- generator's first salt, to one after a fork and to one after a wrap.
pub record Platform : Type 0 where
  pub process : Process
  pub for_new : Entropy
  pub for_fork : Entropy
  pub for_wrap : Entropy

-- `init_key_state_at`: the length of the key first.
unfoldable pub init_key_state_at : Cpu → List ℕ → Result KeyState
unfolding init_in_place
init_key_state_at cpu key =
    if not (length key == 32) then err Error.invalid_key_length else init_in_place cpu key

unfoldable pub new : Cpu → List ℕ → Result Handle
unfolding init_key_state_at
new cpu key =
    and_then (init_key_state_at cpu key) (λ state. ok (record { state = state; nonce_gen = none }))

unfoldable pub step_gen : Platform → Handle → NonceGen → Handle × Result (List ℕ)
unfolding next
step_gen platform h gen =
    let call = next platform.process platform.for_fork platform.for_wrap gen in
    (record h { nonce_gen = some call.0 }, call.1)

-- The generator is made when it is first needed; if that fails there is still none.
unfoldable pub next_nonce : Platform → Handle → Handle × Result (List ℕ)
unfolding step_gen new_nonce_gen
next_nonce platform h = elim h.nonce_gen [
  | some gen ↦ step_gen platform h gen
  | none ↦ elim (new_nonce_gen platform.process platform.for_new) [
    | err e ↦ (h, err e)
    | ok gen ↦ step_gen platform h gen
  ]
]

-- A call under the next nonce, if there is one; the handle keeps the generator's step either way.
abbrev pub with_nonce :
    {A : Type 0} → (KeyState → List ℕ → Result A) → Handle × Result (List ℕ) → Handle × Result A
with_nonce f (h, r) = (h, and_then r (f h.state))

abbrev pub with_nonce_to :
    (KeyState → List ℕ → Writes ℕ)
    → Handle × Result (List ℕ)
    → List ℕ
    → Handle × (List ℕ × Result ℕ)
with_nonce_to f (h, ok nonce) out = (h, f h.state nonce out)
with_nonce_to f (h, err e) out = (h, (out, err e))

module _ (cpu : Cpu) where
  unfoldable pub encrypt : Platform → Handle → List ℕ → List ℕ → Handle × Result (List ℕ)
  unfolding next_nonce Sealing.encrypt_envelope
  encrypt platform h aad plaintext =
      with_nonce (λ state nonce. Sealing.encrypt_envelope cpu state nonce aad plaintext)
        (next_nonce platform h)

  unfoldable pub encrypt_to :
      Platform → Handle → List ℕ → List ℕ → List ℕ → Handle × (List ℕ × Result ℕ)
  unfolding next_nonce Sealing.encrypt_envelope_to
  encrypt_to platform h aad plaintext =
      with_nonce_to (λ state nonce. Sealing.encrypt_envelope_to cpu state nonce aad plaintext)
        (next_nonce platform h)

  unfoldable pub encrypt_with_generated_nonce :
      Platform → Handle → List ℕ → List ℕ → Handle × Result (List ℕ × List ℕ)
  unfolding next_nonce Sealing.encrypt
  encrypt_with_generated_nonce platform h aad plaintext =
      with_nonce
        (λ state nonce.
          and_then (Sealing.encrypt cpu state nonce aad plaintext)
            (λ ciphertext. ok (nonce, ciphertext)))
        (next_nonce platform h)

  unfoldable pub encrypt_nonce_appended_generated :
      Platform → Handle → List ℕ → Handle × Result (List ℕ)
  unfolding next_nonce Sealing.encrypt_nonce_appended
  encrypt_nonce_appended_generated platform h plaintext =
      with_nonce (λ state nonce. Sealing.encrypt_nonce_appended cpu state nonce plaintext)
        (next_nonce platform h)

  unfoldable pub decrypt : Crates → Handle → List ℕ → List ℕ → Result (List ℕ)
  unfolding Opening.decrypt_envelope
  decrypt crates h aad sealed = Opening.decrypt_envelope crates cpu h.state aad sealed

  unfoldable pub decrypt_to : Crates → Handle → List ℕ → List ℕ → Writes ℕ
  unfolding Opening.decrypt_envelope_to
  decrypt_to crates h aad sealed = Opening.decrypt_envelope_to crates cpu h.state aad sealed

  -- The calls under a nonce of the caller's.
  unfoldable pub encrypt_with_nonce : Handle → List ℕ → List ℕ → List ℕ → Result (List ℕ)
  unfolding Sealing.encrypt
  encrypt_with_nonce h nonce aad plaintext = Sealing.encrypt cpu h.state nonce aad plaintext

  unfoldable pub encrypt_with_nonce_to : Handle → List ℕ → List ℕ → List ℕ → Writes ℕ
  unfolding Sealing.encrypt_to
  encrypt_with_nonce_to h nonce aad plaintext = Sealing.encrypt_to cpu h.state nonce aad plaintext

  unfoldable pub decrypt_with_nonce : Crates → Handle → List ℕ → List ℕ → List ℕ → Result (List ℕ)
  unfolding Opening.decrypt
  decrypt_with_nonce crates h nonce aad sealed = Opening.decrypt crates cpu h.state nonce aad sealed

  unfoldable pub decrypt_with_nonce_to : Crates → Handle → List ℕ → List ℕ → List ℕ → Writes ℕ
  unfolding Opening.decrypt_to
  decrypt_with_nonce_to crates h nonce aad sealed =
      Opening.decrypt_to crates cpu h.state nonce aad sealed

  unfoldable pub encrypt_nonce_appended : Handle → List ℕ → List ℕ → Result (List ℕ)
  unfolding Sealing.encrypt_nonce_appended
  encrypt_nonce_appended h nonce plaintext =
      Sealing.encrypt_nonce_appended cpu h.state nonce plaintext

  unfoldable pub encrypt_nonce_appended_in_place : Crates → Handle → List ℕ → Writes (Unit {0})
  unfolding Sealing.encrypt_nonce_appended_in_place
  encrypt_nonce_appended_in_place crates h nonce =
      Sealing.encrypt_nonce_appended_in_place crates cpu h.state nonce

  unfoldable pub encrypt_nonce_appended_to : Handle → List ℕ → List ℕ → Writes ℕ
  unfolding Sealing.encrypt_nonce_appended_to
  encrypt_nonce_appended_to h nonce plaintext =
      Sealing.encrypt_nonce_appended_to cpu h.state nonce plaintext

  unfoldable pub decrypt_nonce_appended : Crates → Handle → List ℕ → Result (List ℕ)
  unfolding Opening.decrypt_envelope
  decrypt_nonce_appended crates h sealed = Opening.decrypt_envelope crates cpu h.state [] sealed

  unfoldable pub decrypt_nonce_appended_to : Crates → Handle → List ℕ → Writes ℕ
  unfolding Opening.decrypt_envelope_to
  decrypt_nonce_appended_to crates h sealed =
      Opening.decrypt_envelope_to crates cpu h.state [] sealed
