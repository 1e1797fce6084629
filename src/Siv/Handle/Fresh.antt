-- ===== src/Siv/Handle/Fresh.antt =====
-- The public calls of `HardwareAes256GcmSiv` of src/aes_gcm/siv.rs under generated nonces.
use hardware_rust_crypto.Prelude.{
  ℕ, ◌+◌, ◌≤◌, ◌≡◌, ap, subst, ◌∙◌, true, List, Option, none, some, length,
}
use hardware_rust_crypto.Cpu.{Cpu}
use hardware_rust_crypto.Aes.{hardware_available as aes_available}
use hardware_rust_crypto.Ghash.Backend.{hardware_available as ghash_available}
use hardware_rust_crypto.Gcm.Crates.{Crates, Documented}
use hardware_rust_crypto.Gcm.Error.{Result, ok, err, and_then}
use hardware_rust_crypto.Gcm.Handle.{Platform}
use hardware_rust_crypto.Gcm.Handle.Fresh.{TwelveBytes, next-TwelveBytes}
use hardware_rust_crypto.Gcm.Nonce.{NonceGen, new as new_nonce_gen}
use hardware_rust_crypto.Siv.KeyState.{max_siv_len, encrypt_envelope}
use hardware_rust_crypto.Siv.KeyState.RoundTrip.{siv_decrypt_envelope-encrypt_envelope}
use hardware_rust_crypto.Siv.Handle.{Handle, step_gen, next_nonce, encrypt, decrypt}

made-TwelveBytes :
    (platform : Platform) (r : Result NonceGen)
    → TwelveBytes
        (elim r as (λ x. Option NonceGen × Result (List ℕ)) [
          | err e ↦ (none, err e)
          | ok gen ↦ step_gen platform gen
        ]).1
unfolding step_gen
made-TwelveBytes platform (err e) = tt
made-TwelveBytes platform (ok gen) =
    next-TwelveBytes platform.process platform.for_fork platform.for_wrap gen

next_nonce-TwelveBytes :
    (platform : Platform) (gen : Option NonceGen) → TwelveBytes (next_nonce platform gen).1
unfolding next_nonce step_gen
next_nonce-TwelveBytes platform (some gen) =
    next-TwelveBytes platform.process platform.for_fork platform.for_wrap gen
next_nonce-TwelveBytes platform none =
    made-TwelveBytes platform (new_nonce_gen platform.process platform.for_new)

-- Whenever the handle has a nonce to give, on a CPU with both sets of instructions and for
-- lengths of at most 2^36, GCM-SIV's `encrypt` succeeds with 28 bytes more than the plaintext,
-- and the handle that it leaves decrypts the result to the plaintext.
pub siv_handle-decrypt-encrypt :
    (crates : Crates) (cpu : Cpu) (platform : Platform) (h : Handle) (nonce aad text : List ℕ)
    → Documented crates
    → aes_available cpu ≡ true
    → ghash_available cpu ≡ true
    → (next_nonce platform h.nonce_gen).1 ≡ ok nonce
    → length aad ≤ max_siv_len
    → length text ≤ max_siv_len
    → (let call = encrypt crates cpu platform h aad text in
        (sealed : List ℕ) × (call.1 ≡ ok sealed)
        × (length sealed ≡ length text + 28)
        × (decrypt crates cpu call.0 aad sealed ≡ ok text))
unfolding encrypt decrypt
siv_handle-decrypt-encrypt crates cpu platform h nonce aad text doc aes_ready ready e ha ht =
    let n12 : length nonce ≡ 12 =
      subst TwelveBytes e (next_nonce-TwelveBytes platform h.nonce_gen) in
    let trip =
      siv_decrypt_envelope-encrypt_envelope crates cpu h.state nonce aad text doc aes_ready ready
        n12 ha ht in
    (
      trip.0,
      ap (λ r. and_then r (λ n. encrypt_envelope crates cpu h.state n aad text)) e ∙ trip.1,
      trip.2,
      trip.3,
    )
