-- ===== src/Siv/KeyState/RoundTrip.antt =====
-- Decrypting what `SivKeyState` of src/aes_gcm/siv.rs encrypted.
use hardware_rust_crypto.Prelude.{
  ℕ, ◌+◌, ◌-◌, ◌≤◌, ◌≡◌, refl, sym, ap, ◌∙◌, true, List, ◌++◌, none, some, length, take, drop,
  append_assoc, length-append, take-append, drop-append, length-xor_bytes, ge→ltb, arith,
}
use hardware_rust_crypto.Cpu.{Cpu}
use hardware_rust_crypto.Aes.{Aes256, hardware_available as aes_available}
use hardware_rust_crypto.Ghash.Backend.{hardware_available as ghash_available}
use hardware_rust_crypto.Gcm.Crates.{Crates, Documented}
use hardware_rust_crypto.Gcm.Error.{Result, Error, ok, err}
use hardware_rust_crypto.Gcm.Seal.{Sealed}
use hardware_rust_crypto.Gcm.KeyState.Encrypt.{with_trailer}
use hardware_rust_crypto.Gcm.KeyState.Decrypt.{head_of, tail_of}
use hardware_rust_crypto.Gcm.KeyState.Limits.{nonce_from_slice-ok, checked_add-fits}
use hardware_rust_crypto.Siv.Message.{
  derive_keys, build_message_cipher, polyval_digest, siv_tag, set_top, ctr_apply, seal_under,
  siv_seal, siv_open,
}
use hardware_rust_crypto.Siv.Stream.{ctr_apply_lem}
use hardware_rust_crypto.Siv.Total.{siv_open-siv_seal_total}
use hardware_rust_crypto.Siv.KeyState.{
  SivKeyState, max_siv_len, encrypt_envelope, decrypt, decrypt_envelope,
}
use hardware_rust_crypto.Siv.KeyState.Refused.{validate_siv_lengths-ok}

with_trailer-some :
    (nonce : List ℕ) (done : Sealed) (tag : List ℕ)
    → done.tag ≡ some tag
    → with_trailer nonce done ≡ ok ((done.buffer ++ tag) ++ nonce)
unfolding with_trailer
with_trailer-some nonce done tag e =
    (λ i. elim (e i) as (λ o. Result (List ℕ)) [
      | none ↦ err Error.encrypt
      | some t ↦ ok (done.buffer ++ (t ++ nonce))
    ])
    ∙ ap ok (sym (append_assoc done.buffer tag nonce))

split_off :
    (n : ℕ) (front back : List ℕ)
    → length back ≡ n
    → (head_of n (front ++ back) ≡ front) × (tail_of n (front ++ back) ≡ back)
split_off n front back e =
    let bytes = front ++ back in
    let cut : length bytes - n ≡ length front = omega (arith, length-append front back) in
    (
      ap (λ k. take k bytes) cut ∙ take-append (length front) front back refl,
      ap (λ k. drop k bytes) cut ∙ drop-append (length front) front back refl,
    )

module _ (cpu : Cpu) where
  length-seal_under :
      (cipher : Aes256) (auth_key nonce aad text : List ℕ)
      → length (seal_under cpu cipher auth_key nonce aad text).buffer ≡ length text
  unfolding seal_under
  length-seal_under cipher auth_key nonce aad text =
      elim (polyval_digest cpu auth_key aad text)
        as (λ o.
          length
            (elim o as (λ _. Sealed) [
              | none ↦ record { buffer = text; tag = none }
              | some digest ↦
                  let tag = siv_tag cpu cipher nonce digest in
                  record { buffer = (ctr_apply cpu cipher (set_top tag) text).out; tag = some tag }
            ]).buffer
          ≡ length text) [
            | none ↦ refl
            | some digest ↦
                ap length
                  (ctr_apply_lem cpu cipher (set_top (siv_tag cpu cipher nonce digest)) text)
                ∙ length-xor_bytes text _
          ]

  length-siv_seal :
      (master : Aes256) (nonce aad text : List ℕ)
      → length (siv_seal cpu master nonce aad text).buffer ≡ length text
  unfolding siv_seal
  length-siv_seal master nonce aad text =
      let keys = derive_keys cpu master nonce in
      elim (build_message_cipher cpu keys.enc_key)
        as (λ o.
          length
            (elim o as (λ _. Sealed) [
              | none ↦ record { buffer = text; tag = none }
              | some cipher ↦ seal_under cpu cipher keys.auth_key nonce aad text
            ]).buffer
          ≡ length text) [
            | none ↦ refl
            | some cipher ↦ length-seal_under cipher keys.auth_key nonce aad text
          ]

module _ (crates : Crates) (cpu : Cpu) (st : SivKeyState) where
  encrypt_envelope_ok :
      (nonce aad text tag : List ℕ)
      → length nonce ≡ 12
      → length aad ≤ max_siv_len
      → length text ≤ max_siv_len
      → (siv_seal cpu st.master nonce aad text).tag ≡ some tag
      → encrypt_envelope crates cpu st nonce aad text
        ≡ ok (((siv_seal cpu st.master nonce aad text).buffer ++ tag) ++ nonce)
  unfolding encrypt_envelope
  encrypt_envelope_ok nonce aad text tag n12 ha ht e = rw (nonce_from_slice-ok nonce n12) (
      rw (validate_siv_lengths-ok (length aad) (length text) ha ht) (
        rw (checked_add-fits (length text) 28 (omega arith))
          (with_trailer-some nonce (siv_seal cpu st.master nonce aad text) tag e)))

  decrypt_ok :
      (nonce aad text tag plain : List ℕ)
      → length nonce ≡ 12
      → length aad ≤ max_siv_len
      → length text ≤ max_siv_len
      → length tag ≡ 16
      → siv_open cpu crates st.master nonce aad text tag ≡ (plain, true)
      → decrypt crates cpu st nonce aad (text ++ tag) ≡ ok plain
  unfolding decrypt
  decrypt_ok nonce aad text tag plain n12 ha ht t16 e =
      let parts = split_off 16 text tag t16 in
      rw (nonce_from_slice-ok nonce n12) (
        rw (ge→ltb (length (text ++ tag)) 16 (omega (arith, length-append text tag))) (
          rw parts.0 (
            rw parts.1
              (rw (validate_siv_lengths-ok (length aad) (length text) ha ht) (rw e refl)))))

  decrypt_envelope_parts :
      (aad text nonce : List ℕ)
      → length nonce ≡ 12
      → 16 ≤ length text
      → decrypt_envelope crates cpu st aad (text ++ nonce) ≡ decrypt crates cpu st nonce aad text
  unfolding decrypt_envelope
  decrypt_envelope_parts aad text nonce n12 long =
      let parts = split_off 12 text nonce n12 in
      rw (ge→ltb (length (text ++ nonce)) 28 (omega (arith, length-append text nonce)))
        (rw parts.0 (rw parts.1 refl))

  -- On a CPU with both sets of instructions, for a 12-byte nonce and lengths of at most 2^36,
  -- GCM-SIV's `encrypt_envelope` succeeds with 28 bytes more than the plaintext, and its
  -- `decrypt_envelope` under the same AAD, with no nonce given, gives the plaintext back.
  pub siv_decrypt_envelope-encrypt_envelope :
      (nonce aad text : List ℕ)
      → Documented crates
      → aes_available cpu ≡ true
      → ghash_available cpu ≡ true
      → length nonce ≡ 12
      → length aad ≤ max_siv_len
      → length text ≤ max_siv_len
      → (sealed : List ℕ) × (encrypt_envelope crates cpu st nonce aad text ≡ ok sealed)
        × (length sealed ≡ length text + 28)
        × (decrypt_envelope crates cpu st aad sealed ≡ ok text)
  siv_decrypt_envelope-encrypt_envelope nonce aad text doc aes_ready ready n12 ha ht =
      let s =
        siv_open-siv_seal_total cpu ready crates st.master nonce aad text doc aes_ready
          (omega arith) (omega arith) in
      let body = (siv_seal cpu st.master nonce aad text).buffer in
      let len = length-siv_seal cpu st.master nonce aad text in
      let text_len : length (body ++ s.0) ≡ length text + 16 =
        omega (arith, length-append body s.0, len, s.2) in
      (
        (body ++ s.0) ++ nonce,
        encrypt_envelope_ok nonce aad text s.0 n12 ha ht s.1,
        omega (arith, length-append (body ++ s.0) nonce, text_len, n12),
        decrypt_envelope_parts aad (body ++ s.0) nonce n12 (omega (arith, text_len))
            ∙ decrypt_ok nonce aad body s.0 text n12 ha (omega (arith, len)) s.2 s.3,
      )
