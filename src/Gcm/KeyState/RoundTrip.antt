-- ===== src/Gcm/KeyState/RoundTrip.antt =====
-- Decrypting what was encrypted.
use hardware_rust_crypto.Prelude.{
  ℕ, ◌+◌, ◌-◌, ◌≡◌, refl, sym, ap, ◌∙◌, true, some, ◌≤◌, List, ◌++◌, append_assoc, length, take,
  drop, IsBytes, length-append, take-append, drop-append, ge→ltb, arith,
}
use hardware_rust_crypto.Cpu.{Cpu}
use hardware_rust_crypto.Ghash.Backend.{hardware_available}
use hardware_rust_crypto.Gcm.Crates.{Crates, Documented, constant_time_eq}
use hardware_rust_crypto.Gcm.Error.{ok}
use hardware_rust_crypto.Gcm.Seal.{KeyState}
use hardware_rust_crypto.Gcm.Seal.Passes.{crypted}
use hardware_rust_crypto.Gcm.Seal.Inverse.{
  gcm_tag, length-crypted, crypted-IsBytes, crypted-crypted,
}
use hardware_rust_crypto.Gcm.KeyState.Encrypt.{encrypt, encrypt_envelope}
use hardware_rust_crypto.Gcm.KeyState.Decrypt.{decrypt, decrypt_envelope, head_of, tail_of}
use hardware_rust_crypto.Gcm.KeyState.Limits.{InLimits, gcm_tag-ok}
use hardware_rust_crypto.Gcm.KeyState.Exact.{
  checked, encrypt_lem, encrypt_envelope_lem, decrypt_lem,
}

pub checked_refl :
    (crates : Crates) (tag plaintext : List ℕ)
    → Documented crates
    → checked crates tag tag plaintext ≡ ok plaintext
unfolding constant_time_eq
checked_refl crates tag plaintext doc = rw (doc.ct_eq_refl tag) refl

module _ (crates : Crates) (cpu : Cpu) (st : KeyState) where
  -- A text of bytes under its own tag is accepted.
  decrypt-own_tag :
      (nonce aad plaintext tag : List ℕ)
      → Documented crates
      → hardware_available cpu ≡ true
      → length nonce ≡ 12
      → InLimits (length aad) (length plaintext)
      → IsBytes plaintext
      → length tag ≡ 16
      → gcm_tag cpu st nonce aad (crypted cpu st nonce plaintext) ≡ some tag
      → decrypt crates cpu st nonce aad (crypted cpu st nonce plaintext ++ tag) ≡ ok plaintext
  decrypt-own_tag nonce aad plaintext tag doc ready n12 k q t e =
      let w = crypted cpu st nonce plaintext in
      decrypt_lem cpu st ready nonce aad n12 crates w tag tag
        (k.0, omega (arith, length-crypted cpu st nonce plaintext, k.1))
        (crypted-IsBytes cpu st nonce plaintext q) t e
      ∙ checked_refl crates tag (crypted cpu st nonce w) doc
      ∙ ap ok (crypted-crypted cpu st nonce plaintext)

  -- On a CPU with the instructions, for a 12-byte nonce, lengths within the limits and a
  -- plaintext of bytes, `encrypt` succeeds with 16 bytes more than the plaintext, and `decrypt`
  -- under the same nonce and AAD gives the plaintext back.
  pub decrypt-encrypt :
      (nonce aad plaintext : List ℕ)
      → Documented crates
      → hardware_available cpu ≡ true
      → length nonce ≡ 12
      → InLimits (length aad) (length plaintext)
      → IsBytes plaintext
      → (sealed : List ℕ) × (encrypt cpu st nonce aad plaintext ≡ ok sealed)
        × (length sealed ≡ length plaintext + 16)
        × (decrypt crates cpu st nonce aad sealed ≡ ok plaintext)
  decrypt-encrypt nonce aad plaintext doc ready n12 k q =
      let w = crypted cpu st nonce plaintext in
      let len = length-crypted cpu st nonce plaintext in
      let tag = gcm_tag-ok cpu st nonce aad w ready (k.0, omega (arith, len, k.1)) in
      (
        w ++ tag.0,
        encrypt_lem cpu st ready nonce aad n12 plaintext tag.0 k q tag.2 tag.1,
        omega (arith, length-append w tag.0, len, tag.2),
        decrypt-own_tag nonce aad plaintext tag.0 doc ready n12 k q tag.2 tag.1,
      )

  -- The parts of an envelope.
  decrypt_envelope_parts :
      (aad text nonce : List ℕ)
      → length nonce ≡ 12
      → 16 ≤ length text
      → decrypt_envelope crates cpu st aad (text ++ nonce) ≡ decrypt crates cpu st nonce aad text
  unfolding decrypt_envelope
  decrypt_envelope_parts aad text nonce n12 long =
      let bytes = text ++ nonce in
      let len : length bytes ≡ length text + 12 = omega (arith, length-append text nonce) in
      let cut : length bytes - 12 ≡ length text = omega (arith, len) in
      let head : head_of 12 bytes ≡ text =
        ap (λ n. take n bytes) cut ∙ take-append (length text) text nonce refl in
      let tail : tail_of 12 bytes ≡ nonce =
        ap (λ n. drop n bytes) cut ∙ drop-append (length text) text nonce refl in
      rw (ge→ltb (length bytes) 28 (omega (arith, len))) (rw head (rw tail refl))

  -- The same for envelopes: `encrypt_envelope` succeeds with 28 bytes more than the plaintext,
  -- and `decrypt_envelope` under the same AAD, with no nonce given, gives the plaintext back.
  pub decrypt_envelope-encrypt_envelope :
      (nonce aad plaintext : List ℕ)
      → Documented crates
      → hardware_available cpu ≡ true
      → length nonce ≡ 12
      → InLimits (length aad) (length plaintext)
      → IsBytes plaintext
      → (sealed : List ℕ) × (encrypt_envelope cpu st nonce aad plaintext ≡ ok sealed)
        × (length sealed ≡ length plaintext + 28)
        × (decrypt_envelope crates cpu st aad sealed ≡ ok plaintext)
  decrypt_envelope-encrypt_envelope nonce aad plaintext doc ready n12 k q =
      let w = crypted cpu st nonce plaintext in
      let len = length-crypted cpu st nonce plaintext in
      let tag = gcm_tag-ok cpu st nonce aad w ready (k.0, omega (arith, len, k.1)) in
      let text_len : length (w ++ tag.0) ≡ length plaintext + 16 =
        omega (arith, length-append w tag.0, len, tag.2) in
      (
        (w ++ tag.0) ++ nonce,
        encrypt_envelope_lem cpu st ready nonce aad n12 plaintext tag.0 k q tag.1
            ∙ ap ok (sym (append_assoc w tag.0 nonce)),
        omega (arith, length-append (w ++ tag.0) nonce, text_len, n12),
        decrypt_envelope_parts aad (w ++ tag.0) nonce n12 (omega (arith, text_len))
            ∙ decrypt-own_tag nonce aad plaintext tag.0 doc ready n12 k q tag.2 tag.1,
      )
