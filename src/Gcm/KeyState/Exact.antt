-- ===== src/Gcm/KeyState/Exact.antt =====
-- What the calls of `KeyState` return where their guards let them through.
use hardware_rust_crypto.Prelude.{
  ℕ, ◌+◌, ◌-◌, ◌≤◌, ◌≡◌, refl, ap, ◌∙◌, true, not, List, [], ◌++◌, append-nil, some, Option, length,
  take, drop, replicate, IsBytes, length-append, length-replicate, drop-drop, drop_all, take-append,
  drop-append, if◌then◌else◌, ge→ltb, arith,
}
use hardware_rust_crypto.Cpu.{Cpu}
use hardware_rust_crypto.Ghash.Backend.{hardware_available}
use hardware_rust_crypto.Gcm.Crates.{Crates, constant_time_eq}
use hardware_rust_crypto.Gcm.Error.{Error, Result, ok, err, and_then, or_error}
use hardware_rust_crypto.Gcm.Seal.{KeyState}
use hardware_rust_crypto.Gcm.Seal.Passes.{crypted}
use hardware_rust_crypto.Gcm.Seal.Inverse.{
  gcm_tag, seal-ready, seal_in_place-ready, open_in_place-ready,
}
use hardware_rust_crypto.Gcm.KeyState.Encrypt.{
  put_tag, with_trailer, seal_prefix, encrypt_to, encrypt, encrypt_envelope, append_tag_nonce,
  copy_over,
}
use hardware_rust_crypto.Gcm.KeyState.Decrypt.{accept, decrypt, head_of, tail_of}
use hardware_rust_crypto.Gcm.KeyState.Limits.{
  InLimits, nonce_from_slice-ok, validate_gcm_lengths-ok, checked_add-ok,
}

-- What a check of `tag` against the expected tag makes of a plaintext.
abbrev pub checked : Crates → List ℕ → List ℕ → List ℕ → Result (List ℕ)
checked crates expected tag plaintext =
    if not (constant_time_eq crates expected tag) then err Error.decrypt else ok plaintext

put_tag_lem :
    (rest : List ℕ) (total : ℕ) (buffer : List ℕ) {t : Option (List ℕ)} {tag : List ℕ}
    → t ≡ some tag
    → put_tag rest total (record { buffer = buffer; tag = t })
      ≡ (buffer ++ copy_over rest tag, ok total)
unfolding put_tag
put_tag_lem rest total buffer {t} {tag} e =
    ap (λ o. put_tag rest total (record { buffer = buffer; tag = o })) e

with_trailer_lem :
    (nonce buffer : List ℕ) {t : Option (List ℕ)} {tag : List ℕ}
    → t ≡ some tag
    → with_trailer nonce (record { buffer = buffer; tag = t }) ≡ ok (buffer ++ (tag ++ nonce))
unfolding with_trailer append_tag_nonce
with_trailer_lem nonce buffer e =
    ap (λ o. with_trailer nonce (record { buffer = buffer; tag = o })) e

accept_lem :
    (crates : Crates) (cpu : Cpu) (st : KeyState) (tag buffer : List ℕ) {t : Option (List ℕ)}
    {expected : List ℕ}
    → t ≡ some expected
    → accept crates cpu st tag (record { buffer = buffer; tag = t })
      ≡ checked crates expected tag buffer
unfolding accept
accept_lem crates cpu st tag buffer e =
    ap (λ o. accept crates cpu st tag (record { buffer = buffer; tag = o })) e

module _ (cpu : Cpu) (st : KeyState) (ready : hardware_available cpu ≡ true) (nonce aad : List ℕ)
    (n12 : length nonce ≡ 12) where
  seal_prefix_lem :
      (plaintext out tag : List ℕ) (total : ℕ)
      → IsBytes plaintext
      → gcm_tag cpu st nonce aad (crypted cpu st nonce plaintext) ≡ some tag
      → seal_prefix cpu st nonce aad plaintext total out
        ≡ (crypted cpu st nonce plaintext ++ copy_over (drop (length plaintext) out) tag, ok total)
  unfolding seal_prefix
  seal_prefix_lem plaintext out tag total q e =
      let n = length plaintext in
      ap (put_tag (drop n out) total) (seal-ready cpu st ready nonce aad plaintext (take n out) q)
      ∙ put_tag_lem (drop n out) total (crypted cpu st nonce plaintext) e

  -- On a CPU with the instructions, for a 12-byte nonce, lengths within the limits, a plaintext of
  -- bytes and an output with room for it and the tag: the front of the output is the plaintext
  -- under the key stream, then comes the tag of that ciphertext, the bytes behind stay as they
  -- were, and the result is the number of bytes written.
  pub encrypt_to_lem :
      (plaintext out tag : List ℕ)
      → InLimits (length aad) (length plaintext)
      → IsBytes plaintext
      → length plaintext + 16 ≤ length out
      → gcm_tag cpu st nonce aad (crypted cpu st nonce plaintext) ≡ some tag
      → encrypt_to cpu st nonce aad plaintext out ≡ (
        crypted cpu st nonce plaintext ++ copy_over (drop (length plaintext) out) tag,
        ok (length plaintext + 16),
      )
  unfolding encrypt_to
  encrypt_to_lem plaintext out tag k q room e = rw (nonce_from_slice-ok nonce n12) (
      rw (validate_gcm_lengths-ok (length aad) (length plaintext) k) (
        rw (checked_add-ok (length plaintext) 16 k.1 (omega arith)) (
          rw (ge→ltb (length out) (length plaintext + 16) room)
            (seal_prefix_lem plaintext out tag (length plaintext + 16) q e))))

  pub encrypt_lem :
      (plaintext tag : List ℕ)
      → InLimits (length aad) (length plaintext)
      → IsBytes plaintext
      → length tag ≡ 16
      → gcm_tag cpu st nonce aad (crypted cpu st nonce plaintext) ≡ some tag
      → encrypt cpu st nonce aad plaintext ≡ ok (crypted cpu st nonce plaintext ++ tag)
  unfolding encrypt
  encrypt_lem plaintext tag k q t e =
      let n = length plaintext in
      let w = crypted cpu st nonce plaintext in
      let out : List ℕ = replicate (n + 16) 0 in
      let room : n + 16 ≤ length out = omega (arith, length-replicate {A = ℕ} (n + 16) 0) in
      let nothing : drop (length tag) (drop n out) ≡ [] =
        drop-drop n (length tag) (n + 16) out (omega arith)
        ∙ drop_all (n + 16) out (omega (arith, length-replicate {A = ℕ} (n + 16) 0)) in
      let result = λ (run : List ℕ × Result ℕ). and_then run.1 (λ _. ok run.0) in
      ap
        (λ o.
          and_then (or_error o Error.input_too_large)
            (λ total. result (encrypt_to cpu st nonce aad plaintext (replicate total 0))))
        (checked_add-ok n 16 k.1 (omega arith))
      ∙ ap result (encrypt_to_lem plaintext out tag k q room e)
      ∙ ap (λ r. ok (w ++ r)) (ap (◌++◌ tag) nothing ∙ append-nil tag)

  pub encrypt_envelope_lem :
      (plaintext tag : List ℕ)
      → InLimits (length aad) (length plaintext)
      → IsBytes plaintext
      → gcm_tag cpu st nonce aad (crypted cpu st nonce plaintext) ≡ some tag
      → encrypt_envelope cpu st nonce aad plaintext
        ≡ ok (crypted cpu st nonce plaintext ++ (tag ++ nonce))
  unfolding encrypt_envelope append_tag_nonce
  encrypt_envelope_lem plaintext tag k q e = rw (nonce_from_slice-ok nonce n12) (
      rw (validate_gcm_lengths-ok (length aad) (length plaintext) k) (
        rw (checked_add-ok (length plaintext) 28 k.1 (omega arith)) (
          ap (with_trailer nonce) (seal_in_place-ready cpu st ready nonce aad plaintext q)
          ∙ with_trailer_lem nonce (crypted cpu st nonce plaintext) e)))

  module _ (crates : Crates) where
    pub decrypt_lem :
        (ciphertext tag expected : List ℕ)
        → InLimits (length aad) (length ciphertext)
        → IsBytes ciphertext
        → length tag ≡ 16
        → gcm_tag cpu st nonce aad ciphertext ≡ some expected
        → decrypt crates cpu st nonce aad (ciphertext ++ tag)
          ≡ checked crates expected tag (crypted cpu st nonce ciphertext)
    unfolding decrypt
    decrypt_lem ciphertext tag expected k q t e =
        let bytes = ciphertext ++ tag in
        let len : length bytes ≡ length ciphertext + 16 =
          omega (arith, length-append ciphertext tag) in
        let cut : length bytes - 16 ≡ length ciphertext = omega (arith, len) in
        let head : head_of 16 bytes ≡ ciphertext =
          ap (λ n. take n bytes) cut ∙ take-append (length ciphertext) ciphertext tag refl in
        let tail : tail_of 16 bytes ≡ tag =
          ap (λ n. drop n bytes) cut ∙ drop-append (length ciphertext) ciphertext tag refl in
        rw (nonce_from_slice-ok nonce n12) (
          rw (ge→ltb (length bytes) 16 (omega (arith, len))) (
            rw head (
              rw tail (
                rw (validate_gcm_lengths-ok (length aad) (length ciphertext) k) (
                  ap (accept crates cpu st tag)
                    (open_in_place-ready cpu st ready nonce aad ciphertext q)
                  ∙ accept_lem crates cpu st tag (crypted cpu st nonce ciphertext) e)))))
