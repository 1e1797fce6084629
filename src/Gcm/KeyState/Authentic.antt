-- ===== src/Gcm/KeyState/Authentic.antt =====
-- What decryption accepts, and what it leaves in the caller's buffer when it does not.
use hardware_rust_crypto.Prelude.{
  ℕ, ◌-◌, ◌≤◌, ◌≡◌, ◌↔◌, refl, sym, ap, ap₂, ◌∙◌, true, false, not, Bool-cases, inl, inr, List,
  ◌++◌, Option, none, some, length, take, drop, replicate, IsBytes, length-append, take-append,
  drop-append, if◌then◌else◌, ltb, ge→ltb, ==_iff, arith,
}
use std.Path.{fun_ext}
use hardware_rust_crypto.Cpu.{Cpu}
use hardware_rust_crypto.Ghash.Backend.{hardware_available}
use hardware_rust_crypto.Ghash.Hasher.{Ghasher, new as new_ghasher}
use hardware_rust_crypto.Gcm.Crates.{Crates, Documented, constant_time_eq}
use hardware_rust_crypto.Gcm.Error.{
  Error, Result, ok, err, and_then, nonce_from_slice, validate_gcm_lengths,
}
use hardware_rust_crypto.Gcm.Seal.{KeyState, open_message, open_in_place}
use hardware_rust_crypto.Gcm.Seal.Passes.{
  crypted, two_passes_by, open_message-eq-two_passes, open_in_place-eq-two_passes,
}
use hardware_rust_crypto.Gcm.Seal.Inverse.{gcm_tag, length-crypted, open_message-ready}
use hardware_rust_crypto.Gcm.KeyState.Decrypt.{
  accept, accept_or_wipe, decrypt, open_prefix, decrypt_to, open_detached, head_of, tail_of,
}
use hardware_rust_crypto.Gcm.KeyState.Limits.{
  InLimits, gcm_tag-ok, nonce_from_slice-ok, validate_gcm_lengths-ok,
}
use hardware_rust_crypto.Gcm.KeyState.Exact.{checked, decrypt_lem}
use hardware_rust_crypto.Gcm.KeyState.RoundTrip.{checked_refl}

head_of-append :
    (ciphertext tag : List ℕ) → length tag ≡ 16 → head_of 16 (ciphertext ++ tag) ≡ ciphertext
head_of-append c t h =
    let cut : length (c ++ t) - 16 ≡ length c = omega (arith, length-append c t) in
    ap (λ n. take n (c ++ t)) cut ∙ take-append (length c) c t refl

tail_of-append : (ciphertext tag : List ℕ) → length tag ≡ 16 → tail_of 16 (ciphertext ++ tag) ≡ tag
tail_of-append c t h =
    let cut : length (c ++ t) - 16 ≡ length c = omega (arith, length-append c t) in
    ap (λ n. drop n (c ++ t)) cut ∙ drop-append (length c) c t refl

holds_a_tag :
    (ciphertext tag : List ℕ) → length tag ≡ 16 → ltb (length (ciphertext ++ tag)) 16 ≡ false
holds_a_tag c t h = ge→ltb (length (c ++ t)) 16 (omega (arith, length-append c t))

pub ok-injective : {A : Type 0} {a b : A} → ok a ≡ ok b → a ≡ b
ok-injective {A} {a} e = ap (λ r. elim r [ ok x ↦ x | err x ↦ a ]) e

pub some-injective : {A : Type 0} {a b : A} → some a ≡ some b → a ≡ b
some-injective {A} {a} e = ap (λ o. elim o [ some x ↦ x | none ↦ a ]) e

checked-ok :
    (crates : Crates) (expected tag plaintext p : List ℕ)
    → Documented crates
    → checked crates expected tag plaintext ≡ ok p
    → (expected ≡ tag) × (p ≡ plaintext)
unfolding constant_time_eq
checked-ok crates expected tag plaintext p doc e = elim (Bool-cases (crates.ct_eq expected tag)) [
  | inl h ↦ (doc.ct_eq_sound expected tag h, sym (ok-injective (rw h at e)))
  | inr h ↦ absurd (cc (rw h at e))
]

module _ (crates : Crates) (cpu : Cpu) (st : KeyState) where
  -- On a CPU with the instructions, for a 12-byte nonce and lengths within the limits, `decrypt`
  -- accepts a ciphertext and a 16-byte tag exactly where the tag is the one that GHASH and the
  -- mask give that ciphertext, and what it returns is the ciphertext under the key stream.
  pub decrypt-ok_iff :
      (nonce aad ciphertext tag plaintext : List ℕ)
      → Documented crates
      → hardware_available cpu ≡ true
      → length nonce ≡ 12
      → InLimits (length aad) (length ciphertext)
      → IsBytes ciphertext
      → length tag ≡ 16
      → (decrypt crates cpu st nonce aad (ciphertext ++ tag) ≡ ok plaintext) ↔ (
          (gcm_tag cpu st nonce aad ciphertext ≡ some tag)
          × (plaintext ≡ crypted cpu st nonce ciphertext))
  unfolding constant_time_eq
  decrypt-ok_iff nonce aad ciphertext tag plaintext doc ready n12 k q t =
      let expected = gcm_tag-ok cpu st nonce aad ciphertext ready k in
      let w = crypted cpu st nonce ciphertext in
      let run =
        decrypt_lem cpu st ready nonce aad n12 crates ciphertext tag expected.0 k q t expected.1 in
      (
        (λ e.
            let r = checked-ok crates expected.0 tag w plaintext doc (sym run ∙ e) in
            (expected.1 ∙ ap some r.0, r.1)),
        (λ p.
            let same : expected.0 ≡ tag = some-injective (sym expected.1 ∙ p.0) in
            run
            ∙ ap (λ t. checked crates t tag w) same
            ∙ checked_refl crates tag w doc
            ∙ ap ok (sym p.1)),
      )

  -- What `decrypt_to` makes of the front that it opened.
  abbrev delivered : List ℕ → ℕ → List ℕ × Result (Unit {0}) → List ℕ × Result ℕ
  delivered rest n run = (run.0 ++ rest, and_then run.1 (λ _. ok n))

  finish_lem :
      (expected tag w rest zeros : List ℕ) (n : ℕ)
      → crates.zeroize_slice w ≡ zeros
      → delivered rest n
          (accept_or_wipe crates cpu st tag (record { buffer = w; tag = some expected }))
        ≡ (if not (constant_time_eq crates expected tag)
            then (zeros ++ rest, err Error.decrypt)
            else (w ++ rest, ok n))
  unfolding accept_or_wipe
  finish_lem expected tag w rest zeros n wiped =
      elim (Bool-cases (constant_time_eq crates expected tag)) [
        | inl h ↦ rw h refl
        | inr h ↦ rw h (ap (λ z. (z ++ rest, err Error.decrypt)) wiped)
      ]

  open_prefix_lem :
      (nonce aad ciphertext tag expected out : List ℕ)
      → Documented crates
      → hardware_available cpu ≡ true
      → IsBytes ciphertext
      → gcm_tag cpu st nonce aad ciphertext ≡ some expected
      → open_prefix crates cpu st nonce aad ciphertext tag out ≡ (
          if not (constant_time_eq crates expected tag)
          then (replicate (length ciphertext) 0 ++ drop (length ciphertext) out, err Error.decrypt)
          else (
            crypted cpu st nonce ciphertext ++ drop (length ciphertext) out,
            ok (length ciphertext),
          ))
  unfolding open_prefix
  open_prefix_lem nonce aad ciphertext tag expected out doc ready q e =
      let n = length ciphertext in
      let opened = open_message-ready cpu st ready nonce aad ciphertext (take n out) q in
      let finish = delivered (drop n out) n in
      let w = crypted cpu st nonce ciphertext in
      let wiped : crates.zeroize_slice w ≡ replicate n 0 =
        doc.zeroize_slice_fills w
        ∙ ap (λ m. replicate m 0) (length-crypted cpu st nonce ciphertext) in
      ap (λ s. finish (accept_or_wipe crates cpu st tag s)) opened
      ∙ ap (λ t. finish (accept_or_wipe crates cpu st tag (record { buffer = w; tag = t }))) e
      ∙ finish_lem expected tag w (drop n out) (replicate n 0) n wiped

  -- `decrypt_to` with a 16-byte tag and room for the ciphertext.
  pub decrypt_to_lem :
      (nonce aad ciphertext tag expected out : List ℕ)
      → Documented crates
      → hardware_available cpu ≡ true
      → length nonce ≡ 12
      → InLimits (length aad) (length ciphertext)
      → IsBytes ciphertext
      → length tag ≡ 16
      → length ciphertext ≤ length out
      → gcm_tag cpu st nonce aad ciphertext ≡ some expected
      → decrypt_to crates cpu st nonce aad (ciphertext ++ tag) out ≡ (
          if not (constant_time_eq crates expected tag)
          then (replicate (length ciphertext) 0 ++ drop (length ciphertext) out, err Error.decrypt)
          else (
            crypted cpu st nonce ciphertext ++ drop (length ciphertext) out,
            ok (length ciphertext),
          ))
  unfolding decrypt_to
  decrypt_to_lem nonce aad ciphertext tag expected out doc ready n12 k q t room e =
      let n = length ciphertext in
      rw (nonce_from_slice-ok nonce n12) (
        rw (holds_a_tag ciphertext tag t) (
          rw (head_of-append ciphertext tag t) (
            rw (tail_of-append ciphertext tag t) (
              rw (validate_gcm_lengths-ok (length aad) n k) (
                rw (ge→ltb (length out) n room)
                  (open_prefix_lem nonce aad ciphertext tag expected out doc ready q e))))))

  accepts_same :
      (hasher : Option Ghasher) (nonce aad ciphertext tag u v : List ℕ)
      → accept crates cpu st tag (two_passes_by cpu st hasher false nonce aad ciphertext u)
        ≡ accept crates cpu st tag (two_passes_by cpu st hasher false nonce aad ciphertext v)
  unfolding accept
  accepts_same none nonce aad ciphertext tag u v = refl
  accepts_same (some fresh) nonce aad ciphertext tag u v = refl

  accepts_either :
      (nonce aad ciphertext tag : List ℕ)
      → IsBytes ciphertext
      → accept crates cpu st tag
          (open_message cpu st nonce aad ciphertext (replicate (length ciphertext) 0))
        ≡ accept crates cpu st tag (open_in_place cpu st nonce aad ciphertext)
  accepts_either nonce aad ciphertext tag q =
      let fresh : List ℕ = replicate (length ciphertext) 0 in
      ap (accept crates cpu st tag) (open_message-eq-two_passes cpu st nonce aad ciphertext fresh q)
      ∙ accepts_same (new_ghasher cpu st.ghash) nonce aad ciphertext tag fresh ciphertext
      ∙ ap (accept crates cpu st tag)
          (sym (open_in_place-eq-two_passes cpu st nonce aad ciphertext q))

  -- For a ciphertext of bytes and a 16-byte tag the detached call and the combined one agree on
  -- every nonce, length and CPU, errors included.
  pub open_detached-eq-decrypt :
      (nonce aad ciphertext tag : List ℕ)
      → IsBytes ciphertext
      → length tag ≡ 16
      → open_detached crates cpu st nonce aad ciphertext tag
        ≡ decrypt crates cpu st nonce aad (ciphertext ++ tag)
  unfolding open_detached decrypt
  open_detached-eq-decrypt slice aad ciphertext tag q t = ap (and_then (nonce_from_slice slice)) (
      fun_ext λ nonce.
        let inner = λ (c g : List ℕ).
          and_then (validate_gcm_lengths (length aad) (length c))
            (λ _. accept crates cpu st g (open_in_place cpu st nonce aad c)) in
        rw ((==_iff (length tag) 16).1 t) (
          rw (holds_a_tag ciphertext tag t) (
            ap (λ r. and_then (validate_gcm_lengths (length aad) (length ciphertext)) (λ _. r))
              (accepts_either nonce aad ciphertext tag q)
            ∙ sym (ap₂ inner (head_of-append ciphertext tag t) (tail_of-append ciphertext tag t)))))
