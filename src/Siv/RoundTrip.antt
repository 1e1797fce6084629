-- ===== src/Siv/RoundTrip.antt =====
-- `siv_open` of src/aes_gcm/siv.rs on what `siv_seal` wrote.
use hardware_rust_crypto.Prelude.{ℕ, ◌≡◌, sym, ap, ◌∙◌, Bool, true, false, List, Option, none, some}
use hardware_rust_crypto.Cpu.{Cpu}
use hardware_rust_crypto.Aes.{Aes256}
use hardware_rust_crypto.Gcm.Crates.{Crates, Documented, constant_time_eq}
use hardware_rust_crypto.Gcm.Seal.{Sealed}
use hardware_rust_crypto.Siv.Message.{
  derive_keys, build_message_cipher, polyval_digest, siv_tag, set_top, ctr_apply, seal_under,
  open_under, siv_seal, siv_open,
}
use hardware_rust_crypto.Gcm.KeyState.Authentic.{some-injective}
use hardware_rust_crypto.Siv.Stream.{ctr_apply-ctr_apply}

module _ (crates : Crates) (cpu : Cpu) where
  -- `seal_under` and `open_under` from the digest on.
  abbrev pub sealed_by : Aes256 → List ℕ → List ℕ → Option (List ℕ) → Sealed
  sealed_by cipher nonce text digest = elim digest [
    | none ↦ record { buffer = text; tag = none }
    | some d ↦
        let tag = siv_tag cpu cipher nonce d in
        record { buffer = (ctr_apply cpu cipher (set_top tag) text).out; tag = some tag }
  ]

  abbrev pub opened_by : Aes256 → List ℕ → List ℕ → List ℕ → Option (List ℕ) → List ℕ × Bool
  opened_by cipher nonce opened tag digest = elim digest [
    | none ↦ (opened, false)
    | some d ↦ (opened, constant_time_eq crates (siv_tag cpu cipher nonce d) tag)
  ]

  verdict :
      (cipher : Aes256) (nonce text : List ℕ) (digest : Option (List ℕ)) (tag : List ℕ)
      → Documented crates
      → (sealed_by cipher nonce text digest).tag ≡ some tag
      → opened_by cipher nonce text tag digest ≡ (text, true)
  unfolding constant_time_eq
  verdict cipher nonce text none tag doc e = cc
  verdict cipher nonce text (some d) tag doc e =
      ap (λ b. (text, b)) (ap (λ t. crates.ct_eq t tag) (some-injective e) ∙ doc.ct_eq_refl tag)

  buffer_of :
      (cipher : Aes256) (nonce text : List ℕ) (digest : Option (List ℕ)) (tag : List ℕ)
      → (sealed_by cipher nonce text digest).tag ≡ some tag
      → (ctr_apply cpu cipher (set_top tag) (sealed_by cipher nonce text digest).buffer).out ≡ text
  buffer_of cipher nonce text none tag e = cc
  buffer_of cipher nonce text (some d) tag e =
      ap
        (λ t.
          (ctr_apply cpu cipher (set_top t)
            (ctr_apply cpu cipher (set_top (siv_tag cpu cipher nonce d)) text).out).out)
        (sym (some-injective e))
      ∙ ctr_apply-ctr_apply cpu cipher (set_top (siv_tag cpu cipher nonce d)) text

  open_under-seal_under :
      (cipher : Aes256) (auth_key nonce aad text tag : List ℕ)
      → Documented crates
      → (seal_under cpu cipher auth_key nonce aad text).tag ≡ some tag
      → open_under cpu crates cipher auth_key nonce aad
          (seal_under cpu cipher auth_key nonce aad text).buffer
          tag
        ≡ (text, true)
  unfolding seal_under open_under
  open_under-seal_under cipher auth_key nonce aad text tag doc e =
      let digest = polyval_digest cpu auth_key aad text in
      let same = buffer_of cipher nonce text digest tag e in
      ap (λ t. opened_by cipher nonce t tag (polyval_digest cpu auth_key aad t)) same
      ∙ verdict cipher nonce text digest tag doc e

  abbrev pub sealing_with : Option Aes256 → List ℕ → List ℕ → List ℕ → List ℕ → Sealed
  sealing_with cipher auth_key nonce aad text = elim cipher [
    | none ↦ record { buffer = text; tag = none }
    | some c ↦ seal_under cpu c auth_key nonce aad text
  ]

  abbrev pub opening_with :
      Option Aes256 → List ℕ → List ℕ → List ℕ → List ℕ → List ℕ → List ℕ × Bool
  opening_with cipher auth_key nonce aad text tag = elim cipher [
    | none ↦ (text, false)
    | some c ↦ open_under cpu crates c auth_key nonce aad text tag
  ]

  with_cipher :
      (cipher : Option Aes256) (auth_key nonce aad text tag : List ℕ)
      → Documented crates
      → (sealing_with cipher auth_key nonce aad text).tag ≡ some tag
      → opening_with cipher auth_key nonce aad
          (sealing_with cipher auth_key nonce aad text).buffer
          tag
        ≡ (text, true)
  with_cipher none auth_key nonce aad text tag doc e = cc
  with_cipher (some c) auth_key nonce aad text tag doc e =
      open_under-seal_under c auth_key nonce aad text tag doc e

  -- Whenever `siv_seal` returns a tag, `siv_open` of the buffer that it left, with that tag and
  -- the same master key, nonce and AAD, gives the text back and accepts it.
  pub siv_open-siv_seal :
      (master : Aes256) (nonce aad text tag : List ℕ)
      → Documented crates
      → (siv_seal cpu master nonce aad text).tag ≡ some tag
      → siv_open cpu crates master nonce aad (siv_seal cpu master nonce aad text).buffer tag
        ≡ (text, true)
  unfolding siv_seal siv_open
  siv_open-siv_seal master nonce aad text tag doc e =
      let keys = derive_keys cpu master nonce in
      with_cipher (build_message_cipher cpu keys.enc_key) keys.auth_key nonce aad text tag doc e
