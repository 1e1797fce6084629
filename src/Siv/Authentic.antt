-- ===== src/Siv/Authentic.antt =====
-- What `siv_open` of src/aes_gcm/siv.rs accepts.
use hardware_rust_crypto.Prelude.{ℕ, ◌≡◌, refl, sym, ap, ◌∙◌, true, List, Option, none, some}
use hardware_rust_crypto.Cpu.{Cpu}
use hardware_rust_crypto.Aes.{Aes256}
use hardware_rust_crypto.Gcm.Crates.{Crates, Documented, constant_time_eq}
use hardware_rust_crypto.Gcm.Seal.{Sealed}
use hardware_rust_crypto.Siv.Message.{
  derive_keys, build_message_cipher, polyval_digest, siv_tag, set_top, ctr_apply, seal_under,
  open_under, siv_seal, siv_open,
}
use hardware_rust_crypto.Siv.RoundTrip.{sealed_by, opened_by, sealing_with, opening_with}
use hardware_rust_crypto.Siv.Stream.{ctr_apply-ctr_apply}

module _ (crates : Crates) (cpu : Cpu) where
  opened_by-front :
      (cipher : Aes256) (nonce opened tag : List ℕ) (digest : Option (List ℕ))
      → (opened_by crates cpu cipher nonce opened tag digest).0 ≡ opened
  opened_by-front cipher nonce opened tag none = refl
  opened_by-front cipher nonce opened tag (some d) = refl

  sealed_by-accepted :
      (cipher : Aes256) (nonce opened tag : List ℕ) (digest : Option (List ℕ))
      → Documented crates
      → (opened_by crates cpu cipher nonce opened tag digest).1 ≡ true
      → sealed_by crates cpu cipher nonce opened digest
        ≡ record { buffer = (ctr_apply cpu cipher (set_top tag) opened).out; tag = some tag }
  unfolding constant_time_eq
  sealed_by-accepted cipher nonce opened tag none doc e = cc
  sealed_by-accepted cipher nonce opened tag (some d) doc e =
      let made : List ℕ → Sealed =
        λ t. record { buffer = (ctr_apply cpu cipher (set_top t) opened).out; tag = some t } in
      ap made (doc.ct_eq_sound (siv_tag cpu cipher nonce d) tag e)

  seal_under-open_under :
      (cipher : Aes256) (auth_key nonce aad text tag plain : List ℕ)
      → Documented crates
      → open_under cpu crates cipher auth_key nonce aad text tag ≡ (plain, true)
      → seal_under cpu cipher auth_key nonce aad plain ≡ record { buffer = text; tag = some tag }
  unfolding seal_under open_under
  seal_under-open_under cipher auth_key nonce aad text tag plain doc e =
      let opened = (ctr_apply cpu cipher (set_top tag) text).out in
      let digest = polyval_digest cpu auth_key aad opened in
      let with_tag : List ℕ → Sealed = λ t. record { buffer = t; tag = some tag } in
      let same : plain ≡ opened =
        sym (ap (λ r. r.0) e) ∙ opened_by-front cipher nonce opened tag digest in
      ap (λ t. sealed_by crates cpu cipher nonce t (polyval_digest cpu auth_key aad t)) same
      ∙ sealed_by-accepted cipher nonce opened tag digest doc (ap (λ r. r.1) e)
      ∙ ap with_tag (ctr_apply-ctr_apply cpu cipher (set_top tag) text)

  sealing_with-accepted :
      (cipher : Option Aes256) (auth_key nonce aad text tag plain : List ℕ)
      → Documented crates
      → opening_with crates cpu cipher auth_key nonce aad text tag ≡ (plain, true)
      → sealing_with crates cpu cipher auth_key nonce aad plain
        ≡ record { buffer = text; tag = some tag }
  sealing_with-accepted none auth_key nonce aad text tag plain doc e = cc (ap (λ r. r.1) e)
  sealing_with-accepted (some c) auth_key nonce aad text tag plain doc e =
      seal_under-open_under c auth_key nonce aad text tag plain doc e

  -- `siv_open` accepts only what `siv_seal` makes: if it accepts a ciphertext and a tag and leaves
  -- some plaintext, then sealing that plaintext under the same master key, nonce and AAD gives
  -- this ciphertext and this tag.
  pub siv_seal-siv_open :
      (master : Aes256) (nonce aad text tag plain : List ℕ)
      → Documented crates
      → siv_open cpu crates master nonce aad text tag ≡ (plain, true)
      → siv_seal cpu master nonce aad plain ≡ record { buffer = text; tag = some tag }
  unfolding siv_seal siv_open
  siv_seal-siv_open master nonce aad text tag plain doc e =
      let keys = derive_keys cpu master nonce in
      sealing_with-accepted (build_message_cipher cpu keys.enc_key) keys.auth_key nonce aad text tag
        plain doc e
