-- ===== src/Siv/Total.antt =====
-- That `siv_seal` of src/aes_gcm/siv.rs returns a tag, and the round trip from there.
use hardware_rust_crypto.Prelude.{
  ℕ, ◌*◌, ◌≤◌, ◌≡◌, refl, ◌∙◌, true, List, ◌++◌, map, none, some, length, to_le_bytes,
}
use hardware_rust_crypto.Cpu.{Cpu, loadu}
use hardware_rust_crypto.Aes.{
  Aes256, hardware_available as aes_available, init_in_place as init_aes, aes256_key_expansion,
}
use hardware_rust_crypto.Ghash.Backend.{
  hardware_available, new as new_backend, update_block, finalize as digest_of,
}
use hardware_rust_crypto.Ghash.Key.{powers, key_powers}
use hardware_rust_crypto.Ghash.Polyval.{
  Polyval, new as new_polyval, absorb_padded, finalize_with_lengths,
}
use hardware_rust_crypto.Gcm.Crates.{Crates, Documented}
use hardware_rust_crypto.Gcm.Error.{max_ghash_input_len}
use hardware_rust_crypto.Gcm.Seal.{Sealed}
use hardware_rust_crypto.Gcm.KeyState.Limits.{bit_len-ok}
use hardware_rust_crypto.Gcm.Keystream.{length-encrypt_block}
use hardware_rust_crypto.Siv.Message.{
  derive_keys, build_message_cipher, polyval_digest, siv_tag, set_top, ctr_apply, seal_under,
  siv_seal, siv_open,
}
use hardware_rust_crypto.Siv.RoundTrip.{siv_open-siv_seal}

finalize_with_lengths-ok :
    (p : Polyval) (a d : ℕ)
    → a ≤ max_ghash_input_len
    → d ≤ max_ghash_input_len
    → (h : List ℕ) × (finalize_with_lengths p a d ≡ some h)
unfolding finalize_with_lengths
finalize_with_lengths-ok p a d ha hd =
    let hash =
      λ (x y : ℕ). digest_of (update_block p.backend (to_le_bytes 8 x ++ to_le_bytes 8 y)) in
    (
      hash (a * 8) (d * 8),
      λ i. elim (bit_len-ok a ha i) [
        | none ↦ none
        | some x ↦ elim (bit_len-ok d hd i) [ none ↦ none | some y ↦ some (hash x y) ]
      ],
    )

module _ (cpu : Cpu) (ready : hardware_available cpu ≡ true) where
  key_powers-ok : (k : List ℕ) → key_powers cpu k ≡ some (powers k)
  unfolding key_powers
  key_powers-ok k = rw ready refl

  new_backend-ok :
      (ps : List (List ℕ)) → new_backend cpu ps ≡ some (record { h_pows = map loadu ps; y = 0 })
  unfolding new_backend
  new_backend-ok ps = rw ready refl

  new_polyval-ok : (ps : List (List ℕ)) → (p : Polyval) × (new_polyval cpu ps ≡ some p)
  unfolding new_polyval
  new_polyval-ok ps = (
    record { backend = record { h_pows = map loadu ps; y = 0 } },
    λ i. elim (new_backend-ok ps i) [ none ↦ none | some b ↦ some (record { backend = b }) ],
  )

  polyval_digest-ok :
      (auth_key aad message : List ℕ)
      → length aad ≤ max_ghash_input_len
      → length message ≤ max_ghash_input_len
      → (d : List ℕ) × (polyval_digest cpu auth_key aad message ≡ some d)
  unfolding polyval_digest
  polyval_digest-ok auth_key aad message ha hm =
      let made = new_polyval-ok (powers auth_key) in
      let absorbed = absorb_padded (absorb_padded made.0 aad) message in
      let f = finalize_with_lengths-ok absorbed (length aad) (length message) ha hm in
      let from = λ (p : Polyval).
        finalize_with_lengths (absorb_padded (absorb_padded p aad) message) (length aad)
          (length message) in
      (
        f.0,
        (λ i. elim (key_powers-ok auth_key i) [
          | none ↦ none
          | some ps ↦ elim (new_polyval cpu ps) [ none ↦ none | some p ↦ from p ]
        ])
            ∙ (λ i. elim (made.1 i) [ none ↦ none | some p ↦ from p ])
            ∙ f.1,
      )

  seal_under-ok :
      (cipher : Aes256) (auth_key nonce aad text : List ℕ)
      → length aad ≤ max_ghash_input_len
      → length text ≤ max_ghash_input_len
      → (tag : List ℕ) × ((seal_under cpu cipher auth_key nonce aad text).tag ≡ some tag)
        × (length tag ≡ 16)
  unfolding seal_under siv_tag
  seal_under-ok cipher auth_key nonce aad text ha ht =
      let d = polyval_digest-ok auth_key aad text ha ht in
      let tag = siv_tag cpu cipher nonce d.0 in
      (
        tag,
        (λ i.
            (elim (d.1 i) as (λ o. Sealed) [
              | none ↦ record { buffer = text; tag = none }
              | some h ↦
                  let t = siv_tag cpu cipher nonce h in
                  record { buffer = (ctr_apply cpu cipher (set_top t) text).out; tag = some t }
            ]).tag),
        length-encrypt_block cpu cipher _,
      )

  build-ok :
      aes_available cpu ≡ true
      → (key : List ℕ) → (c : Aes256) × (build_message_cipher cpu key ≡ some c)
  unfolding build_message_cipher init_aes
  build-ok aes_ready key = (record { round_keys = aes256_key_expansion cpu key }, rw aes_ready refl)

  -- On a CPU with both sets of instructions, for AAD and text within GHASH's limit, `siv_seal`
  -- returns a tag of 16 bytes, and `siv_open` of the buffer that it left, with that tag and the
  -- same master key, nonce and AAD, gives the text back and accepts it.
  pub siv_open-siv_seal_total :
      (crates : Crates) (master : Aes256) (nonce aad text : List ℕ)
      → Documented crates
      → aes_available cpu ≡ true
      → length aad ≤ max_ghash_input_len
      → length text ≤ max_ghash_input_len
      → (tag : List ℕ) × ((siv_seal cpu master nonce aad text).tag ≡ some tag)
        × (length tag ≡ 16)
        × (siv_open cpu crates master nonce aad (siv_seal cpu master nonce aad text).buffer tag
            ≡ (text, true))
  unfolding siv_seal
  siv_open-siv_seal_total crates master nonce aad text doc aes_ready ha ht =
      let keys = derive_keys cpu master nonce in
      let c = build-ok aes_ready keys.enc_key in
      let t = seal_under-ok c.0 keys.auth_key nonce aad text ha ht in
      let e : (siv_seal cpu master nonce aad text).tag ≡ some t.0 =
        (λ i.
          (elim (c.1 i) as (λ o. Sealed) [
            | none ↦ record { buffer = text; tag = none }
            | some k ↦ seal_under cpu k keys.auth_key nonce aad text
          ]).tag)
        ∙ t.1 in
      (t.0, e, t.2, siv_open-siv_seal crates cpu master nonce aad text t.0 doc e)
