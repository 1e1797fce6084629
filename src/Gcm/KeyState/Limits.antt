-- ===== src/Gcm/KeyState/Limits.antt =====
-- The guards of `KeyState`: nonce, lengths, totals, and the tag where the lengths are in order.
use hardware_rust_crypto.Prelude.{
  ℕ, ◌+◌, ◌*◌, ◌^◌, ◌≤◌, ◌<◌, ◌≡◌, ◌≢◌, refl, ap, ◌∙◌, List, Option, none, some, inl, inr, length,
  leb, lt→ltb, ge→ltb, gt→leb, ==_iff, true, false, Bool-cases, ◌⊎◌, to_be_bytes, ◌++◌, reverse,
  length-xor_bytes, arith,
}
use hardware_rust_crypto.Cpu.{Cpu}
use hardware_rust_crypto.Ghash.Backend.{hardware_available, finalize as digest, update_block}
use hardware_rust_crypto.Ghash.Key.{bit_len}
use hardware_rust_crypto.Ghash.Hasher.{Ghasher, new as new_ghasher, absorb_padded, finalize}
use hardware_rust_crypto.Gcm.Error.{
  ok, err, Error, checked_add, nonce_from_slice, validate_gcm_lengths, len_exceeds_u64_limit,
  max_gcm_data_len, max_ghash_input_len,
}
use hardware_rust_crypto.Gcm.Seal.{KeyState, mask_tag}
use hardware_rust_crypto.Gcm.Seal.Inverse.{gcm_tag, gcm_tag_by, closing_tag, has_hasher}

-- The lengths that AES-GCM takes, of the AAD and of the message.
abbrev pub InLimits : ℕ → ℕ → Type 0
InLimits aad_len data_len = (aad_len ≤ max_ghash_input_len) × (data_len ≤ max_gcm_data_len)

pub nonce_from_slice-ok : (nonce : List ℕ) → length nonce ≡ 12 → nonce_from_slice nonce ≡ ok nonce
unfolding nonce_from_slice
nonce_from_slice-ok nonce h = ground (arith, ==_iff (length nonce) 12)

len_exceeds_u64_limit-false :
    (len limit : ℕ) → len ≤ limit → limit < 2 ^ 64 → len_exceeds_u64_limit len limit ≡ false
unfolding len_exceeds_u64_limit
len_exceeds_u64_limit-false len limit h k =
    rw (gt→leb (2 ^ 64) len (omega arith)) (ge→ltb limit len h)

pub validate_gcm_lengths-ok :
    (aad_len data_len : ℕ)
    → InLimits aad_len data_len
    → validate_gcm_lengths aad_len data_len ≡ ok tt
unfolding validate_gcm_lengths
validate_gcm_lengths-ok a d h =
    rw (len_exceeds_u64_limit-false d max_gcm_data_len h.1 (omega arith)) (
      rw (len_exceeds_u64_limit-false a max_ghash_input_len h.0 (omega arith)) (
        rw (len_exceeds_u64_limit-false d max_ghash_input_len (omega (arith, h.1)) (omega arith))
          refl))

len_exceeds_u64_limit-true : (len limit : ℕ) → limit < len → len_exceeds_u64_limit len limit ≡ true
unfolding len_exceeds_u64_limit
len_exceeds_u64_limit-true len limit h = elim (Bool-cases (leb (2 ^ 64) len)) [
  | inl e ↦ rw e refl
  | inr e ↦ rw e (lt→ltb limit len h)
]

-- Past a limit the lengths are refused.
pub validate_gcm_lengths-err :
    (aad_len data_len : ℕ)
    → (max_ghash_input_len < aad_len) ⊎ (max_gcm_data_len < data_len)
    → validate_gcm_lengths aad_len data_len ≡ err Error.input_too_large
unfolding validate_gcm_lengths
validate_gcm_lengths-err a d (inl h) =
    rw (len_exceeds_u64_limit-true a max_ghash_input_len h)
      (elim (Bool-cases (len_exceeds_u64_limit d max_gcm_data_len)) [
        | inl e ↦ rw e refl
        | inr e ↦ rw e refl
      ])
validate_gcm_lengths-err a d (inr h) = rw (len_exceeds_u64_limit-true d max_gcm_data_len h) refl

pub checked_add-fits : (a b : ℕ) → a + b < 2 ^ 64 → checked_add a b ≡ some (a + b)
unfolding checked_add
checked_add-fits a b h = rw (lt→ltb (a + b) (2 ^ 64) h) refl

pub checked_add-ok :
    (len extra : ℕ)
    → len ≤ max_gcm_data_len
    → extra ≤ 28
    → checked_add len extra ≡ some (len + extra)
checked_add-ok len extra h k = checked_add-fits len extra (omega arith)

pub bit_len-ok : (n : ℕ) → n ≤ max_ghash_input_len → bit_len n ≡ some (n * 8)
unfolding bit_len
bit_len-ok n h =
    rw (gt→leb (2 ^ 64) n (omega arith)) (rw (lt→ltb (n * 8) (2 ^ 64) (omega arith)) refl)

-- Within the limits a hasher gives 16 bytes.
finalize-ok :
    (g : Ghasher) (a d : ℕ)
    → a ≤ max_ghash_input_len
    → d ≤ max_ghash_input_len
    → (h : List ℕ) × (finalize g a d ≡ some h) × (length h ≡ 16)
unfolding finalize digest
finalize-ok g a d ha hd =
    let hash = λ (x y : ℕ).
      reverse (digest (update_block g.backend (reverse (to_be_bytes 8 x ++ to_be_bytes 8 y)))) in
    (
      hash (a * 8) (d * 8),
      (λ i. elim (bit_len-ok a ha i) [
        | none ↦ none
        | some x ↦ elim (bit_len-ok d hd i) [ none ↦ none | some y ↦ some (hash x y) ]
      ]),
      refl,
    )

module _ (cpu : Cpu) (st : KeyState) where
  length-mask_tag :
      (nonce hash : List ℕ) → length hash ≡ 16 → length (mask_tag cpu st nonce hash) ≡ 16
  unfolding mask_tag
  length-mask_tag nonce hash h = length-xor_bytes hash _ ∙ h

  tag_by-ok :
      (hasher : Option Ghasher) (nonce aad ciphertext : List ℕ)
      → hasher ≢ none
      → InLimits (length aad) (length ciphertext)
      → (tag : List ℕ) × (gcm_tag_by cpu st hasher nonce aad ciphertext ≡ some tag)
        × (length tag ≡ 16)
  tag_by-ok none nonce aad ciphertext h k = absurd (h refl)
  tag_by-ok (some fresh) nonce aad ciphertext h k =
      let f =
        finalize-ok (absorb_padded (absorb_padded fresh aad) ciphertext) (length aad)
          (length ciphertext) k.0 (omega (arith, k.1)) in
      (mask_tag cpu st nonce f.0, ap (closing_tag cpu st nonce) f.1, length-mask_tag nonce f.0 f.2)

  -- On a CPU with the instructions, within the limits, every text has a tag of 16 bytes.
  pub gcm_tag-ok :
      (nonce aad ciphertext : List ℕ)
      → hardware_available cpu ≡ true
      → InLimits (length aad) (length ciphertext)
      → (tag : List ℕ) × (gcm_tag cpu st nonce aad ciphertext ≡ some tag) × (length tag ≡ 16)
  gcm_tag-ok nonce aad ciphertext ready k =
      tag_by-ok (new_ghasher cpu st.ghash) nonce aad ciphertext (has_hasher cpu st ready) k
