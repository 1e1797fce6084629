-- ===== src/Ghash/Key.antt =====
-- `mulx`, `bit_len`, `GHashKey` and `Polyval::key_powers` of src/aes_gcm/ghash.rs. A field
-- element is the 16 bytes that it is stored as.
use hardware_rust_crypto.Prelude.{
  ℕ, ◌*◌, ◌/◌, ◌%◌, ◌^◌, List, [], ◌∷◌, reverse, Option, none, some, bit_xor, not, leb, ltb,
  if◌then◌else◌, from_le_bytes, to_le_bytes,
}
use hardware_rust_crypto.Cpu.{Cpu}
use hardware_rust_crypto.Ghash.Backend.{hardware_available, mul}

-- Multiplication by x: the digit shifted out is folded back in at 0, 121, 126 and 127.
unfoldable pub mulx : List ℕ → List ℕ
unfolding from_le_bytes to_le_bytes
mulx block =
    let v = from_le_bytes block in
    let v_hi = v / 2 ^ 127 in
    let folded =
      bit_xor (bit_xor (bit_xor v_hi (v_hi * 2 ^ 127 % 2 ^ 128)) (v_hi * 2 ^ 126 % 2 ^ 128))
        (v_hi * 2 ^ 121 % 2 ^ 128) in
    to_le_bytes 16 (bit_xor (v * 2 % 2 ^ 128) folded)

-- `u64::try_from(len).ok()?.checked_mul(8)`.
unfoldable pub bit_len : ℕ → Option ℕ
bit_len len =
    if leb (2 ^ 64) len then none else if ltb (len * 8) (2 ^ 64) then some (len * 8) else none

-- `[H^1, .., H^8]`, by squares and products.
unfoldable pub powers : List ℕ → List (List ℕ)
powers h1 =
    let h2 = mul h1 h1 in
    let h3 = mul h2 h1 in
    let h4 = mul h2 h2 in
    let h5 = mul h4 h1 in
    let h6 = mul h4 h2 in
    let h7 = mul h4 h3 in let h8 = mul h4 h4 in h1 ∷ h2 ∷ h3 ∷ h4 ∷ h5 ∷ h6 ∷ h7 ∷ h8 ∷ []

pub record GHashKey : Type 0 where
  pub polyval_key_powers : List (List ℕ)

module _ (cpu : Cpu) where
  unfoldable pub init_in_place : List ℕ → Option GHashKey
  unfolding hardware_available mulx powers
  init_in_place hash_subkey =
      if not (hardware_available cpu)
      then none
      else some (record { polyval_key_powers = powers (mulx (reverse hash_subkey)) })

  -- For POLYVAL the key is taken as it is.
  unfoldable pub key_powers : List ℕ → Option (List (List ℕ))
  unfolding hardware_available powers
  key_powers auth_key = if not (hardware_available cpu) then none else some (powers auth_key)
