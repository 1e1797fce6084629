-- ===== src/Aes.antt =====
-- src/aes_gcm/aes.rs, the x86_64 backend: the AES-256 key schedule, one block, and eight
-- interleaved blocks.
pub mod Lanes
use hardware_rust_crypto.Prelude.{
  ℕ, zero, suc, ◌+◌, ◌*◌, ◌/◌, ◌%◌, ◌≤◌, Bool, true, false, ◌&&◌, ◌||◌, not, List, [], ◌∷◌, map,
  foldl, Option, none, some, bit_and, bit_xor, ◌==◌, ltb, if◌then◌else◌, get_or, set, take, drop,
  replicate,
}
use hardware_rust_crypto.Cpu.{Cpu, loadu, storeu, shuffle_epi32, slli_si128}

-- Blocks per interleaved batch.
abbrev pub par_blocks : ℕ
par_blocks = 8

-- `[__m128i; 15]`.
pub record RoundKeys : Type 0 where
  pub k0 : ℕ
  pub k1 : ℕ
  pub k2 : ℕ
  pub k3 : ℕ
  pub k4 : ℕ
  pub k5 : ℕ
  pub k6 : ℕ
  pub k7 : ℕ
  pub k8 : ℕ
  pub k9 : ℕ
  pub k10 : ℕ
  pub k11 : ℕ
  pub k12 : ℕ
  pub k13 : ℕ
  pub k14 : ℕ

pub record Aes256 : Type 0 where
  pub round_keys : RoundKeys

-- The slice `round_keys[1..14]`.
abbrev pub middle : RoundKeys → List ℕ
middle r =
    r.k1 ∷ r.k2 ∷ r.k3 ∷ r.k4 ∷ r.k5 ∷ r.k6 ∷ r.k7 ∷ r.k8 ∷ r.k9 ∷ r.k10 ∷ r.k11 ∷ r.k12 ∷ r.k13
    ∷ []

-- An array of 15 registers as the record of its entries.
abbrev pub of_array : List ℕ → RoundKeys
of_array a = record {
  k0 = get_or a 0 0;
  k1 = get_or a 1 0;
  k2 = get_or a 2 0;
  k3 = get_or a 3 0;
  k4 = get_or a 4 0;
  k5 = get_or a 5 0;
  k6 = get_or a 6 0;
  k7 = get_or a 7 0;
  k8 = get_or a 8 0;
  k9 = get_or a 9 0;
  k10 = get_or a 10 0;
  k11 = get_or a 11 0;
  k12 = get_or a 12 0;
  k13 = get_or a 13 0;
  k14 = get_or a 14 0;
}

module _ (cpu : Cpu) where
  open cpu use {
    aesenc, aesenclast, aeskeygenassist, cfg_aes, cfg_sse2, detected_aes, detected_sse2, cpuid_ecx,
    cpuid_edx,
  }

  unfoldable pub cpuid_confirms_aes_sse2 : Bool
  cpuid_confirms_aes_sse2 =
      not (bit_and cpuid_ecx 0x200_0000 == 0) && not (bit_and cpuid_edx 0x400_0000 == 0)

  unfoldable pub hardware_available : Bool
  unfolding cpuid_confirms_aes_sse2
  hardware_available =
      if cfg_aes && cfg_sse2
      then true
      else if detected_aes && detected_sse2
      then true
      else cpuid_confirms_aes_sse2

  -- `key ^= key << 32` three times, then `^ temp`.
  unfoldable pub cascade : ℕ → ℕ → ℕ
  unfolding slli_si128
  cascade temp prev =
      let key₁ = bit_xor prev (slli_si128 4 prev) in
      let key₂ = bit_xor key₁ (slli_si128 4 key₁) in
      let key₃ = bit_xor key₂ (slli_si128 4 key₂) in bit_xor temp key₃

  unfoldable pub generate_round_keys : ℕ → ℕ → List ℕ → List ℕ
  unfolding cascade shuffle_epi32
  generate_round_keys rcon rnum expanded_keys =
      let prev_key_0 = get_or expanded_keys (rnum * 2) 0 in
      let prev_key_1 = get_or expanded_keys (rnum * 2 + 1) 0 in
      let key = cascade (shuffle_epi32 (aeskeygenassist rcon prev_key_1) 0xff) prev_key_0 in
      let keys₁ = set expanded_keys (rnum * 2 + 2) key in
      let odd = cascade (shuffle_epi32 (aeskeygenassist 0x00 key) 0xaa) prev_key_1 in
      if ltb rnum 6 then set keys₁ (rnum * 2 + 3) odd else keys₁

  unfoldable pub aes256_key_expansion : List ℕ → RoundKeys
  unfolding generate_round_keys loadu
  aes256_key_expansion key =
      let keys₀ = set (set (replicate 15 0) 0 (loadu (take 16 key))) 1 (loadu (drop 16 key)) in
      let keys₁ = generate_round_keys 0x01 0 keys₀ in
      let keys₂ = generate_round_keys 0x02 1 keys₁ in
      let keys₃ = generate_round_keys 0x04 2 keys₂ in
      let keys₄ = generate_round_keys 0x08 3 keys₃ in
      let keys₅ = generate_round_keys 0x10 4 keys₄ in
      let keys₆ = generate_round_keys 0x20 5 keys₅ in of_array (generate_round_keys 0x40 6 keys₆)

  unfoldable pub init_in_place : List ℕ → Option Aes256
  unfolding hardware_available aes256_key_expansion
  init_in_place key =
      if not hardware_available
      then none
      else some (record { round_keys = aes256_key_expansion key })

  unfoldable pub encrypt_block : Aes256 → List ℕ → List ℕ
  unfolding loadu storeu
  encrypt_block aes block =
      let s₀ = bit_xor (loadu block) k0 in
      let s₁ = aesenc s₀ k1 in
      let s₂ = aesenc s₁ k2 in
      let s₃ = aesenc s₂ k3 in
      let s₄ = aesenc s₃ k4 in
      let s₅ = aesenc s₄ k5 in
      let s₆ = aesenc s₅ k6 in
      let s₇ = aesenc s₆ k7 in
      let s₈ = aesenc s₇ k8 in
      let s₉ = aesenc s₈ k9 in
      let s₁₀ = aesenc s₉ k10 in
      let s₁₁ = aesenc s₁₀ k11 in
      let s₁₂ = aesenc s₁₁ k12 in let s₁₃ = aesenc s₁₂ k13 in storeu (aesenclast s₁₃ k14)
    where
      open aes.round_keys use {k0, k1, k2, k3, k4, k5, k6, k7, k8, k9, k10, k11, k12, k13, k14}

  -- The interleaved chains: each round key goes over all lanes before the next one.
  unfoldable pub interleaved : RoundKeys → List (List ℕ) → List ℕ
  unfolding loadu
  interleaved keys blocks =
      let seeded = map (λ block. bit_xor (loadu block) keys.k0) blocks in
      let rounded = foldl (λ lanes key. map (λ lane. aesenc lane key) lanes) seeded (middle keys) in
      map (λ lane. aesenclast lane keys.k14) rounded

  unfoldable pub encrypt8 : Aes256 → List (List ℕ) → List (List ℕ)
  unfolding interleaved storeu
  encrypt8 aes blocks = map storeu (interleaved aes.round_keys blocks)
