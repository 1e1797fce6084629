-- ===== src/Random/Backend.antt =====
-- src/random/aes_ctr.rs on x86_64: the counter mode backend with its own key expansion.
use hardware_rust_crypto.Prelude.{
  ℕ, ◌+◌, ◌*◌, ◌%◌, ◌^◌, Bool, ◌&&◌, not, List, Option, none, some, take, drop, replicate, get_or,
  set, ltb, if◌then◌else◌, bit_xor, from_le_bytes, to_le_bytes,
}
use hardware_rust_crypto.Cpu.{Cpu, loadu, storeu, shuffle_epi32, slli_si128}
use hardware_rust_crypto.Aes.{RoundKeys, of_array}

pub record Backend : Type 0 where
  pub counter : ℕ
  pub round_keys : RoundKeys

module _ (cpu : Cpu) where
  open cpu use {aesenc, aesenclast, aeskeygenassist, detected_aes, detected_sse2}

  unfoldable pub hardware_available : Bool
  hardware_available = detected_aes && detected_sse2

  unfoldable pub generate_round_keys : ℕ → ℕ → List ℕ → List ℕ
  unfolding shuffle_epi32 slli_si128
  generate_round_keys rcon rnum expanded_keys =
      let prev_key_0 = get_or expanded_keys (rnum * 2) 0 in
      let prev_key_1 = get_or expanded_keys (rnum * 2 + 1) 0 in
      let temp = shuffle_epi32 (aeskeygenassist rcon prev_key_1) 0xff in
      let key₁ = bit_xor prev_key_0 (slli_si128 4 prev_key_0) in
      let key₂ = bit_xor key₁ (slli_si128 4 key₁) in
      let key₃ = bit_xor key₂ (slli_si128 4 key₂) in
      let key = bit_xor temp key₃ in
      let even_set = set expanded_keys (rnum * 2 + 2) key in
      let odd_temp = shuffle_epi32 (aeskeygenassist 0x00 key) 0xaa in
      let odd₁ = bit_xor prev_key_1 (slli_si128 4 prev_key_1) in
      let odd₂ = bit_xor odd₁ (slli_si128 4 odd₁) in
      let odd₃ = bit_xor odd₂ (slli_si128 4 odd₂) in
      if ltb rnum 6 then set even_set (rnum * 2 + 3) (bit_xor odd_temp odd₃) else even_set

  unfoldable pub aes256_key_expansion : List ℕ → RoundKeys
  unfolding generate_round_keys loadu
  aes256_key_expansion key =
      let keys₀ = set (set (replicate 15 0) 0 (loadu (take 16 key))) 1 (loadu (drop 16 key)) in
      let keys₁ = generate_round_keys 0x01 0 keys₀ in
      let keys₂ = generate_round_keys 0x02 1 keys₁ in
      let keys₃ = generate_round_keys 0x04 2 keys₂ in
      let keys₄ = generate_round_keys 0x08 3 keys₃ in
      let keys₅ = generate_round_keys 0x10 4 keys₄ in
      let keys₆ = generate_round_keys 0x20 5 keys₅ in of_array (generate_round_keys 0x40 6 keys₆)

  unfoldable pub new_inner : List ℕ → List ℕ → Backend
  unfolding aes256_key_expansion from_le_bytes
  new_inner key counter = record {
    counter = from_le_bytes counter;
    round_keys = aes256_key_expansion key;
  }

  unfoldable pub new : List ℕ → List ℕ → Option Backend
  unfolding hardware_available new_inner
  new key counter = if not hardware_available then none else some (new_inner key counter)

  -- The fifteen steps of `fill_block_inner` on a register.
  unfoldable pub rounds : RoundKeys → ℕ → ℕ
  rounds keys counter =
      let s₀ = bit_xor counter k0 in
      let s₁ = aesenc s₀ k1 in
      let s₂ = aesenc s₁ k2 in
      let s₃ = aesenc s₂ k3 in
      let s₄ = aesenc s₃ k4 in
      let s₅ = aesenc s₄ k5 in
      let s₆ = aesenc s₅ k6 in
      let s₇ = aesenc s₆ k7 in
      let s₈ = aesenc s₇ k8 in
      let s₉ = aesenc s₈ k9 in
      let s₁₀ = aesenc s₉ k10 in
      let s₁₁ = aesenc s₁₀ k11 in
      let s₁₂ = aesenc s₁₁ k12 in let s₁₃ = aesenc s₁₂ k13 in aesenclast s₁₃ k14
    where
      open keys use {k0, k1, k2, k3, k4, k5, k6, k7, k8, k9, k10, k11, k12, k13, k14}

  -- The backend with the next counter, and the block.
  unfoldable pub fill_block : Backend → Backend × List ℕ
  unfolding rounds loadu storeu to_le_bytes
  fill_block backend = (
    record backend { counter = (backend.counter + 1) % 2 ^ 128 },
    storeu (rounds backend.round_keys (loadu (to_le_bytes 16 backend.counter))),
  )
