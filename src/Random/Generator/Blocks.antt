-- ===== src/Random/Generator/Blocks.antt =====
-- The blocks of src/random/aes_ctr.rs against AES-256 in counter mode, with the schedule and the
-- block cipher of src/aes_gcm/aes.rs.
use hardware_rust_crypto.Prelude.{
  ℕ, zero, suc, ◌+◌, ◌*◌, ◌%◌, ◌^◌, ◌≡◌, refl, sym, ap, ap₂, ◌∙◌, List, [], ◌++◌, append_assoc,
  length, length-append, to_le_bytes, length-to_le_bytes, arith,
}
use hardware_rust_crypto.Cpu.{Cpu, loadu, storeu}
use hardware_rust_crypto.Aes.{
  RoundKeys, encrypt_block, aes256_key_expansion as aes_keys, generate_round_keys as aes_round_keys,
  cascade,
}
use hardware_rust_crypto.Random.Backend.{
  Backend, aes256_key_expansion, generate_round_keys, rounds, fill_block,
}
use hardware_rust_crypto.Random.Generator.{fill_blocks}
use hardware_rust_crypto.Gcm.Crates.{Crates}

-- The two key expansions agree.
pub schedules_agree : (cpu : Cpu) (key : List ℕ) → aes256_key_expansion cpu key ≡ aes_keys cpu key
unfolding aes256_key_expansion aes_keys generate_round_keys aes_round_keys cascade
schedules_agree cpu key = refl

rounds-eq-encrypt_block :
    (cpu : Cpu) (keys : RoundKeys) (bytes : List ℕ)
    → storeu (rounds cpu keys (loadu bytes))
      ≡ encrypt_block cpu (record { round_keys = keys }) bytes
unfolding rounds encrypt_block
rounds-eq-encrypt_block cpu keys bytes = refl

fill_block_lem :
    (cpu : Cpu) (b : Backend)
    → (fill_block cpu b).1
      ≡ encrypt_block cpu (record { round_keys = b.round_keys }) (to_le_bytes 16 b.counter)
unfolding fill_block
fill_block_lem cpu b = rounds-eq-encrypt_block cpu b.round_keys (to_le_bytes 16 b.counter)

pub length-fill_block : (cpu : Cpu) (b : Backend) → length (fill_block cpu b).1 ≡ 16
unfolding fill_block storeu
length-fill_block cpu b =
    length-to_le_bytes 16 (rounds cpu b.round_keys (loadu (to_le_bytes 16 b.counter)))

-- Counter mode: blocks number `i`, `i + 1`, .. from a 128-bit counter that wraps.
abbrev pub ctr_bytes : Cpu → RoundKeys → ℕ → ℕ → ℕ → List ℕ
ctr_bytes cpu keys counter i zero = []
ctr_bytes cpu keys counter i (suc k) =
    encrypt_block cpu (record { round_keys = keys }) (to_le_bytes 16 ((counter + i) % 2 ^ 128))
    ++ ctr_bytes cpu keys counter (suc i) k

module _ (crates : Crates) (cpu : Cpu) where
  pub length-fill_blocks : (k : ℕ) (b : Backend) → length (fill_blocks crates cpu k b).1 ≡ k * 16
  unfolding fill_blocks
  length-fill_blocks zero b = omega arith
  length-fill_blocks (suc k) b =
      let block = fill_block cpu b in
      omega (
        arith,
        length-append block.1 (fill_blocks crates cpu k block.0).1,
        length-fill_block cpu b,
        length-fill_blocks k block.0,
      )

  -- Blocks in two parts.
  pub fill_blocks-add :
      (a k c : ℕ) (b : Backend)
      → a + k ≡ c
      → (fill_blocks crates cpu c b).1
        ≡ (fill_blocks crates cpu a b).1
          ++ (fill_blocks crates cpu k (fill_blocks crates cpu a b).0).1
  unfolding fill_blocks
  fill_blocks-add zero k c b e =
      let e' : c ≡ k = omega arith in ap (λ n. (fill_blocks crates cpu n b).1) e'
  fill_blocks-add (suc a) k zero b e = absurd (omega arith)
  fill_blocks-add (suc a) k (suc c) b e =
      let block = fill_block cpu b in
      ap (◌++◌ block.1) (fill_blocks-add a k c block.0 (omega arith))
      ∙ sym (
          append_assoc block.1 (fill_blocks crates cpu a block.0).1
            (fill_blocks crates cpu k (fill_blocks crates cpu a block.0).0).1)

  -- Blocks of a backend whose counter is `counter + i`.
  pub fill_blocks_lem :
      (k counter i : ℕ) (b : Backend)
      → b.counter ≡ (counter + i) % 2 ^ 128
      → (fill_blocks crates cpu k b).1 ≡ ctr_bytes cpu b.round_keys counter i k
  unfolding fill_blocks fill_block
  fill_blocks_lem zero counter i b e = refl
  fill_blocks_lem (suc k) counter i b e =
      ap₂ ◌++◌
        (fill_block_lem cpu b
          ∙ ap (λ c. encrypt_block cpu (record { round_keys = b.round_keys }) (to_le_bytes 16 c)) e)
        (fill_blocks_lem k counter (suc i) (fill_block cpu b).0
          (ap (λ c. (c + 1) % 2 ^ 128) e ∙ omega arith))
