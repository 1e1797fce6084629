-- ===== src/Random/Generator.antt =====
-- `AesCtrKeyGenerator` of src/random/mod.rs. What the calls read outside of the generator is the
-- world: the process, the answers of the OS source, of RDSEED and of feature detection. A slice
-- that a call fills is its length on the way in and the bytes written on the way out.
pub mod Blocks
pub mod Stream
pub mod Fill
pub mod Contiguous
use hardware_rust_crypto.Prelude.{
  ℕ, zero, suc, ◌+◌, ◌-◌, ◌*◌, ◌/◌, ◌%◌, ◌^◌, Bool, true, false, ◌&&◌, not, List, [], ◌∷◌, ◌++◌,
  Option, none, some, length, take, drop, replicate, min, ltb, leb, ◌==◌, if◌then◌else◌, xor_bytes,
}
use hardware_rust_crypto.Cpu.{Cpu}
use hardware_rust_crypto.Gcm.Crates.{Crates}
use hardware_rust_crypto.Random.Error.{Error, os_entropy, unsupported_cpu, Result, ok, err}
use hardware_rust_crypto.Random.Fork.{Process, ForkGuard, capture, check}
use hardware_rust_crypto.Random.Backend.{
  Backend, hardware_available, new as new_backend, fill_block,
}
use hardware_rust_crypto.Random.Entropy.{Answers, cpu_rng_fill}

abbrev pub key_size : ℕ
key_size = 32

abbrev pub nonce_size : ℕ
nonce_size = 12

abbrev pub block_size : ℕ
block_size = 16

abbrev pub seed_size : ℕ
seed_size = 48

abbrev pub default_reseed_interval : ℕ
default_reseed_interval = 2 ^ 30

-- What `getrandom::fill` does: it fills the slice, or fails with a code.
pub data OsAnswer : Type 0 where
  filled : List ℕ → OsAnswer
  failed : ℕ → OsAnswer

pub record World : Type 0 where
  pub process : Process
  pub atfork : Bool
  pub detected_rdseed : Bool
  pub rdseed : Answers
  pub os : List OsAnswer

pub record Generator : Type 0 where
  pub backend : Backend
  pub buffer : List ℕ
  pub buffer_pos : ℕ
  pub generated_since_reseed : ℕ
  pub reseed_interval : ℕ
  pub fork_guard : ForkGuard

-- The next answer of the OS source; past the end of the list it fails.
unfoldable pub fill_from_os : World → World × Result (List ℕ)
fill_from_os w = elim w.os [
  | [] ↦ (w, err (os_entropy 0))
  | a ∷ rest ↦ (
    record w { os = rest },
    elim a [ filled bytes ↦ ok bytes | failed code ↦ err (os_entropy code) ],
  )
]

unfoldable pub split_seed : List ℕ → List ℕ × List ℕ
split_seed seed = (take key_size seed, drop key_size seed)

-- Bytes drawn and the generator or the backend behind the draw.
abbrev pub Draw : Type 0 → Type 0
Draw S = S × List ℕ

module _ (crates : Crates) (cpu : Cpu) where
  abbrev pub fresh : World → Backend → World × Generator
  fresh w backend =
      let captured = capture w.atfork w.process in
      (
        record w { process = captured.0 },
        record {
          backend = backend;
          buffer = replicate block_size 0;
          buffer_pos = block_size;
          generated_since_reseed = 0;
          reseed_interval = default_reseed_interval;
          fork_guard = captured.1;
        },
      )

  abbrev pub built : World × Generator → World × Result Generator
  built (w, g) = (w, ok g)

  unfoldable pub from_seed_bytes : World → List ℕ → World × Result Generator
  unfolding hardware_available new_backend split_seed capture
  from_seed_bytes w seed =
      if not (hardware_available cpu)
      then (w, err unsupported_cpu)
      else elim (new_backend cpu (split_seed seed).0 (split_seed seed).1)
          as (λ _. World × Result Generator) [
            | none ↦ (w, err unsupported_cpu)
            | some backend ↦ built (fresh w backend)
          ]

  -- The seed of the caller is zeroized, whatever the result.
  unfoldable pub from_seed : World → List ℕ → (World × Result Generator) × List ℕ
  unfolding from_seed_bytes
  from_seed w seed = (from_seed_bytes w seed, crates.zeroize_slice seed)

  unfoldable pub from_os_entropy : World → World × Result Generator
  unfolding hardware_available fill_from_os from_seed_bytes
  from_os_entropy w =
      if not (hardware_available cpu)
      then (w, err unsupported_cpu)
      else let answer = fill_from_os w in
        elim answer.1 as (λ _. World × Result Generator) [
          | err e ↦ (answer.0, err e)
          | ok seed ↦ from_seed_bytes answer.0 seed
        ]

  -- Bytes left in the buffer go out and are wiped.
  unfoldable pub drain_buffer : Generator → ℕ → Draw Generator
  drain_buffer g len =
      let available = block_size - g.buffer_pos in
      let taken = min available len in
      let end = g.buffer_pos + taken in
      let wiped : Generator = record g {
        buffer =
            take g.buffer_pos g.buffer
            ++ (crates.zeroize_slice (take taken (drop g.buffer_pos g.buffer))
                ++ drop end g.buffer);
        buffer_pos = end;
      } in
      if taken == 0 then (g, []) else (wiped, take taken (drop g.buffer_pos g.buffer))

  -- Whole blocks, straight into the slice.
  unfoldable pub fill_blocks : ℕ → Backend → Draw Backend
  unfolding fill_block
  fill_blocks zero b = (b, [])
  fill_blocks (suc k) b =
      let block = fill_block cpu b in
      let rest = fill_blocks k block.0 in (rest.0, block.1 ++ rest.1)

  -- The front of one more block, whose tail stays in the buffer.
  unfoldable pub fill_remainder : Generator → ℕ → Draw Generator
  unfolding fill_block
  fill_remainder g len =
      let block = fill_block cpu g.backend in
      let kept : Generator = record g {
        backend = block.0;
        buffer = crates.zeroize_slice (take len block.1) ++ drop len block.1;
        buffer_pos = len;
      } in
      if len == 0 then (g, []) else (kept, take len block.1)

  unfoldable pub fill_without_lifecycle_checks : Generator → ℕ → Draw Generator
  unfolding drain_buffer fill_blocks fill_remainder
  fill_without_lifecycle_checks g len =
      let drained = drain_buffer g len in
      let left = len - length drained.1 in
      let blocks = fill_blocks (left / block_size) drained.0.backend in
      let last = fill_remainder (record (drained.0) { backend = blocks.0 }) (left % block_size) in
      (last.0, drained.1 ++ (blocks.1 ++ last.1))

  unfoldable pub reset_from_seed : Backend → List ℕ → Result Backend
  unfolding new_backend split_seed
  reset_from_seed b seed = elim (new_backend cpu (split_seed seed).0 (split_seed seed).1) [
    | none ↦ err unsupported_cpu
    | some backend ↦ ok backend
  ]

  unfoldable pub reseed_blend : Backend → List ℕ → Backend
  unfolding new_backend split_seed fill_blocks xor_bytes
  reseed_blend b cpu_entropy =
      let keystream = fill_blocks 3 b in
      let seed = xor_bytes keystream.1 cpu_entropy in
      elim (new_backend cpu (split_seed seed).0 (split_seed seed).1) [
        | none ↦ keystream.0
        | some backend ↦ backend
      ]
