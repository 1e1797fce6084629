-- ===== src/Random/Lifecycle.antt =====
-- The calls of `AesCtrKeyGenerator` in src/random/mod.rs that check for forks and reseed.
pub mod Invariant
pub mod Total
pub mod Guarded
pub mod Key
pub mod Reachable
use hardware_rust_crypto.Prelude.{
  ℕ, zero, suc, ◌+◌, ◌-◌, Bool, List, [], ◌∷◌, ◌++◌, Option, none, some, replicate, min, leb,
  if◌then◌else◌,
}
use hardware_rust_crypto.Cpu.{Cpu}
use hardware_rust_crypto.Gcm.Crates.{Crates}
use hardware_rust_crypto.Random.Error.{Error, Result, ok, err}
use hardware_rust_crypto.Random.Fork.{capture, check}
use hardware_rust_crypto.Random.Entropy.{cpu_rng_fill}
use hardware_rust_crypto.Random.Generator.{
  World, Generator, block_size, seed_size, key_size, nonce_size, fill_from_os, reset_from_seed,
  reseed_blend, fill_without_lifecycle_checks,
}

-- What a call leaves, and its result.
pub record Call (A : Type 0) : Type 0 where
  pub world : World
  pub gen : Generator
  pub result : Result A

-- What a call that fills a slice leaves: `out` is the part of the slice that is written.
pub record Filled : Type 0 where
  pub world : World
  pub gen : Generator
  pub out : List ℕ
  pub result : Result (Unit {0})

-- `interval.max(1)`.
abbrev pub at_least_one : ℕ → ℕ
at_least_one zero = 1
at_least_one (suc n) = suc n

abbrev pub prepend : List ℕ → Filled → Filled
prepend chunk rest = record rest { out = chunk ++ rest.out }

module _ (crates : Crates) (cpu : Cpu) where
  -- The end of a successful `reseed`.
  abbrev pub restarted : World → Generator → Call (Unit {0})
  restarted w g =
      let captured = capture w.atfork w.process in
      record {
        world = record w { process = captured.0 };
        gen = record g {
          buffer = crates.zeroize_slice g.buffer;
          buffer_pos = block_size;
          generated_since_reseed = 0;
          fork_guard = captured.1;
        };
        result = ok tt;
      }

  abbrev pub reset : World → Generator → Result (List ℕ) → Call (Unit {0})
  reset w g (err e) = record { world = w; gen = g; result = err e }
  reset w g (ok seed) = elim (reset_from_seed crates cpu g.backend seed) as (λ _. Call (Unit {0})) [
    | err e ↦ record { world = w; gen = g; result = err e }
    | ok backend ↦ restarted w (record g { backend = backend })
  ]

  unfoldable pub reseed : World → Generator → Call (Unit {0})
  unfolding capture cpu_rng_fill fill_from_os reset_from_seed reseed_blend
  reseed w g =
      let drawn = cpu_rng_fill crates w.detected_rdseed (replicate seed_size 0) w.rdseed in
      let w₁ : World = record w { rdseed = drawn.answers } in
      let answer = fill_from_os w₁ in
      if drawn.filled
      then restarted w₁ (record g { backend = reseed_blend crates cpu g.backend drawn.out })
      else reset answer.0 g answer.1

  abbrev pub reseed_if_due : World → Generator → Call (Unit {0})
  reseed_if_due w g =
      if leb (at_least_one g.reseed_interval) g.generated_since_reseed
      then reseed w g
      else record { world = w; gen = g; result = ok tt }

  -- The chunk up to the next reseed, at most `len` bytes.
  unfoldable pub fill_chunk : Generator → ℕ → Generator × List ℕ
  unfolding fill_without_lifecycle_checks
  fill_chunk g len =
      let taken = min len (at_least_one g.reseed_interval - g.generated_since_reseed) in
      let chunk = fill_without_lifecycle_checks crates cpu g taken in
      (record (chunk.0) { generated_since_reseed = g.generated_since_reseed + taken }, chunk.1)

  -- The loop of `fill_checked` over the slice, of which `len` bytes are left; `none` if the fuel
  -- does not suffice.
  unfoldable pub fill_loop : ℕ → World → Generator → ℕ → Option Filled
  unfolding reseed fill_chunk
  fill_loop fuel w g zero = some (record { world = w; gen = g; out = []; result = ok tt })
  fill_loop zero w g (suc n) = none
  fill_loop (suc fuel) w g (suc n) =
      let r = reseed_if_due w g in
      elim r.result as (λ _. Option Filled) [
        | err e ↦ some (record { world = r.world; gen = r.gen; out = []; result = err e })
        | ok done ↦
            let taken =
              min (suc n) (at_least_one r.gen.reseed_interval - r.gen.generated_since_reseed) in
            let chunk = fill_chunk r.gen (suc n) in
            let rest = fill_loop fuel r.world chunk.0 (suc n - taken) in
            elim rest as (λ _. Option Filled) [ none ↦ none | some f ↦ some (prepend chunk.1 f) ]
      ]

  unfoldable pub fill_checked : World → Generator → ℕ → Option Filled
  unfolding check fill_loop
  fill_checked w g len =
      let checked = check w.atfork g.fork_guard w.process in
      let w₁ : World = record w { process = checked.0 } in
      elim checked.1 as (λ _. Option Filled) [
        | err e ↦ some (record { world = w₁; gen = g; out = []; result = err e })
        | ok done ↦ fill_loop len w₁ g len
      ]

  abbrev pub array_of : Filled → Call (List ℕ)
  array_of f = record {
    world = f.world;
    gen = f.gen;
    result = elim f.result [ err e ↦ err e | ok done ↦ ok f.out ];
  }

  abbrev draw : World → Generator → ℕ → Option (Call (List ℕ))
  draw w g len = elim (fill_checked w g len) as (λ _. Option (Call (List ℕ))) [
    | none ↦ none
    | some f ↦ some (array_of f)
  ]

  unfoldable pub key_32 : World → Generator → Option (Call (List ℕ))
  unfolding fill_checked
  key_32 w g = draw w g key_size

  unfoldable pub nonce_12 : World → Generator → Option (Call (List ℕ))
  unfolding fill_checked
  nonce_12 w g = draw w g nonce_size

  -- `drop`: what is left of the generator; the backend wipes itself.
  unfoldable pub drop_generator : Generator → Generator
  drop_generator g = record g {
    buffer = crates.zeroize_slice g.buffer;
    buffer_pos = block_size;
    generated_since_reseed = 0;
    reseed_interval = 0;
  }
