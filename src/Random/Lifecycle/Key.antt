-- ===== src/Random/Lifecycle/Key.antt =====
-- A key from a seed, through `from_seed_bytes` and `key_32` of src/random/mod.rs.
use hardware_rust_crypto.Prelude.{
  ℕ, suc, ◌+◌, ◌≤◌, ◌<◌, ◌≡◌, ◌^◌, refl, ap, ◌∙◌, Bool, true, List, Option, none, some, length,
  take, drop, ==_iff, from_le_bytes, IsBytes, Bool-cases, inl, inr, arith,
}
use hardware_rust_crypto.Cpu.{Cpu}
use hardware_rust_crypto.Aes.{aes256_key_expansion}
use hardware_rust_crypto.Gcm.Crates.{Crates, Documented}
use hardware_rust_crypto.Random.Error.{Result, ok}
use hardware_rust_crypto.Random.Fork.{Process, capture, check, get_or_init, or_fork_detected}
use hardware_rust_crypto.Random.Fork.Detect.{itself, check-captured}
use hardware_rust_crypto.Random.Backend.{hardware_available}
use hardware_rust_crypto.Random.Generator.{World, Generator, from_seed_bytes}
use hardware_rust_crypto.Random.Generator.Blocks.{ctr_bytes}
use hardware_rust_crypto.Random.Generator.Contiguous.{fill-seeded, seeded, from_seed_bytes-seeded}
use hardware_rust_crypto.Random.Lifecycle.{
  Call, Filled, at_least_one, fill_checked, key_32, array_of,
}
use hardware_rust_crypto.Random.Lifecycle.Guarded.{fill_checked-one_chunk, one_chunk, checked_world}

module _ (crates : Crates) (cpu : Cpu) where
  -- A guard passes in the process that it was captured in.
  at_home :
      (p : Process) (atfork : Bool)
      → p.fork_generation < 2 ^ 64
      → (check atfork (capture atfork p).1 (capture atfork p).0).1 ≡ ok tt
  unfolding capture
  at_home p atfork small =
      check-captured atfork atfork p (capture atfork p).0 0 small (omega arith) itself
      ∙ (elim (Bool-cases (get_or_init atfork p.installed)) [
        | inl e ↦ rw e refl
        | inr e ↦ rw e (ap or_fork_detected ((==_iff p.pid p.pid).1 refl))
      ])

  -- `key_32` behind the fill.
  abbrev of_fill : Option Filled → Option (Call (List ℕ))
  of_fill o = elim o as (λ _. Option (Call (List ℕ))) [
    | none ↦ none
    | some f ↦ some (array_of crates cpu f)
  ]

  key_32_lem :
      (w : World) (g : Generator)
      → key_32 crates cpu w g ≡ of_fill (fill_checked crates cpu w g (suc 31))
  unfolding key_32
  key_32_lem w g = refl

  -- The generator's guard and its count, just after it is made.
  seeded_known :
      (w : World) (seed : List ℕ)
      → w.process.fork_generation < 2 ^ 64
      → ((check w.atfork (seeded crates cpu w seed).fork_guard (capture w.atfork w.process).0).1
          ≡ ok tt)
        × ((seeded crates cpu w seed).generated_since_reseed + suc 31
            ≤ at_least_one (seeded crates cpu w seed).reseed_interval)
  unfolding seeded
  seeded_known w seed small = (at_home w.process w.atfork small, omega arith)

  -- The whole way of a key: on a CPU with the instructions, a seed of 48 bytes makes a generator,
  -- which the fork check accepts in its own process, and whose first key is the first two blocks
  -- of AES-256 in counter mode: the key of the cipher is `seed[..32]`, the counter starts at the
  -- little-endian `seed[32..]`, and the schedule and the block cipher are those of the GCM side.
  pub key_32-from_seed_bytes :
      (w : World) (seed : List ℕ)
      → Documented crates
      → hardware_available cpu ≡ true
      → length seed ≡ 48
      → IsBytes seed
      → w.process.fork_generation < 2 ^ 64
      → (g : Generator) × ((from_seed_bytes crates cpu w seed).1 ≡ ok g)
        × (c : Call (List ℕ)) × (key_32 crates cpu (from_seed_bytes crates cpu w seed).0 g ≡ some c)
        × (c.result
            ≡ ok (
                take 32 (
                  ctr_bytes cpu
                    (aes256_key_expansion cpu (take 32 seed))
                    (from_le_bytes (drop 32 seed))
                    0
                    2)))
  key_32-from_seed_bytes w seed doc ready size bytes small =
      let g = seeded crates cpu w seed in
      let w₁ : World = record w { process = (capture w.atfork w.process).0 } in
      let made = from_seed_bytes-seeded crates cpu w seed ready in
      let known = seeded_known w seed small in
      let f = one_chunk crates cpu (checked_world crates cpu w₁ g) g (suc 31) in
      (
        g,
        ap (λ (r : World × Result Generator). r.1) made,
        array_of crates cpu f,
        ap (λ (r : World × Result Generator). key_32 crates cpu r.0 g) made
            ∙ key_32_lem w₁ g
            ∙ ap of_fill (fill_checked-one_chunk crates cpu w₁ g 31 known.0 known.1),
        ap ok_bytes (fill-seeded crates cpu doc w seed 32 2 size bytes (omega arith)),
      )
    where
      ok_bytes : List ℕ → Result (List ℕ)
      ok_bytes out = ok out
