-- ===== src/Random/Lifecycle/Invariant.antt =====
-- The state of `AesCtrKeyGenerator` in src/random/mod.rs: a sound buffer and a count that stays
-- within the reseed interval, through every call.
use hardware_rust_crypto.Prelude.{
  ℕ, zero, suc, ◌-◌, ◌≤◌, ◌<◌, ◌≡◌, refl, ap, ◌∙◌, ◌⊎◌, inl, inr, List, length, replicate, min, leb,
  Bool-cases, take_all, arith,
}
use hardware_rust_crypto.Cpu.{Cpu}
use hardware_rust_crypto.Gcm.Crates.{Crates, Documented}
use hardware_rust_crypto.Random.Error.{Error, Result, ok, err}
use hardware_rust_crypto.Random.Backend.{Backend}
use hardware_rust_crypto.Random.Entropy.{cpu_rng_fill}
use hardware_rust_crypto.Random.Generator.{
  World, Generator, seed_size, fill_from_os, reset_from_seed, reseed_blend,
}
use hardware_rust_crypto.Random.Generator.Stream.{IsBuffer, length-zeroize, zeroize-zeros}
use hardware_rust_crypto.Random.Generator.Fill.{fill-upcoming}
use hardware_rust_crypto.Random.Lifecycle.{
  Call, at_least_one, restarted, reset, reseed, reseed_if_due, fill_chunk,
}

abbrev pub IsWellFormed : Generator → Type 0
IsWellFormed g = IsBuffer g × (g.generated_since_reseed ≤ at_least_one g.reseed_interval)

pub at_least_one_pos : (n : ℕ) → 1 ≤ at_least_one n
at_least_one_pos zero = omega arith
at_least_one_pos (suc n) = omega arith

pub Result-cases :
    {A : Type 0} (r : Result A) → ((a : A) × (r ≡ ok a)) ⊎ ((e : Error) × (r ≡ err e))
Result-cases (ok a) = inl (a, refl)
Result-cases (err e) = inr (e, refl)

-- The call succeeded and left room below the interval, or it failed.
abbrev pub HasRoom : Generator → Call (Unit {0}) → Type 0
HasRoom g r =
    IsWellFormed r.gen
    × (r.gen.reseed_interval ≡ g.reseed_interval)
    × (((r.result ≡ ok tt) × (r.gen.generated_since_reseed < at_least_one r.gen.reseed_interval))
        ⊎ ((e : Error) × (r.result ≡ err e)))

module _ (crates : Crates) (cpu : Cpu) (doc : Documented crates) where
  restarted-HasRoom :
      (w : World) (g : Generator) (b : Backend)
      → IsWellFormed g
      → HasRoom g (restarted crates cpu w (record g { backend = b }))
  restarted-HasRoom w g b h =
      let wiped = length-zeroize crates cpu doc g.buffer ∙ h.0.0 in
      let some_room = at_least_one_pos g.reseed_interval in
      (
        (
          (
            wiped,
            omega arith,
            take_all 16 (crates.zeroize_slice g.buffer) (omega (arith, wiped))
                ∙ zeroize-zeros crates cpu doc 16 g.buffer h.0.0,
          ),
          omega arith,
        ),
        refl,
        inl (refl, omega (arith, some_room)),
      )

  reset-HasRoom :
      (w : World) (g : Generator) (answer : Result (List ℕ))
      → IsWellFormed g
      → HasRoom g (reset crates cpu w g answer)
  reset-HasRoom w g (err e) h = (h, refl, inr (e, refl))
  reset-HasRoom w g (ok seed) h = elim (Result-cases (reset_from_seed crates cpu g.backend seed)) [
    | inl (b, e) ↦ rw (e, reset) (restarted-HasRoom w g b h)
    | inr (f, e) ↦ rw (e, reset) (h, refl, inr (f, refl))
  ]

  reseed-HasRoom : (w : World) (g : Generator) → IsWellFormed g → HasRoom g (reseed crates cpu w g)
  unfolding reseed
  reseed-HasRoom w g h =
      let drawn = cpu_rng_fill crates w.detected_rdseed (replicate seed_size 0) w.rdseed in
      let w₁ : World = record w { rdseed = drawn.answers } in
      let answer = fill_from_os w₁ in
      elim (Bool-cases drawn.filled) [
        | inl e ↦ rw e (restarted-HasRoom w₁ g (reseed_blend crates cpu g.backend drawn.out) h)
        | inr e ↦ rw e (reset-HasRoom answer.0 g answer.1 h)
      ]

  pub reseed_if_due-HasRoom :
      (w : World) (g : Generator) → IsWellFormed g → HasRoom g (reseed_if_due crates cpu w g)
  reseed_if_due-HasRoom w g h =
      let limit = at_least_one g.reseed_interval in
      elim (Bool-cases (leb limit g.generated_since_reseed)) [
        | inl e ↦ rw e (reseed-HasRoom w g h)
        | inr e ↦ rw e (h, refl, inl (refl, ground arith))
      ]

  pub fill_chunk-IsWellFormed :
      (g : Generator) (len : ℕ)
      → IsWellFormed g
      → (let chunk = fill_chunk crates cpu g len in
          IsWellFormed chunk.0
          × (chunk.0.reseed_interval ≡ g.reseed_interval)
          × (length chunk.1 ≡ min len (at_least_one g.reseed_interval - g.generated_since_reseed)))
  unfolding fill_chunk
  fill_chunk-IsWellFormed g len h =
      let taken = min len (at_least_one g.reseed_interval - g.generated_since_reseed) in
      let f = fill-upcoming crates cpu doc g taken 0 h.0 in
      ((f.0, omega (arith, h, ap at_least_one f.3)), f.3, f.2)
