-- ===== src/Random/Lifecycle/Reachable.antt =====
-- The generators that the public calls of src/random/mod.rs can leave: made of a seed, and carried
-- on by any calls, in any processes and with any answers of the sources.
use hardware_rust_crypto.Prelude.{
  ℕ, ◌≡◌, refl, sym, ◌∙◌, subst, false, List, some, Bool-cases, inl, inr, arith,
}
use hardware_rust_crypto.Cpu.{Cpu}
use hardware_rust_crypto.Gcm.Crates.{Crates, Documented}
use hardware_rust_crypto.Gcm.KeyState.Authentic.{some-injective}
use hardware_rust_crypto.Random.Error.{Result, ok, err}
use hardware_rust_crypto.Random.Backend.{hardware_available}
use hardware_rust_crypto.Random.Generator.{World, Generator, from_seed_bytes}
use hardware_rust_crypto.Random.Generator.Contiguous.{seeded, from_seed_bytes-seeded}
use hardware_rust_crypto.Random.Lifecycle.{Filled, fill_checked}
use hardware_rust_crypto.Random.Lifecycle.Invariant.{IsWellFormed}
use hardware_rust_crypto.Random.Lifecycle.Total.{fill_checked-Returns}

module _ (crates : Crates) (cpu : Cpu) where
  pub data Reachable : Generator → Type 0 where
    made :
        (w : World) (seed : List ℕ) (g : Generator)
        → (from_seed_bytes crates cpu w seed).1 ≡ ok g
        → Reachable g
    filled :
        (g : Generator) (w : World) (len : ℕ) (f : Filled)
        → Reachable g
        → fill_checked crates cpu w g len ≡ some f
        → Reachable f.gen

  -- What a call that may fail made.
  abbrev IfMade : Result Generator → Type 0
  IfMade (ok g) = IsWellFormed g
  IfMade (err e) = Unit {0}

  seeded-IsWellFormed : (w : World) (seed : List ℕ) → IsWellFormed (seeded crates cpu w seed)
  unfolding seeded
  seeded-IsWellFormed w seed = ((refl, omega arith, refl), omega arith)

  unsupported :
      (w : World) (seed : List ℕ)
      → hardware_available cpu ≡ false
      → IfMade (from_seed_bytes crates cpu w seed).1
  unfolding from_seed_bytes
  unsupported w seed e = rw e tt

  from_seed_bytes-IfMade :
      (w : World) (seed : List ℕ) → IfMade (from_seed_bytes crates cpu w seed).1
  from_seed_bytes-IfMade w seed = elim (Bool-cases (hardware_available cpu)) [
    | inl e ↦
        subst (λ (r : World × Result Generator). IfMade r.1)
          (sym (from_seed_bytes-seeded crates cpu w seed e)) (seeded-IsWellFormed w seed)
    | inr e ↦ unsupported w seed e
  ]

  -- Every generator that the calls can leave is well-formed: its buffer is one block, of which
  -- the part before the cursor, the bytes that were given out, is zeros, and it has not given out
  -- more than the reseed interval since the last reseed.
  pub Reachable-IsWellFormed : (g : Generator) → Documented crates → Reachable g → IsWellFormed g
  Reachable-IsWellFormed g doc (made w seed g₀ e) = subst IfMade e (from_seed_bytes-IfMade w seed)
  Reachable-IsWellFormed g doc (filled g₀ w len f r e) =
      let run = fill_checked-Returns crates cpu doc w g₀ len (Reachable-IsWellFormed g₀ doc r) in
      subst (λ (t : Filled). IsWellFormed t.gen) (some-injective (sym run.1 ∙ e)) run.2
