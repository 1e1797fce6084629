-- ===== src/Random/Lifecycle/Total.antt =====
-- That `fill_checked` of src/random/mod.rs returns, what it leaves, and how much it writes.
use hardware_rust_crypto.Prelude.{
  ℕ, zero, suc, ◌+◌, ◌-◌, ◌≤◌, ◌<◌, ◌≡◌, refl, ap, ◌∙◌, ◌⊎◌, inl, inr, List, [], Option, none, some,
  length, length-append, min, arith,
}
use hardware_rust_crypto.Cpu.{Cpu}
use hardware_rust_crypto.Gcm.Crates.{Crates, Documented}
use hardware_rust_crypto.Random.Error.{Error, Result, ok, err}
use hardware_rust_crypto.Random.Fork.{check}
use hardware_rust_crypto.Random.Generator.{World, Generator}
use hardware_rust_crypto.Random.Lifecycle.{
  Filled, at_least_one, prepend, reseed_if_due, fill_chunk, fill_loop, fill_checked,
}
use hardware_rust_crypto.Random.Lifecycle.Invariant.{
  IsWellFormed, Result-cases, reseed_if_due-HasRoom, fill_chunk-IsWellFormed,
}

-- All of the slice is written, or the call failed before its end.
abbrev pub IsFilled : ℕ → Filled → Type 0
IsFilled len f =
    ((f.result ≡ ok tt) × (length f.out ≡ len))
    ⊎ ((e : Error) × (f.result ≡ err e) × (length f.out < len))

-- The run of a fill: it returned.
abbrev pub Returns : ℕ → Option Filled → Type 0
Returns len o = (f : Filled) × (o ≡ some f) × IsWellFormed f.gen × IsFilled len f

module _ (crates : Crates) (cpu : Cpu) (doc : Documented crates) where
  prepend-IsFilled :
      (chunk : List ℕ) (f : Filled) (rest len : ℕ)
      → length chunk + rest ≡ len
      → IsFilled rest f
      → IsFilled len (prepend chunk f)
  prepend-IsFilled chunk f rest len e (inl (o, l)) =
      inl (o, omega (arith, length-append chunk f.out))
  prepend-IsFilled chunk f rest len e (inr (x, o, l)) =
      inr (x, o, omega (arith, length-append chunk f.out))

  pub fill_loop-Returns :
      (fuel len : ℕ) (w : World) (g : Generator)
      → len ≤ fuel
      → IsWellFormed g
      → Returns len (fill_loop crates cpu fuel w g len)
  unfolding fill_loop
  fill_loop-Returns fuel zero w g enough h =
      (record { world = w; gen = g; out = []; result = ok tt }, refl, h, inl (refl, refl))
  fill_loop-Returns zero (suc n) w g enough h = absurd (omega arith)
  fill_loop-Returns (suc fuel) (suc n) w g enough h =
      let r = reseed_if_due crates cpu w g in
      let due = reseed_if_due-HasRoom crates cpu doc w g h in
      let limit = at_least_one r.gen.reseed_interval in
      let taken = min (suc n) (limit - r.gen.generated_since_reseed) in
      let chunk = fill_chunk crates cpu r.gen (suc n) in
      let left = suc n - taken in
      let c = fill_chunk-IsWellFormed crates cpu doc r.gen (suc n) due.0 in
      let after = λ (q : Result (Unit {0})). elim q as (λ _. Option Filled) [
        | err e ↦ some (record { world = r.world; gen = r.gen; out = []; result = err e })
        | ok done ↦ elim (fill_loop crates cpu fuel r.world chunk.0 left) as (λ _. Option Filled) [
          | none ↦ none
          | some f ↦ some (prepend chunk.1 f)
        ]
      ] in
      elim due.2 [
        | inl (o, room) ↦
            let ih =
              fill_loop-Returns fuel left r.world chunk.0 (omega (arith, room, enough)) c.0 in
            let f = ih.0 in
            (
              prepend chunk.1 f,
              ap after o ∙ (λ i. elim (ih.1 i) as (λ _. Option Filled) [
                | none ↦ none
                | some f ↦ some (prepend chunk.1 f)
              ]),
              ih.2,
              prepend-IsFilled chunk.1 f left (suc n) (omega (arith, c.2)) ih.3,
            )
        | inr (x, o) ↦ (
          record { world = r.world; gen = r.gen; out = []; result = err x },
          ap after o,
          due.0,
          inr (x, refl, omega arith),
        )
      ]

  -- `fill_checked` returns, for every length, generator and world: its loop, which writes at least
  -- one byte in a round, needs no more rounds than there are bytes. On success exactly the length
  -- asked for is written. On failure less than that is written, or the slice was empty. The
  -- generator that it leaves is well-formed again: the buffer is one block whose used part is
  -- zeros, and no more bytes than the reseed interval count since the last reseed.
  pub fill_checked-Returns :
      (w : World) (g : Generator) (len : ℕ)
      → IsWellFormed g
      → (f : Filled) × (fill_checked crates cpu w g len ≡ some f)
        × IsWellFormed f.gen
        × (((f.result ≡ ok tt) × (length f.out ≡ len))
            ⊎ ((e : Error) × (f.result ≡ err e) × (length f.out ≤ len - 1)))
  unfolding fill_checked
  fill_checked-Returns w g len h =
      let checked = check w.atfork g.fork_guard w.process in
      let w₁ : World = record w { process = checked.0 } in
      let run = fill_loop-Returns len len w₁ g (omega arith) h in
      let after = λ (q : Result (Unit {0})). elim q as (λ _. Option Filled) [
        | err e ↦ some (record { world = w₁; gen = g; out = []; result = err e })
        | ok done ↦ fill_loop crates cpu len w₁ g len
      ] in
      elim (Result-cases checked.1) [
        | inl (done, o) ↦ (run.0, ap after o ∙ run.1, run.2, weaken len run.0 run.3)
        | inr (x, o) ↦ (
          record { world = w₁; gen = g; out = []; result = err x },
          ap after o,
          h,
          inr (x, refl, omega arith),
        )
      ]
    where
      weaken :
          (len : ℕ) (f : Filled)
          → IsFilled len f
          → (((f.result ≡ ok tt) × (length f.out ≡ len))
              ⊎ ((e : Error) × (f.result ≡ err e) × (length f.out ≤ len - 1)))
      weaken len f (inl q) = inl q
      weaken len f (inr (x, o, l)) = inr (x, o, omega arith)
