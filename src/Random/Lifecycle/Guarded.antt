-- ===== src/Random/Lifecycle/Guarded.antt =====
-- `fill_checked` of src/random/mod.rs where no reseed is due, across a fork, and where a reseed
-- fails.
use hardware_rust_crypto.Prelude.{
  ℕ, suc, ◌+◌, ◌-◌, ◌≤◌, ◌<◌, ◌≡◌, ◌^◌, refl, ap, ◌∙◌, Bool, true, false, List, [], ◌∷◌, append-nil,
  Option, none, some, replicate, min, leb, le→leb, ◌==◌, if◌then◌else◌, arith,
}
use hardware_rust_crypto.Cpu.{Cpu}
use hardware_rust_crypto.Gcm.Crates.{Crates}
use hardware_rust_crypto.Random.Error.{os_entropy, fork_detected, Result, ok, err}
use hardware_rust_crypto.Random.Fork.{Process, capture, check, get_or_init, or_fork_detected}
use hardware_rust_crypto.Random.Fork.Detect.{Descends, check-captured}
use hardware_rust_crypto.Random.Entropy.{Answers, Drawn, cpu_rng_fill, fill}
use hardware_rust_crypto.Random.Generator.{
  World, Generator, OsAnswer, failed, fill_from_os, fill_without_lifecycle_checks, seed_size,
  reseed_blend,
}
use hardware_rust_crypto.Random.Lifecycle.{
  Call, Filled, at_least_one, prepend, reset, restarted, reseed, reseed_if_due, fill_chunk,
  fill_loop, fill_checked,
}

module _ (crates : Crates) (cpu : Cpu) where
  abbrev filled_with : Filled → Option Filled
  filled_with f = some f

  -- What `fill_checked` does behind its check.
  abbrev pub behind_check : World → Generator → ℕ → Result (Unit {0}) → Option Filled
  behind_check w g len (err e) = some (record { world = w; gen = g; out = []; result = err e })
  behind_check w g len (ok done) = fill_loop crates cpu len w g len

  abbrev pub checked_world : World → Generator → World
  checked_world w g = record w { process = (check w.atfork g.fork_guard w.process).0 }

  fill_checked_lem :
      (w : World) (g : Generator) (len : ℕ) (r : Result (Unit {0}))
      → (check w.atfork g.fork_guard w.process).1 ≡ r
      → fill_checked crates cpu w g len ≡ behind_check (checked_world w g) g len r
  unfolding fill_checked
  fill_checked_lem w g len r e =
      let w₁ = checked_world w g in
      ap
        (λ q. elim q as (λ _. Option Filled) [
          | err e ↦ some (record { world = w₁; gen = g; out = []; result = err e })
          | ok done ↦ fill_loop crates cpu len w₁ g len
        ])
        e
      ∙ same r
    where
      same :
          (q : Result (Unit {0}))
          → ◌≡◌ {A = Option Filled}
              (elim q as (λ _. Option Filled) [
                | err e ↦
                    some (record { world = checked_world w g; gen = g; out = []; result = err e })
                | ok done ↦ fill_loop crates cpu len (checked_world w g) g len
              ])
              (behind_check (checked_world w g) g len q)
      same (ok done) = refl
      same (err x) = refl

  -- The bytes of one chunk, and the generator with its count.
  abbrev pub one_chunk : World → Generator → ℕ → Filled
  one_chunk w g len =
      let f = fill_without_lifecycle_checks crates cpu g len in
      record {
        world = w;
        gen = record (f.0) { generated_since_reseed = g.generated_since_reseed + len };
        out = f.1;
        result = ok tt;
      }

  -- A round of the loop behind the reseed.
  abbrev pub after_due : ℕ → ℕ → Call (Unit {0}) → Option Filled
  after_due fuel n r = elim r.result as (λ _. Option Filled) [
    | err e ↦ some (record { world = r.world; gen = r.gen; out = []; result = err e })
    | ok done ↦
        let taken =
          min (suc n) (at_least_one r.gen.reseed_interval - r.gen.generated_since_reseed) in
        let chunk = fill_chunk crates cpu r.gen (suc n) in
        let rest = fill_loop crates cpu fuel r.world chunk.0 (suc n - taken) in
        elim rest as (λ _. Option Filled) [ none ↦ none | some f ↦ some (prepend chunk.1 f) ]
  ]

  round_lem :
      (fuel n : ℕ) (w : World) (g : Generator)
      → fill_loop crates cpu (suc fuel) w g (suc n)
        ≡ after_due fuel n (reseed_if_due crates cpu w g)
  unfolding fill_loop
  round_lem fuel n w g = refl

  -- A chunk of `k` bytes and the loop for the rest of `n`.
  abbrev chunk_then : ℕ → ℕ → World → Generator → ℕ → Option Filled
  chunk_then fuel k w g left =
      let f = fill_without_lifecycle_checks crates cpu g k in
      elim (fill_loop crates cpu fuel w
          (record (f.0) { generated_since_reseed = g.generated_since_reseed + k }) left)
        as (λ _. Option Filled) [ none ↦ none | some rest ↦ some (prepend f.1 rest) ]

  chunk_then-last :
      (fuel k : ℕ) (w : World) (g : Generator) → chunk_then fuel k w g 0 ≡ some (one_chunk w g k)
  unfolding fill_loop
  chunk_then-last fuel k w g =
      let f = fill_without_lifecycle_checks crates cpu g k in
      ap
        (λ t. filled_with (record {
          world = w;
          gen = record (f.0) { generated_since_reseed = g.generated_since_reseed + k };
          out = t;
          result = ok tt;
        }))
        (append-nil f.1)

  fill_loop-one_chunk :
      (fuel n : ℕ) (w : World) (g : Generator)
      → g.generated_since_reseed + suc n ≤ at_least_one g.reseed_interval
      → fill_loop crates cpu (suc fuel) w g (suc n) ≡ some (one_chunk w g (suc n))
  unfolding fill_chunk
  fill_loop-one_chunk fuel n w g room =
      let limit = at_least_one g.reseed_interval in
      let not_due : leb limit g.generated_since_reseed ≡ false = ground arith in
      let all : min (suc n) (limit - g.generated_since_reseed) ≡ suc n = omega arith in
      let none_left : suc n - suc n ≡ 0 = omega arith in
      round_lem fuel n w g
      ∙ ap
          (λ b.
            after_due fuel n
              (if b then reseed crates cpu w g else record { world = w; gen = g; result = ok tt }))
          not_due
      ∙ ap (λ k. chunk_then fuel k w g (suc n - k)) all
      ∙ ap (chunk_then fuel (suc n) w g) none_left
      ∙ chunk_then-last fuel (suc n) w g

  -- In the process that the guard knows, and up to the reseed interval, `fill_checked` gives the
  -- bytes of `fill_without_lifecycle_checks` and counts them.
  pub fill_checked-one_chunk :
      (w : World) (g : Generator) (n : ℕ)
      → (check w.atfork g.fork_guard w.process).1 ≡ ok tt
      → g.generated_since_reseed + suc n ≤ at_least_one g.reseed_interval
      → fill_checked crates cpu w g (suc n) ≡ some (one_chunk (checked_world w g) g (suc n))
  fill_checked-one_chunk w g n known room =
      fill_checked_lem w g (suc n) (ok tt) known
      ∙ fill_loop-one_chunk n n (checked_world w g) g room

  -- A generator that crossed a fork: where the handler was installed when its guard was captured,
  -- in every process behind one to 2^64 - 1 forks, the call fails with `fork_detected`, writes
  -- nothing, and the generator stays as it was, whatever its buffer holds.
  pub fill_checked-forked :
      (p : Process) (atfork : Bool) (w : World) (g : Generator) (n len : ℕ)
      → p.fork_generation < 2 ^ 64
      → get_or_init atfork p.installed ≡ true
      → suc n < 2 ^ 64
      → Descends (capture atfork p).0 (suc n) w.process
      → g.fork_guard ≡ (capture atfork p).1
      → fill_checked crates cpu w g len
        ≡ some (record { world = checked_world w g; gen = g; out = []; result = err fork_detected })
  fill_checked-forked p atfork w g n len small installed few descends captured =
      let forked : (suc n == 0) ≡ false = ground arith in
      fill_checked_lem w g len (err fork_detected) (
        ap (λ guard. (check w.atfork guard w.process).1) captured
        ∙ check-captured atfork w.atfork p w.process (suc n) small few descends
        ∙ ap (λ b. or_fork_detected (if b then suc n == 0 else (w.process.pid == p.pid))) installed
        ∙ ap or_fork_detected forked)

  -- `reseed` behind the draw from the CPU.
  abbrev reseed_from : World → Generator → Drawn → Call (Unit {0})
  reseed_from w g drawn =
      let w₁ : World = record w { rdseed = drawn.answers } in
      let answer = fill_from_os w₁ in
      if drawn.filled
      then restarted crates cpu w₁
          (record g { backend = reseed_blend crates cpu g.backend drawn.out })
      else reset crates cpu answer.0 g answer.1

  reseed_lem :
      (w : World) (g : Generator)
      → reseed crates cpu w g
        ≡ reseed_from w g (cpu_rng_fill crates w.detected_rdseed (replicate seed_size 0) w.rdseed)
  unfolding reseed
  reseed_lem w g = refl

  no_draw :
      (out : List ℕ) (answers : Answers)
      → cpu_rng_fill crates false out answers
        ≡ record { answers = answers; out = crates.zeroize_slice out; filled = false }
  unfolding cpu_rng_fill fill
  no_draw out answers = refl

  fill_from_os-failed :
      (w : World) (code : ℕ) (rest : List OsAnswer)
      → w.os ≡ failed code ∷ rest
      → fill_from_os w ≡ (record w { os = rest }, err (os_entropy code))
  unfolding fill_from_os
  fill_from_os-failed w code rest os = rw os refl

  reseed-starved :
      (w : World) (g : Generator) (code : ℕ) (rest : List OsAnswer)
      → w.detected_rdseed ≡ false
      → w.os ≡ failed code ∷ rest
      → reseed crates cpu w g
        ≡ record { world = record w { os = rest }; gen = g; result = err (os_entropy code) }
  reseed-starved w g code rest no_rdseed os =
      reseed_lem w g
      ∙ ap (λ b. reseed_from w g (cpu_rng_fill crates b (replicate seed_size 0) w.rdseed)) no_rdseed
      ∙ ap (reseed_from w g) (no_draw (replicate seed_size 0) w.rdseed)
      ∙ ap (λ (answer : World × Result (List ℕ)). reset crates cpu answer.0 g answer.1)
          (fill_from_os-failed w code rest os)

  -- With the interval used up, no RDSEED and a failing OS source, no byte is given out: the call
  -- fails with the error of the source and leaves the generator as it was.
  pub fill_checked-starved :
      (w : World) (g : Generator) (n code : ℕ) (rest : List OsAnswer)
      → (check w.atfork g.fork_guard w.process).1 ≡ ok tt
      → at_least_one g.reseed_interval ≤ g.generated_since_reseed
      → w.detected_rdseed ≡ false
      → w.os ≡ failed code ∷ rest
      → fill_checked crates cpu w g (suc n)
        ≡ some (record {
          world = record (checked_world w g) { os = rest };
          gen = g;
          out = [];
          result = err (os_entropy code);
        })
  fill_checked-starved w g n code rest known due no_rdseed os =
      let w₁ = checked_world w g in
      let over : leb (at_least_one g.reseed_interval) g.generated_since_reseed ≡ true =
        le→leb (at_least_one g.reseed_interval) g.generated_since_reseed due in
      fill_checked_lem w g (suc n) (ok tt) known
      ∙ round_lem n n w₁ g
      ∙ ap
          (λ b.
            after_due n n (
              if b then reseed crates cpu w₁ g else record { world = w₁; gen = g; result = ok tt }))
          over
      ∙ ap (after_due n n) (reseed-starved w₁ g code rest no_rdseed os)
