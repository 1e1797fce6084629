-- ===== src/Gcm/Nonce/Unique.antt =====
-- That the generator does not repeat itself.
use native.Mathlib.Nat.{mod-eq_of_lt}
use hardware_rust_crypto.Prelude.{
  ℕ, zero, suc, ◌+◌, ◌%◌, ◌^◌, ◌<◌, ◌≡◌, refl, sym, ap, ◌∙◌, true, false, List, take, to_le_bytes,
  from_le_bytes, from_le_bytes-to_le_bytes, ◌==◌, none, ==_iff, ◌-◌, arith,
}
use hardware_rust_crypto.Gcm.Error.{Error, Result, ok, err}
use hardware_rust_crypto.Gcm.KeyState.Authentic.{ok-injective}
use hardware_rust_crypto.Gcm.Nonce.{
  Process, Entropy, Call, ForkGuard, NonceGen, unchanged, nonce_value, os_salt, resalt, take_nonce,
  next,
}

-- The nonce is the 96-bit sum in little-endian order.
pub nonce_value_lem :
    (base counter : ℕ) → nonce_value base counter ≡ to_le_bytes 12 ((base + counter) % 2 ^ 96)
unfolding nonce_value to_le_bytes
nonce_value_lem base counter =
    let low : (base + counter) % 2 ^ 128 % 2 ^ 96 ≡ (base + counter) % 2 ^ 96 = omega arith in
    low_bytes ((base + counter) % 2 ^ 128 % 2 ^ 96) ∙ ap (to_le_bytes 12) low
  where
    low_bytes : (x : ℕ) → take 12 (to_le_bytes 16 x) ≡ to_le_bytes 12 x
    low_bytes x = unfold to_le_bytes in refl

-- Under one base, two counters below 2^64 give the same nonce only if they are equal.
pub nonce_value-injective :
    (base i j : ℕ) → i < 2 ^ 64 → j < 2 ^ 64 → nonce_value base i ≡ nonce_value base j → i ≡ j
nonce_value-injective base i j hi hj e =
    let at = λ (c : ℕ). (base + c) % 2 ^ 96 in
    let value = λ (c : ℕ). from_le_bytes-to_le_bytes 12 (at c) (omega arith) in
    let same : at i ≡ at j =
      sym (value i)
      ∙ ap from_le_bytes (sym (nonce_value_lem base i) ∙ e ∙ nonce_value_lem base j)
      ∙ value j in
    omega arith

wraps_not : (c : ℕ) → c + 1 < 2 ^ 64 → ((c + 1) % 2 ^ 64 == 0) ≡ false
wraps_not c h = rw (mod-eq_of_lt h) (ground (arith, ==_iff (c + 1) 0))

-- A call in the generator's own process, short of the wrap.
next_quiet :
    (p : Process) (f w : Entropy) (gen : NonceGen)
    → unchanged gen.fork_guard p ≡ true
    → gen.counter + 1 < 2 ^ 64
    → next p f w gen
      ≡ (record gen { counter = gen.counter + 1 }, ok (nonce_value gen.base gen.counter))
unfolding next take_nonce
next_quiet p f w gen same room = rw same (
    rw (wraps_not gen.counter room) (
      ap
        (λ c. (
          record { base = gen.base; counter = c; fork_guard = gen.fork_guard },
          ok (nonce_value gen.base gen.counter),
        ))
        (mod-eq_of_lt room)))

-- The generator after `n` calls in one process, with no entropy at hand.
unfoldable pub after_calls : ℕ → Process → NonceGen → NonceGen
unfolding next
after_calls zero p gen = gen
after_calls (suc n) p gen = after_calls n p (next p none none gen).0

after_calls_lem :
    (n : ℕ) (p : Process) (gen : NonceGen)
    → unchanged gen.fork_guard p ≡ true
    → gen.counter + n < 2 ^ 64
    → after_calls n p gen ≡ record gen { counter = gen.counter + n }
unfolding after_calls
after_calls_lem zero p gen same room =
    ap (λ c. record { base = gen.base; counter = c; fork_guard = gen.fork_guard }) (omega arith)
after_calls_lem (suc n) p gen same room =
    ap (λ (r : Call (List ℕ)). after_calls n p r.0) (next_quiet p none none gen same (omega arith))
    ∙ after_calls_lem n p (record gen { counter = gen.counter + 1 }) same (omega arith)
    ∙ ap (λ c. record { base = gen.base; counter = c; fork_guard = gen.fork_guard }) (omega arith)

-- What call number `n` returns.
abbrev pub nth_nonce : ℕ → Process → NonceGen → Result (List ℕ)
nth_nonce n p gen = (next p none none (after_calls n p gen)).1

-- The call behind `n` others.
next-after_calls :
    (n : ℕ) (p : Process) (gen : NonceGen)
    → unchanged gen.fork_guard p ≡ true
    → gen.counter + n + 1 < 2 ^ 64
    → next p none none (after_calls n p gen)
      ≡ (record gen { counter = gen.counter + n + 1 }, ok (nonce_value gen.base (gen.counter + n)))
next-after_calls n p gen same room =
    ap (next p none none) (after_calls_lem n p gen same (omega arith))
    ∙ next_quiet p none none (record gen { counter = gen.counter + n }) same room

-- In a process that the generator knows, short of 2^64 nonces, the call behind `n` others succeeds
-- with no entropy: the nonce is the sum of base, counter and `n` modulo 2^96, its twelve bytes
-- lowest first, and the generator is left with the same base and guard and a counter of `n + 1`
-- more.
pub nth_nonce_lem :
    (n : ℕ) (p : Process) (gen : NonceGen)
    → unchanged gen.fork_guard p ≡ true
    → gen.counter + n + 1 < 2 ^ 64
    → next p none none (after_calls n p gen) ≡ (
      record gen { counter = gen.counter + n + 1 },
      ok (to_le_bytes 12 ((gen.base + (gen.counter + n)) % 2 ^ 96)),
    )
nth_nonce_lem n p gen same room =
    next-after_calls n p gen same room
    ∙ ap (λ nonce. (record gen { counter = gen.counter + n + 1 }, ok nonce))
        (nonce_value_lem gen.base (gen.counter + n))

-- No two calls return the same nonce: in a process that the generator knows, short of 2^64
-- nonces, the results of two calls are equal only if they are the same call.
pub nth_nonce-injective :
    (i j : ℕ) (p : Process) (gen : NonceGen)
    → unchanged gen.fork_guard p ≡ true
    → gen.counter + i + 1 < 2 ^ 64
    → gen.counter + j + 1 < 2 ^ 64
    → nth_nonce i p gen ≡ nth_nonce j p gen
    → i ≡ j
nth_nonce-injective i j p gen same hi hj e =
    let returned = λ (n : ℕ) (room : gen.counter + n + 1 < 2 ^ 64).
      ap (λ (r : Call (List ℕ)). r.1) (next-after_calls n p gen same room) in
    let equal = ok-injective (sym (returned i hi) ∙ e ∙ returned j hj) in
    omega (
      arith,
      nonce_value-injective gen.base (gen.counter + i) (gen.counter + j) (omega arith) (omega arith)
          equal,
    )

next_wrap :
    (p : Process) (base : ℕ) (guard : ForkGuard)
    → unchanged guard p ≡ true
    → next p none none (record { base = base; counter = 2 ^ 64 - 1; fork_guard = guard })
      ≡ (record { base = base; counter = 0; fork_guard = guard }, err Error.os_entropy)
unfolding next resalt take_nonce os_salt
next_wrap p base guard same = rw same refl

-- At the last counter with no entropy the call fails, but the counter is 0 and the base is the old
-- one: the next call then returns the first nonce of the exhausted sequence once more.
pub next-repeats_after_failed_wrap :
    (p : Process) (base : ℕ) (guard : ForkGuard)
    → unchanged guard p ≡ true
    → (let gen : NonceGen = record { base = base; counter = 2 ^ 64 - 1; fork_guard = guard } in
        (nth_nonce 0 p gen ≡ err Error.os_entropy) × (nth_nonce 1 p gen ≡ ok (nonce_value base 0)))
next-repeats_after_failed_wrap p base guard same =
    let last : NonceGen = record { base = base; counter = 2 ^ 64 - 1; fork_guard = guard } in
    let wrapped = next_wrap p base guard same in
    (
      ap (λ (r : Call (List ℕ)). r.1) (ap (next p none none) (nothing_called last) ∙ wrapped),
      ap (λ g. (next p none none g).1) (called_once last ∙ ap (λ (r : Call (List ℕ)). r.0) wrapped)
          ∙ ap (λ (r : Call (List ℕ)). r.1)
              (next_quiet p none none (record { base = base; counter = 0; fork_guard = guard }) same
                (omega arith)),
    )
  where
    nothing_called : (gen : NonceGen) → after_calls 0 p gen ≡ gen
    nothing_called gen = unfold after_calls in refl

    called_once : (gen : NonceGen) → after_calls 1 p gen ≡ (next p none none gen).0
    called_once gen = unfold after_calls in refl
