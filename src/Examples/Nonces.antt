-- ===== src/Examples/Nonces.antt =====
-- The theorems on nonces and handles at the fixtures.
use hardware_rust_crypto.Prelude.{
  ℕ, ◌+◌, ◌-◌, ◌%◌, ◌^◌, ◌≡◌, refl, true, List, none, some, length, replicate, IsBytes, inl,
  from_le_bytes, to_le_bytes, arith,
}
use hardware_rust_crypto.Gcm.Error.{Error, ok, err}
use hardware_rust_crypto.Gcm.Nonce.{
  Process, of_generation, NonceGen, unchanged, capture, nonce_value, next,
}
use hardware_rust_crypto.Gcm.Nonce.Unique.{
  nth_nonce, after_calls, nth_nonce_lem, nth_nonce-injective, next-repeats_after_failed_wrap,
}
use hardware_rust_crypto.Gcm.Nonce.Fork.{observed, next-forked}
use hardware_rust_crypto.Random.Fork.{Process as Statics, generation}
use hardware_rust_crypto.Random.Fork.Detect.{Descends, child}
use hardware_rust_crypto.Gcm.Handle.{Handle, Platform, next_nonce, step_gen, encrypt, decrypt}
use hardware_rust_crypto.Gcm.Handle.Fresh.{handle-decrypt-encrypt}
use hardware_rust_crypto.Examples.Fixtures.{
  cpu, ready, state, aad, text, text-IsBytes, replicate-IsBytes, crates, documented,
}

abbrev parent : Process
parent = record { generation = some 3; pid = 100 }

abbrev pub gen : NonceGen
gen = record { base = 12345; counter = 9; fork_guard = of_generation 3 }

at_home : unchanged (of_generation 3) parent ≡ true
unfolding unchanged
at_home = refl

nth_nonce_lem_example :
    next parent none none (after_calls 5 parent gen)
    ≡ (record gen { counter = 9 + 5 + 1 }, ok (to_le_bytes 12 ((12345 + (9 + 5)) % 2 ^ 96)))
nth_nonce_lem_example = nth_nonce_lem 5 parent gen at_home (omega arith)

nth_nonce-injective_example : ◌≡◌ {A = ℕ} 5 5
nth_nonce-injective_example =
    nth_nonce-injective 5 5 parent gen at_home (omega arith) (omega arith) refl

abbrev salt : List ℕ
salt = replicate 12 200

salt-IsBytes : IsBytes salt
salt-IsBytes = replicate-IsBytes 12 200 (omega arith)

-- The handler was installed before, and there was one fork.
abbrev home : Statics
home = record { fork_generation = 3; installed = some true; pid = 100 }

abbrev forked : Statics
forked = child 101 (observed true home).0

bound : gen.fork_guard ≡ capture (observed true home).1
unfolding capture observed generation
bound = refl

next-forked_example :
    (let p = (observed true forked).1 in
      (next p none none gen ≡ (gen, err Error.os_entropy))
      × (next p (some salt) none gen
          ≡ (record { base = from_le_bytes salt; counter = 1; fork_guard = capture p }, ok salt)))
next-forked_example =
    next-forked true true home forked 1 none gen salt (omega arith) (omega arith)
      (Descends.forks Descends.itself 101) (inl (refl, omega arith)) bound refl salt-IsBytes

next-repeats_after_failed_wrap_example :
    (nth_nonce 0 parent
        (record { base = 12345; counter = 2 ^ 64 - 1; fork_guard = of_generation 3 })
      ≡ err Error.os_entropy)
    × (nth_nonce 1 parent
          (record { base = 12345; counter = 2 ^ 64 - 1; fork_guard = of_generation 3 })
        ≡ ok (nonce_value 12345 0))
next-repeats_after_failed_wrap_example =
    next-repeats_after_failed_wrap parent 12345 (of_generation 3) at_home

abbrev pub platform : Platform
platform = record { process = parent; for_new = none; for_fork = none; for_wrap = none }

abbrev handle : Handle
handle = record { state = state; nonce_gen = some gen }

given : (next_nonce platform handle).1 ≡ ok (nonce_value 12345 9)
unfolding next_nonce step_gen
given = refl

handle-decrypt-encrypt_example :
    (sealed : List ℕ) × ((encrypt cpu platform handle aad text).1 ≡ ok sealed)
    × (length sealed ≡ length text + 28)
    × (decrypt cpu crates (encrypt cpu platform handle aad text).0 aad sealed ≡ ok text)
handle-decrypt-encrypt_example =
    handle-decrypt-encrypt crates cpu platform handle (nonce_value 12345 9) aad text documented
      ready given (omega arith, omega arith) text-IsBytes
