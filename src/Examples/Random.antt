-- ===== src/Examples/Random.antt =====
-- The theorems on the random generator at concrete generators, processes and answers.
use hardware_rust_crypto.Prelude.{
  ℕ, suc, ◌+◌, ◌-◌, ◌≤◌, ◌≡◌, ◌⊎◌, ◌^◌, refl, ap, true, false, List, [], ◌∷◌, ◌++◌, none, some,
  length, take, drop, replicate, from_le_bytes, IsBytes, ◌==◌, if◌then◌else◌, arith,
}
use hardware_rust_crypto.Aes.{of_array, aes256_key_expansion}
use hardware_rust_crypto.Random.Error.{Error, os_entropy, fork_detected, Result, ok, err}
use hardware_rust_crypto.Random.Fork.{
  Process, ForkGuard, of_generation, capture, check, get_or_init, or_fork_detected,
}
use hardware_rust_crypto.Random.Fork.Detect.{Descends, itself, forks, child, check-captured}
use hardware_rust_crypto.Random.Backend.{Backend, hardware_available}
use hardware_rust_crypto.Random.Wipe.{drop_backend, drop_backend-zeros}
use hardware_rust_crypto.Random.Entropy.{cpu_rng_fill}
use hardware_rust_crypto.Random.Entropy.Screen.{Screened, cpu_rng_fill-Screened}
use hardware_rust_crypto.Random.Generator.{
  World, Generator, failed, from_seed_bytes, fill_without_lifecycle_checks,
}
use hardware_rust_crypto.Random.Generator.Blocks.{ctr_bytes}
use hardware_rust_crypto.Random.Generator.Contiguous.{fill-fill, seeded, from_seed_bytes-seeded}
use hardware_rust_crypto.Random.Lifecycle.{Call, Filled, fill_checked, key_32}
use hardware_rust_crypto.Random.Lifecycle.Invariant.{IsWellFormed}
use hardware_rust_crypto.Random.Lifecycle.Total.{fill_checked-Returns}
use hardware_rust_crypto.Random.Lifecycle.Guarded.{
  checked_world, fill_checked-forked, fill_checked-starved,
}
use hardware_rust_crypto.Random.Lifecycle.Key.{key_32-from_seed_bytes}
use hardware_rust_crypto.Random.Lifecycle.Reachable.{Reachable, made, Reachable-IsWellFormed}
use hardware_rust_crypto.Examples.Fixtures.{cpu, crates, documented, replicate-IsBytes}

abbrev parent : Process
parent = record { fork_generation = 3; installed = none; pid = 100 }

-- The process in which a guard was captured, its child and its grandchild.
abbrev home : Process
home = record { fork_generation = 3; installed = some true; pid = 100 }

captured_home : (capture true parent).0 ≡ home
unfolding capture
captured_home = refl

captured_guard : (capture true parent).1 ≡ of_generation 3
unfolding capture
captured_guard = refl

abbrev grandchild : Process
grandchild = child 100 (child 101 (capture true parent).0)

descends : Descends (capture true parent).0 2 grandchild
descends = forks (forks itself 101) 100

abbrev backend : Backend
backend = record { counter = 2 ^ 128 - 1; round_keys = of_array (replicate 15 77) }

-- Three bytes of the block are given out; the reseed is due at once, the interval being 0.
abbrev generator : ForkGuard → Generator
generator guard = record {
  backend = backend;
  buffer = replicate 3 0 ++ replicate 13 9;
  buffer_pos = 3;
  generated_since_reseed = 1;
  reseed_interval = 0;
  fork_guard = guard;
}

abbrev sound : IsWellFormed (generator (of_generation 3))
sound = ((refl, omega arith, refl), omega arith)

abbrev world : Process → World
world p = record {
  process = p;
  atfork = true;
  detected_rdseed = false;
  rdseed = [];
  os = failed 7 ∷ [];
}

abbrev seed : List ℕ
seed = replicate 48 5

seed-IsBytes : IsBytes seed
seed-IsBytes = replicate-IsBytes 48 5 (omega arith)

ready_random : hardware_available cpu ≡ true
unfolding hardware_available
ready_random = refl

check-captured_example :
    (check true (capture true parent).1 grandchild).1
    ≡ or_fork_detected
        (if get_or_init true parent.installed then 2 == 0 else (grandchild.pid == parent.pid))
check-captured_example =
    check-captured true true parent grandchild 2 (omega arith) (omega arith) descends

cpu_rng_fill-Screened_example :
    Screened 0 1 16 (cpu_rng_fill crates true (replicate 16 0) (none ∷ some 5 ∷ none ∷ some 6 ∷ []))
cpu_rng_fill-Screened_example =
    cpu_rng_fill-Screened crates true (replicate 16 0) (none ∷ some 5 ∷ none ∷ some 6 ∷ []) 0 1
      documented (omega arith) (omega arith)

drop_backend-zeros_example :
    drop_backend 24 backend ≡ record { counter = 0; round_keys = of_array (replicate 15 0) }
drop_backend-zeros_example = drop_backend-zeros 24 backend

fill-fill_example :
    (let g = generator (of_generation 3) in
      let first = fill_without_lifecycle_checks crates cpu g 20 in
      let second = fill_without_lifecycle_checks crates cpu first.0 30 in
      let whole = fill_without_lifecycle_checks crates cpu g (20 + 30) in
      (first.1 ++ second.1 ≡ whole.1)
      × ((fill_without_lifecycle_checks crates cpu second.0 12).1
          ≡ (fill_without_lifecycle_checks crates cpu whole.0 12).1))
fill-fill_example =
    fill-fill crates cpu documented (generator (of_generation 3)) 20 30 12 (refl, omega arith, refl)

fill_checked-Returns_example :
    (f : Filled) × (fill_checked crates cpu (world home) (generator (of_generation 3)) 40 ≡ some f)
    × IsWellFormed f.gen
    × (((f.result ≡ ok tt) × (length f.out ≡ 40))
        ⊎ ((e : Error) × (f.result ≡ err e) × (length f.out ≤ 40 - 1)))
fill_checked-Returns_example =
    fill_checked-Returns crates cpu documented (world home) (generator (of_generation 3)) 40 sound

fill_checked-forked_example :
    fill_checked crates cpu (world grandchild) (generator (capture true parent).1) 32
    ≡ some (record {
      world = checked_world crates cpu (world grandchild) (generator (capture true parent).1);
      gen = generator (capture true parent).1;
      out = [];
      result = err fork_detected;
    })
fill_checked-forked_example =
    fill_checked-forked crates cpu parent true (world grandchild)
      (generator (capture true parent).1) 1 32 (omega arith) refl (omega arith) descends refl

known : (check true (of_generation 3) home).1 ≡ ok tt
unfolding check
known = refl

fill_checked-starved_example :
    fill_checked crates cpu (world home) (generator (of_generation 3)) (suc 31)
    ≡ some (record {
      world = record (checked_world crates cpu (world home) (generator (of_generation 3))) {
        os = [];
      };
      gen = generator (of_generation 3);
      out = [];
      result = err (os_entropy 7);
    })
fill_checked-starved_example =
    fill_checked-starved crates cpu (world home) (generator (of_generation 3)) 31 7 [] known
      (omega arith) refl refl

key_32-from_seed_bytes_example :
    (g : Generator) × ((from_seed_bytes crates cpu (world parent) seed).1 ≡ ok g)
    × (c : Call (List ℕ)) × (key_32 crates cpu (from_seed_bytes crates cpu (world parent) seed).0 g
        ≡ some c)
    × (c.result
        ≡ ok (
            take 32 (
              ctr_bytes cpu
                (aes256_key_expansion cpu (take 32 seed))
                (from_le_bytes (drop 32 seed))
                0
                2)))
key_32-from_seed_bytes_example =
    key_32-from_seed_bytes crates cpu (world parent) seed documented ready_random refl seed-IsBytes
      (omega arith)

reached : Reachable crates cpu (seeded crates cpu (world parent) seed)
reached = made (world parent) seed (seeded crates cpu (world parent) seed) (
    ap (λ (r : World × Result Generator). r.1)
      (from_seed_bytes-seeded crates cpu (world parent) seed ready_random))

Reachable-IsWellFormed_example : IsWellFormed (seeded crates cpu (world parent) seed)
Reachable-IsWellFormed_example =
    Reachable-IsWellFormed crates cpu (seeded crates cpu (world parent) seed) documented reached
