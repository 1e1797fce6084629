-- ===== src/Gcm/Nonce.antt =====
-- src/aes_gcm/nonce.rs and src/aes_gcm/fork.rs: the generator of unique nonces. What the platform
-- answers, the process and the OS entropy, is an argument of each call.
pub mod Unique
pub mod Fork
use hardware_rust_crypto.Prelude.{
  ℕ, ◌+◌, ◌%◌, ◌^◌, ◌≡◌, Bool, true, false, not, List, Option, none, some, take, replicate, ◌++◌,
  ◌==◌, if◌then◌else◌, from_le_bytes, to_le_bytes,
}
use hardware_rust_crypto.Gcm.Error.{Error, Result, ok, err, and_then}

-- What a process sees: the generation kept by the `pthread_atfork` handler, if it is installed,
-- and the process id.
pub record Process : Type 0 where
  pub generation : Option ℕ
  pub pid : ℕ

pub data ForkGuard : Type 0 where
  of_generation of_process_id : ℕ → ForkGuard

unfoldable pub capture : Process → ForkGuard
capture p = elim p.generation [ none ↦ of_process_id p.pid | some g ↦ of_generation g ]

unfoldable pub unchanged : ForkGuard → Process → Bool
unchanged (of_generation seen) p = elim p.generation [ none ↦ false | some g ↦ g == seen ]
unchanged (of_process_id seen) p = p.pid == seen

pub record NonceGen : Type 0 where
  pub base : ℕ
  pub counter : ℕ
  pub fork_guard : ForkGuard

-- A generator after a call, and the result.
abbrev pub Call : Type 0 → Type 0
Call A = NonceGen × Result A

-- What `getrandom::fill` puts into 12 bytes, or its failure.
abbrev pub Entropy : Type 0
Entropy = Option (List ℕ)

unfoldable pub os_salt : Entropy → Result ℕ
unfolding from_le_bytes
os_salt none = err Error.os_entropy
os_salt (some bytes) = ok (from_le_bytes (bytes ++ replicate 4 0) % 2 ^ 96)

unfoldable pub nonce_value : ℕ → ℕ → List ℕ
unfolding to_le_bytes
nonce_value base counter = take 12 (to_le_bytes 16 ((base + counter) % 2 ^ 128 % 2 ^ 96))

unfoldable pub new : Process → Entropy → Result NonceGen
unfolding os_salt capture
new p entropy =
    and_then (os_salt entropy)
      (λ base. ok (record { base = base; counter = 0; fork_guard = capture p }))

-- A failed draw leaves the generator as it was.
unfoldable pub resalt : Process → Entropy → NonceGen → Call (Unit {0})
unfolding os_salt capture
resalt p entropy gen = elim (os_salt entropy) [
  | err e ↦ (gen, err e)
  | ok base ↦ (record { base = base; counter = 0; fork_guard = capture p }, ok tt)
]

-- `e?` of a call that changes the generator.
abbrev pub after : {A : Type 0} → (NonceGen → Call A) → Call (Unit {0}) → Call A
after f (gen, ok done) = f gen
after f (gen, err e) = (gen, err e)

-- The part of `next` behind the fork check.
unfoldable pub take_nonce : Process → Entropy → NonceGen → Call (List ℕ)
unfolding nonce_value resalt
take_nonce p entropy gen =
    let nonce = nonce_value gen.base gen.counter in
    let stepped : NonceGen = record gen { counter = (gen.counter + 1) % 2 ^ 64 } in
    if stepped.counter == 0
    then after (λ gen'. (gen', ok nonce)) (resalt p entropy stepped)
    else (stepped, ok nonce)

-- One call draws for a fork, for a wrap of the counter, or not at all: the counter is 0 after the
-- first draw, so the second entropy is then not asked for.
unfoldable pub next : Process → Entropy → Entropy → NonceGen → Call (List ℕ)
unfolding unchanged resalt take_nonce
next p for_fork for_wrap gen =
    if not (unchanged gen.fork_guard p)
    then after (take_nonce p for_wrap) (resalt p for_fork gen)
    else take_nonce p for_wrap gen
