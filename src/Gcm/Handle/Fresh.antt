-- ===== src/Gcm/Handle/Fresh.antt =====
-- The public calls of `HardwareAes256Gcm` under generated nonces.
use hardware_rust_crypto.Prelude.{
  ℕ, ◌+◌, ◌%◌, ◌^◌, ◌≡◌, refl, ap, subst, ◌∙◌, Bool, true, false, not, List, Option, none, some,
  length, IsBytes, ◌==◌, if◌then◌else◌,
}
use hardware_rust_crypto.Cpu.{Cpu}
use hardware_rust_crypto.Ghash.Backend.{hardware_available}
use hardware_rust_crypto.Gcm.Crates.{Crates, Documented}
use hardware_rust_crypto.Gcm.Error.{Result, ok, err, and_then}
use hardware_rust_crypto.Gcm.Seal.{KeyState}
use hardware_rust_crypto.Gcm.Nonce.{
  Process, Entropy, NonceGen, Call, nonce_value, resalt, take_nonce, next, new as new_nonce_gen,
  unchanged, after,
}
use hardware_rust_crypto.Gcm.KeyState.Limits.{InLimits}
use hardware_rust_crypto.Gcm.KeyState.Encrypt.{encrypt_envelope}
use hardware_rust_crypto.Gcm.KeyState.RoundTrip.{decrypt_envelope-encrypt_envelope}
use hardware_rust_crypto.Gcm.Handle.{Handle, Platform, step_gen, next_nonce, encrypt, decrypt}

-- A nonce, if there is one, has 12 bytes.
abbrev pub TwelveBytes : Result (List ℕ) → Type 0
TwelveBytes (ok nonce) = length nonce ≡ 12
TwelveBytes (err e) = Unit {0}

length-nonce_value : (base counter : ℕ) → length (nonce_value base counter) ≡ 12
unfolding nonce_value
length-nonce_value base counter = refl

after-TwelveBytes :
    (f : NonceGen → Call (List ℕ)) (call : Call (Unit {0}))
    → ((gen : NonceGen) → TwelveBytes (f gen).1)
    → TwelveBytes (after f call).1
after-TwelveBytes f (gen, ok done) h = h gen
after-TwelveBytes f (gen, err e) h = tt

if-TwelveBytes :
    (b : Bool) (x y : Call (List ℕ))
    → TwelveBytes x.1
    → TwelveBytes y.1
    → TwelveBytes (if b then x else y).1
if-TwelveBytes true x y h k = h
if-TwelveBytes false x y h k = k

take_nonce-TwelveBytes :
    (p : Process) (w : Entropy) (gen : NonceGen) → TwelveBytes (take_nonce p w gen).1
unfolding take_nonce
take_nonce-TwelveBytes p w gen =
    let nonce : Result (List ℕ) = ok (nonce_value gen.base gen.counter) in
    let stepped : NonceGen = record gen { counter = (gen.counter + 1) % 2 ^ 64 } in
    let answer : NonceGen → Call (List ℕ) = λ gen'. (gen', nonce) in
    if-TwelveBytes (stepped.counter == 0) (after answer (resalt p w stepped)) (stepped, nonce)
      (after-TwelveBytes answer (resalt p w stepped) (λ g. length-nonce_value gen.base gen.counter))
      (length-nonce_value gen.base gen.counter)

pub next-TwelveBytes :
    (p : Process) (f w : Entropy) (gen : NonceGen) → TwelveBytes (next p f w gen).1
unfolding next
next-TwelveBytes p f w gen =
    if-TwelveBytes (not (unchanged gen.fork_guard p)) (after (take_nonce p w) (resalt p f gen))
      (take_nonce p w gen)
      (after-TwelveBytes (take_nonce p w) (resalt p f gen) (take_nonce-TwelveBytes p w))
      (take_nonce-TwelveBytes p w gen)

gen-TwelveBytes :
    (platform : Platform) (state : KeyState) (gen : Option NonceGen)
    → TwelveBytes (next_nonce platform (record { state = state; nonce_gen = gen })).1
unfolding next_nonce step_gen
gen-TwelveBytes platform state (some gen) =
    next-TwelveBytes platform.process platform.for_fork platform.for_wrap gen
gen-TwelveBytes platform state none = made (new_nonce_gen platform.process platform.for_new)
  where
    made :
        (r : Result NonceGen)
        → TwelveBytes
            (elim r as (λ x. Handle × Result (List ℕ)) [
              | err e ↦ (record { state = state; nonce_gen = none }, err e)
              | ok gen ↦ step_gen platform (record { state = state; nonce_gen = none }) gen
            ]).1
    made (err e) = tt
    made (ok gen) = next-TwelveBytes platform.process platform.for_fork platform.for_wrap gen

nonce-TwelveBytes :
    (platform : Platform) (h : Handle) (nonce : List ℕ)
    → (next_nonce platform h).1 ≡ ok nonce
    → length nonce ≡ 12
nonce-TwelveBytes platform h nonce e =
    subst TwelveBytes e (gen-TwelveBytes platform h.state h.nonce_gen)

-- Taking a nonce leaves the key state alone.
next_nonce-state : (platform : Platform) (h : Handle) → (next_nonce platform h).0.state ≡ h.state
next_nonce-state platform h = kept h.state h.nonce_gen
  where
    kept :
        (state : KeyState) (gen : Option NonceGen)
        → (next_nonce platform (record { state = state; nonce_gen = gen })).0.state ≡ state
    kept state (some gen) = unfold next_nonce step_gen in refl
    kept state none =
        unfold next_nonce step_gen in made state (new_nonce_gen platform.process platform.for_new)
      where
        made :
            (state : KeyState) (r : Result NonceGen)
            → (elim r as (λ x. Handle × Result (List ℕ)) [
              | err e ↦ (record { state = state; nonce_gen = none }, err e)
              | ok gen ↦ step_gen platform (record { state = state; nonce_gen = none }) gen
            ]).0.state
              ≡ state
        made state (err e) = refl
        made state (ok gen) = unfold step_gen in refl

-- Whenever the handle has a nonce to give, on a CPU with the instructions, within the limits and
-- for a plaintext of bytes, `encrypt` succeeds with 28 bytes more than the plaintext, and the
-- handle that it leaves decrypts the result to the plaintext.
pub handle-decrypt-encrypt :
    (crates : Crates) (cpu : Cpu) (platform : Platform) (h : Handle) (nonce aad plaintext : List ℕ)
    → Documented crates
    → hardware_available cpu ≡ true
    → (next_nonce platform h).1 ≡ ok nonce
    → InLimits (length aad) (length plaintext)
    → IsBytes plaintext
    → (let call = encrypt cpu platform h aad plaintext in
        (sealed : List ℕ) × (call.1 ≡ ok sealed)
        × (length sealed ≡ length plaintext + 28)
        × (decrypt cpu crates call.0 aad sealed ≡ ok plaintext))
unfolding encrypt decrypt
handle-decrypt-encrypt crates cpu platform h nonce aad plaintext doc ready e k q =
    let h' = (next_nonce platform h).0 in
    let trip =
      decrypt_envelope-encrypt_envelope crates cpu h'.state nonce aad plaintext doc ready
        (nonce-TwelveBytes platform h nonce e) k q in
    (
      trip.0,
      ap (λ r. and_then r (λ n. encrypt_envelope cpu h'.state n aad plaintext)) e ∙ trip.1,
      trip.2,
      trip.3,
    )
