-- ===== src/Gcm/Nonce/Fork.antt =====
-- The generator of nonces across a fork. `generation` of src/aes_gcm/fork.rs is the code of
-- src/random/fork.rs over two statics of its own, so both share the model of Random.Fork.
use native.Mathlib.Nat.{mod-eq_of_lt}
use hardware_rust_crypto.Prelude.{
  ℕ, zero, suc, ◌+◌, ◌*◌, ◌%◌, ◌^◌, ◌≤◌, ◌<◌, ◌≡◌, ◌≢◌, ◌⊎◌, refl, sym, ap, ◌∙◌, Bool, true, false,
  List, [], ◌∷◌, ◌++◌, none, some, length, replicate, IsBytes, from_le_bytes, to_le_bytes,
  from_le_bytes-lt, to_le_bytes-from_le_bytes, ◌==◌, ==_iff, Bool-cases, inl, inr, if◌then◌else◌,
  arith,
}
use hardware_rust_crypto.Gcm.Error.{Error, ok, err}
use hardware_rust_crypto.Gcm.Nonce.{
  Process, Entropy, Call, NonceGen, capture, unchanged, nonce_value, os_salt, resalt, take_nonce,
  next,
}
use hardware_rust_crypto.Gcm.Nonce.Unique.{nonce_value_lem}
use hardware_rust_crypto.Random.Fork.{Process as Statics, get_or_init, generation}
use hardware_rust_crypto.Random.Fork.Detect.{Descends, Descends-generation, same_number}

-- The statics behind a call of `generation`, and what `capture` and `unchanged` see.
unfoldable pub observed : Bool → Statics → Statics × Process
unfolding generation
observed atfork s = let r = generation atfork s in (r.0, record { generation = r.1; pid = s.pid })

-- `t` is across a fork from `s`: the handler counts forks where it is installed, and where it was
-- refused a fork shows in the process id.
abbrev pub IsForked : Bool → Statics → ℕ → Statics → Type 0
IsForked atfork s n t =
    ((get_or_init atfork s.installed ≡ true) × (1 ≤ n))
    ⊎ ((get_or_init atfork s.installed ≡ false) × (t.pid ≢ s.pid))

unchanged-captured :
    (atfork again : Bool) (s t : Statics) (n : ℕ)
    → s.fork_generation < 2 ^ 64
    → n < 2 ^ 64
    → Descends (observed atfork s).0 n t
    → unchanged (capture (observed atfork s).1) (observed again t).1
      ≡ (if get_or_init atfork s.installed then n == 0 else (t.pid == s.pid))
unfolding unchanged capture observed generation
unchanged-captured atfork again s t n hs hn d = elim (Bool-cases (get_or_init atfork s.installed)) [
  | inl e ↦
      let counted = Descends-generation (ap some e) hs d in
      let same : (t.fork_generation == s.fork_generation) ≡ (n == 0) =
        ap (λ g. g == s.fork_generation) counted.1
        ∙ ap (◌==◌ ((s.fork_generation + n) % 2 ^ 64)) (sym (mod-eq_of_lt hs))
        ∙ same_number s.fork_generation n hs hn in
      rw e (
        (λ i. elim (if get_or_init again (counted.0 i) then some t.fork_generation else none) [
          | none ↦ false
          | some g ↦ g == s.fork_generation
        ])
        ∙ same)
  | inr e ↦ rw e refl
]

==-false : (a b : ℕ) → a ≢ b → (a == b) ≡ false
==-false a b h = ground (arith, ==_iff a b)

forked-unchanged :
    (atfork again : Bool) (s t : Statics) (n : ℕ)
    → s.fork_generation < 2 ^ 64
    → n < 2 ^ 64
    → Descends (observed atfork s).0 n t
    → IsForked atfork s n t
    → unchanged (capture (observed atfork s).1) (observed again t).1 ≡ false
forked-unchanged atfork again s t n hs hn d (inl h) =
    unchanged-captured atfork again s t n hs hn d
    ∙ ap (λ b. if b then n == 0 else (t.pid == s.pid)) h.0
    ∙ ==-false n 0 (omega (arith, h.1))
forked-unchanged atfork again s t n hs hn d (inr h) =
    unchanged-captured atfork again s t n hs hn d
    ∙ ap (λ b. if b then n == 0 else (t.pid == s.pid)) h.0
    ∙ ==-false t.pid s.pid h.1

from_le_bytes-padded :
    (n : ℕ) (bytes : List ℕ) → from_le_bytes (bytes ++ replicate n 0) ≡ from_le_bytes bytes
unfolding from_le_bytes
from_le_bytes-padded zero [] = refl
from_le_bytes-padded (suc n) [] = omega (arith, from_le_bytes-padded n [])
from_le_bytes-padded n (b ∷ bytes) = ap (λ x. b + 256 * x) (from_le_bytes-padded n bytes)

-- Twelve bytes are the salt that they spell, and nonce 0 of that salt is these bytes.
os_salt-bytes :
    (salt : List ℕ)
    → length salt ≡ 12
    → IsBytes salt
    → (os_salt (some salt) ≡ ok (from_le_bytes salt)) × (nonce_value (from_le_bytes salt) 0 ≡ salt)
unfolding os_salt
os_salt-bytes salt s12 q =
    let base = from_le_bytes salt in
    let below : base < 256 ^ 12 = from_le_bytes-lt 12 salt s12 q in
    let whole : from_le_bytes (salt ++ replicate 4 0) % 2 ^ 96 ≡ base =
      omega (arith, from_le_bytes-padded 4 salt, below) in
    let first : (base + 0) % 2 ^ 96 ≡ base = omega (arith, below) in
    (
      ap ok whole,
      nonce_value_lem base 0 ∙ ap (to_le_bytes 12) first ∙ to_le_bytes-from_le_bytes 12 salt s12 q,
    )

resalt-ok :
    (p : Process) (entropy : Entropy) (gen : NonceGen) (base : ℕ)
    → os_salt entropy ≡ ok base
    → resalt p entropy gen ≡ (record { base = base; counter = 0; fork_guard = capture p }, ok tt)
unfolding resalt
resalt-ok p entropy gen base e i = elim (e i) as (λ _. Call (Unit {0})) [
  | err x ↦ (gen, err x)
  | ok b ↦ (record { base = b; counter = 0; fork_guard = capture p }, ok tt)
]

next-resalted :
    (p : Process) (w : Entropy) (gen : NonceGen) (entropy : Entropy) (base : ℕ) (nonce : List ℕ)
    → unchanged gen.fork_guard p ≡ false
    → os_salt entropy ≡ ok base
    → nonce_value base 0 ≡ nonce
    → next p entropy w gen ≡ (record { base = base; counter = 1; fork_guard = capture p }, ok nonce)
unfolding next take_nonce
next-resalted p w gen entropy base nonce moved salted e =
    let fresh : NonceGen = record { base = base; counter = 1; fork_guard = capture p } in
    let answer : List ℕ → Call (List ℕ) = λ n. (fresh, ok n) in
    rw moved (rw (resalt-ok p entropy gen base salted) (ap answer e))

next-starved :
    (p : Process) (w : Entropy) (gen : NonceGen)
    → unchanged gen.fork_guard p ≡ false
    → next p none w gen ≡ (gen, err Error.os_entropy)
unfolding next resalt os_salt
next-starved p w gen moved = rw moved refl

-- After a fork the inherited base is never used. A generator whose guard was captured with the
-- statics `s` is asked with the statics `t`, which descend from these through fewer than 2^64
-- forks, and through at least one if the handler was installed, or with another process id if it
-- was refused. With no entropy the call fails and leaves the generator as it was. With twelve
-- bytes of entropy the nonce is these bytes: the base is the number that they spell, the counter
-- is 1, and the guard is that of `t`, whatever base and counter were inherited.
pub next-forked :
    (atfork again : Bool) (s t : Statics) (n : ℕ) (w : Entropy) (gen : NonceGen) (salt : List ℕ)
    → s.fork_generation < 2 ^ 64
    → n < 2 ^ 64
    → Descends (observed atfork s).0 n t
    → IsForked atfork s n t
    → gen.fork_guard ≡ capture (observed atfork s).1
    → length salt ≡ 12
    → IsBytes salt
    → (let p = (observed again t).1 in
        (next p none w gen ≡ (gen, err Error.os_entropy))
        × (next p (some salt) w gen
            ≡ (record { base = from_le_bytes salt; counter = 1; fork_guard = capture p }, ok salt)))
next-forked atfork again s t n w gen salt hs hn d forked bound s12 q =
    let p = (observed again t).1 in
    let moved : unchanged gen.fork_guard p ≡ false =
      ap (λ guard. unchanged guard p) bound ∙ forked-unchanged atfork again s t n hs hn d forked in
    let drawn = os_salt-bytes salt s12 q in
    (
      next-starved p w gen moved,
      next-resalted p w gen (some salt) (from_le_bytes salt) salt moved drawn.0 drawn.1,
    )
