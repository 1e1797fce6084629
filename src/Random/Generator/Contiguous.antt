-- ===== src/Random/Generator/Contiguous.antt =====
-- The bytes of `fill_without_lifecycle_checks` of src/random/mod.rs as AES-256 in counter mode,
-- and that cutting a request into two changes nothing.
use hardware_rust_crypto.Prelude.{
  ℕ, ◌+◌, ◌-◌, ◌*◌, ◌^◌, ◌≤◌, ◌<◌, ◌≡◌, refl, sym, ap, ◌∙◌, true, List, ◌++◌, append_assoc, length,
  length-append, length-drop, take, drop, take-append, take-append_add, drop-append, arith,
  from_le_bytes, from_le_bytes-lt, IsBytes, IsBytes-drop,
}
use hardware_rust_crypto.Cpu.{Cpu}
use hardware_rust_crypto.Aes.{aes256_key_expansion}
use hardware_rust_crypto.Gcm.Crates.{Crates, Documented}
use hardware_rust_crypto.Random.Backend.{hardware_available, new, new_inner}
use hardware_rust_crypto.Random.Fork.{capture}
use hardware_rust_crypto.Random.Error.{ok}
use hardware_rust_crypto.Random.Generator.{
  Generator, World, fill_without_lifecycle_checks, from_seed_bytes, fresh,
}
use hardware_rust_crypto.Random.Generator.Blocks.{ctr_bytes, fill_blocks_lem, schedules_agree}
use hardware_rust_crypto.Random.Generator.Stream.{IsBuffer, upcoming}
use hardware_rust_crypto.Random.Generator.Fill.{
  length-upcoming, take-upcoming_any, blocks_needed, fill-upcoming,
}

module _ (crates : Crates) (cpu : Cpu) where
  -- The generator of a seed.
  unfoldable pub seeded : World → List ℕ → Generator
  unfolding capture
  seeded w seed = (fresh crates cpu w (new_inner cpu (take 32 seed) (drop 32 seed))).1

  pub from_seed_bytes-seeded :
      (w : World) (seed : List ℕ)
      → hardware_available cpu ≡ true
      → from_seed_bytes crates cpu w seed
        ≡ (record w { process = (capture w.atfork w.process).0 }, ok (seeded w seed))
  unfolding from_seed_bytes new seeded
  from_seed_bytes-seeded w seed ready = rw ready refl

module _ (crates : Crates) (cpu : Cpu) (doc : Documented crates) where
  -- As many bytes as asked for, the front of what is buffered and of the blocks to come.
  pub fill-take :
      (g : Generator) (len k : ℕ)
      → IsBuffer g
      → len ≤ 16 - g.buffer_pos + k * 16
      → (fill_without_lifecycle_checks crates cpu g len).1 ≡ take len (upcoming crates cpu g k)
  fill-take g len k h enough =
      let f = fill_without_lifecycle_checks crates cpu g len in
      let n = blocks_needed crates cpu doc g len in
      let full = fill-upcoming crates cpu doc g len 0 h in
      let reach : len ≤ 16 - g.buffer_pos + (n + 0) * 16 = omega (
        arith,
        full.2,
        ap length full.1,
        length-upcoming crates cpu g (n + 0) h,
        length-append f.1 (upcoming crates cpu f.0 0),
      ) in
      sym (take-append len f.1 (upcoming crates cpu f.0 0) full.2)
      ∙ ap (take len) (sym full.1)
      ∙ sym (take-upcoming_any crates cpu g len (n + 0) k h reach enough)

  fill-append :
      (g : Generator) (a b : ℕ)
      → IsBuffer g
      → (let first = fill_without_lifecycle_checks crates cpu g a in
          first.1 ++ (fill_without_lifecycle_checks crates cpu first.0 b).1
          ≡ (fill_without_lifecycle_checks crates cpu g (a + b)).1)
  fill-append g a b h =
      let first = fill_without_lifecycle_checks crates cpu g a in
      let k = blocks_needed crates cpu doc g a + b in
      let cut = fill-upcoming crates cpu doc g a b h in
      let reach : a + b ≤ 16 - g.buffer_pos + k * 16 = omega (
        arith,
        cut.2,
        ap length cut.1,
        length-upcoming crates cpu g k h,
        length-upcoming crates cpu first.0 b cut.0,
        length-append first.1 (upcoming crates cpu first.0 b),
      ) in
      sym (
        fill-take g (a + b) k h reach
        ∙ ap (take (a + b)) cut.1
        ∙ take-append_add a b (a + b) first.1 (upcoming crates cpu first.0 b) cut.2 refl
        ∙ ap (◌++◌ first.1) (sym (fill-take first.0 b b cut.0 (omega arith))))

  -- A request cut in two: for a generator with a sound buffer, filling `a` bytes and then `b`
  -- bytes gives the bytes of filling `a + b` at once, and leaves a generator that goes on with the
  -- same bytes.
  pub fill-fill :
      (g : Generator) (a b c : ℕ)
      → IsBuffer g
      → (let first = fill_without_lifecycle_checks crates cpu g a in
          let second = fill_without_lifecycle_checks crates cpu first.0 b in
          let whole = fill_without_lifecycle_checks crates cpu g (a + b) in
          (first.1 ++ second.1 ≡ whole.1)
          × ((fill_without_lifecycle_checks crates cpu second.0 c).1
              ≡ (fill_without_lifecycle_checks crates cpu whole.0 c).1))
  fill-fill g a b c h =
      let fill = fill_without_lifecycle_checks crates cpu in
      let first = fill g a in
      let second = fill first.0 b in
      let whole = fill g (a + b) in
      let sound = fill-upcoming crates cpu doc g a 0 h in
      let written = fill-upcoming crates cpu doc g (a + b) 0 h in
      let here = fill-append g a b h in
      let regroup : a + (b + c) ≡ a + b + c = omega arith in
      let all : whole.1 ++ (fill second.0 c).1 ≡ whole.1 ++ (fill whole.0 c).1 =
        ap (λ t. t ++ (fill second.0 c).1) (sym here)
        ∙ append_assoc first.1 second.1 (fill second.0 c).1
        ∙ ap (◌++◌ first.1) (fill-append first.0 b c sound.0)
        ∙ fill-append g a (b + c) h
        ∙ ap (λ n. (fill g n).1) regroup
        ∙ sym (fill-append g (a + b) c h) in
      (
        here,
        sym (drop-append (a + b) whole.1 (fill second.0 c).1 written.2)
            ∙ ap (drop (a + b)) all
            ∙ drop-append (a + b) whole.1 (fill whole.0 c).1 written.2,
      )

  pub fill-seeded :
      (w : World) (seed : List ℕ) (len k : ℕ)
      → length seed ≡ 48
      → IsBytes seed
      → len ≤ k * 16
      → (fill_without_lifecycle_checks crates cpu (seeded crates cpu w seed) len).1
        ≡ take len (
            ctr_bytes cpu
              (aes256_key_expansion cpu (take 32 seed))
              (from_le_bytes (drop 32 seed))
              0
              k)
  unfolding new_inner seeded
  fill-seeded w seed len k size bytes enough =
      let g = seeded crates cpu w seed in
      let c = from_le_bytes (drop 32 seed) in
      let room : c < 2 ^ 128 =
        from_le_bytes-lt 16 (drop 32 seed) (omega (arith, size, length-drop 32 seed))
          (IsBytes-drop 32 seed bytes) in
      fill-take g len k (refl, omega arith, refl) (omega arith)
      ∙ ap (take len) (
          fill_blocks_lem crates cpu k c 0 g.backend (omega arith)
          ∙ ap (λ keys. ctr_bytes cpu keys c 0 k) (schedules_agree cpu (take 32 seed)))
