-- ===== src/Random/Generator/Fill.antt =====
-- What `fill_without_lifecycle_checks` of src/random/mod.rs writes: the front of the stream.
use hardware_rust_crypto.Prelude.{
  ℕ, zero, suc, ◌+◌, ◌-◌, ◌*◌, ◌/◌, ◌%◌, ◌≤◌, ◌≡◌, refl, sym, ap, ◌∙◌, ◌⊎◌, inl, inr, [], ◌++◌,
  append_assoc, length, length-append, length-drop, take, take-append_le, drop_all, min, ltb,
  Bool-cases, ltb→lt, ltb→ge, arith,
}
use hardware_rust_crypto.Cpu.{Cpu}
use hardware_rust_crypto.Gcm.Crates.{Crates, Documented}
use hardware_rust_crypto.Random.Generator.{
  Generator, drain_buffer, fill_blocks, fill_remainder, fill_without_lifecycle_checks,
}
use hardware_rust_crypto.Random.Generator.Blocks.{length-fill_blocks, fill_blocks-add}
use hardware_rust_crypto.Random.Generator.Stream.{
  IsBuffer, pending, upcoming, blocks_for, drain_buffer-pending, fill_blocks-upcoming,
}

module _ (crates : Crates) (cpu : Cpu) where
  pub length-upcoming :
      (g : Generator) (k : ℕ)
      → IsBuffer g
      → length (upcoming crates cpu g k) ≡ 16 - g.buffer_pos + k * 16
  length-upcoming g k h = omega (
    arith,
    h,
    length-append (pending g) (fill_blocks crates cpu k g.backend).1,
    length-drop g.buffer_pos g.buffer,
    length-fill_blocks crates cpu k g.backend,
  )

  upcoming_more :
      (g : Generator) (a k c : ℕ)
      → a + k ≡ c
      → upcoming crates cpu g c
        ≡ upcoming crates cpu g a
          ++ (fill_blocks crates cpu k (fill_blocks crates cpu a g.backend).0).1
  upcoming_more g a k c e =
      ap (◌++◌ (pending g)) (fill_blocks-add crates cpu a k c g.backend e)
      ∙ sym (
          append_assoc (pending g) (fill_blocks crates cpu a g.backend).1
            (fill_blocks crates cpu k (fill_blocks crates cpu a g.backend).0).1)

  -- The front of the stream does not depend on how far the rest is written out.
  take-upcoming :
      (g : Generator) (len a c : ℕ)
      → IsBuffer g
      → len ≤ 16 - g.buffer_pos + a * 16
      → a ≤ c
      → take len (upcoming crates cpu g c) ≡ take len (upcoming crates cpu g a)
  take-upcoming g len a c h enough ac =
      ap (take len) (upcoming_more g a (c - a) c (omega arith))
      ∙ take-append_le len (upcoming crates cpu g a)
          (fill_blocks crates cpu (c - a) (fill_blocks crates cpu a g.backend).0).1
          (omega (arith, enough, length-upcoming g a h))

  pub take-upcoming_any :
      (g : Generator) (len a c : ℕ)
      → IsBuffer g
      → len ≤ 16 - g.buffer_pos + a * 16
      → len ≤ 16 - g.buffer_pos + c * 16
      → take len (upcoming crates cpu g c) ≡ take len (upcoming crates cpu g a)
  take-upcoming_any g len a c h ha hc = elim (Bool-cases (ltb a c)) [
    | inl e ↦ take-upcoming g len a c h ha (omega (arith, ltb→lt a c e))
    | inr e ↦ sym (take-upcoming g len c a h hc (ltb→ge a c e))
  ]

  module _ (doc : Documented crates) where
    -- Behind the buffer: no bytes are left to write, or the buffer is empty.
    upcoming_past_drain :
        (g : Generator) (left j : ℕ)
        → IsBuffer g
        → (left ≡ 0) ⊎ (pending g ≡ [])
        → (let blocks = fill_blocks crates cpu (left / 16) g.backend in
            let m = fill_remainder crates cpu (record g { backend = blocks.0 }) (left % 16) in
            IsBuffer m.0
            × (upcoming crates cpu g (blocks_for crates cpu doc left + j)
                ≡ (blocks.1 ++ m.1) ++ upcoming crates cpu m.0 j)
            × (length (blocks.1 ++ m.1) ≡ left)
            × (m.0.reseed_interval ≡ g.reseed_interval))
    unfolding fill_blocks fill_remainder
    upcoming_past_drain g left j h (inr e) = fill_blocks-upcoming crates cpu doc g left j h e
    upcoming_past_drain g zero j h (inl e) =
        let e₁ : 0 + 0 + j ≡ j = omega arith in (h, ap (upcoming crates cpu g) e₁, refl, refl)
    upcoming_past_drain g (suc left) j h (inl e) = absurd (omega arith)

    -- A drain gives all that is asked for, or empties the buffer.
    emptied :
        (g : Generator) (len : ℕ)
        → IsBuffer g
        → (let d = drain_buffer crates cpu g len in (len - length d.1 ≡ 0) ⊎ (pending d.0 ≡ []))
    emptied g len h =
        let d = drain_buffer crates cpu g len in
        let drained = drain_buffer-pending crates cpu doc g len h in
        elim (Bool-cases (ltb (16 - g.buffer_pos) len)) [
          | inl e ↦ inr (
              drop_all d.0.buffer_pos d.0.buffer
                (omega (arith, drained.0, drained.5, h, ltb→lt (16 - g.buffer_pos) len e)))
          | inr e ↦ inl (omega (arith, drained.2, ltb→ge (16 - g.buffer_pos) len e))
        ]

    abbrev pub blocks_needed : Generator → ℕ → ℕ
    blocks_needed g len = blocks_for crates cpu doc (len - min (16 - g.buffer_pos) len)

    pub fill-upcoming :
        (g : Generator) (len j : ℕ)
        → IsBuffer g
        → (let f = fill_without_lifecycle_checks crates cpu g len in
            IsBuffer f.0
            × (upcoming crates cpu g (blocks_needed g len + j) ≡ f.1 ++ upcoming crates cpu f.0 j)
            × (length f.1 ≡ len)
            × (f.0.reseed_interval ≡ g.reseed_interval))
    unfolding fill_without_lifecycle_checks
    fill-upcoming g len j h =
        let d = drain_buffer crates cpu g len in
        let drained = drain_buffer-pending crates cpu doc g len h in
        let left = len - length d.1 in
        let b = upcoming_past_drain d.0 left j drained.0 (emptied g len h) in
        let e₁ : len - min (16 - g.buffer_pos) len ≡ left = omega (arith, drained.2) in
        let n = blocks_for crates cpu doc left + j in
        let f = fill_without_lifecycle_checks crates cpu g len in
        (
          b.0,
          ap (λ t. upcoming crates cpu g (blocks_for crates cpu doc t + j)) e₁
              ∙ ap (λ t. t ++ (fill_blocks crates cpu n g.backend).1) (sym drained.1)
              ∙ append_assoc d.1 (pending d.0) (fill_blocks crates cpu n g.backend).1
              ∙ ap (λ t. d.1 ++ (pending d.0 ++ (fill_blocks crates cpu n t).1)) (sym drained.3)
              ∙ ap (◌++◌ d.1) b.1
              ∙ sym (append_assoc d.1 _ (upcoming crates cpu f.0 j)),
          length-append d.1 _ ∙ omega (arith, b.2, drained.2),
          b.3 ∙ drained.4,
        )
