-- ===== src/Random/Generator/Stream.antt =====
-- The generator of src/random/mod.rs between two reseeds is a stream of bytes: what is left in the
-- buffer, then the blocks to come.
use hardware_rust_crypto.Prelude.{
  ℕ, zero, suc, ◌+◌, ◌-◌, ◌/◌, ◌%◌, ◌≤◌, ◌≡◌, refl, sym, ap, ap₂, ◌∙◌, false, List, [], ◌++◌,
  append_assoc, length, length-append, length-take, length-drop, take, drop, replicate,
  length-replicate, take-append-drop, drop-append, min, ◌==◌, ==_iff, Bool-cases, inl, inr, arith,
  drop-splice, take-append-drop_from, length-splice, take-splice, take-append, replicate-append,
  ◌<◌,
}
use hardware_rust_crypto.Cpu.{Cpu}
use hardware_rust_crypto.Gcm.Crates.{Crates, Documented}
use hardware_rust_crypto.Random.Backend.{fill_block}
use hardware_rust_crypto.Random.Generator.{Generator, drain_buffer, fill_blocks, fill_remainder}
use hardware_rust_crypto.Random.Generator.Blocks.{
  length-fill_block, length-fill_blocks, fill_blocks-add,
}

-- The buffer: one block, of which the part before the cursor is used up and wiped.
abbrev pub IsBuffer : Generator → Type 0
IsBuffer g =
    (length g.buffer ≡ 16)
    × (g.buffer_pos ≤ 16)
    × (take g.buffer_pos g.buffer ≡ replicate g.buffer_pos 0)

abbrev pub pending : Generator → List ℕ
pending g = drop g.buffer_pos g.buffer

module _ (crates : Crates) (cpu : Cpu) where
  -- The bytes that the generator gives out next, as far as `k` blocks reach.
  abbrev pub upcoming : Generator → ℕ → List ℕ
  upcoming g k = pending g ++ (fill_blocks crates cpu k g.backend).1

  module _ (doc : Documented crates) where
    open doc use {zeroize_slice_fills}

    pub length-zeroize : (xs : List ℕ) → length (crates.zeroize_slice xs) ≡ length xs
    length-zeroize xs = ap length (zeroize_slice_fills xs) ∙ length-replicate (length xs) 0

    pub zeroize-zeros :
        (n : ℕ) (xs : List ℕ) → length xs ≡ n → crates.zeroize_slice xs ≡ replicate n 0
    zeroize-zeros n xs e = zeroize_slice_fills xs ∙ ap (λ k. replicate k 0) e

    pub drain_buffer-pending :
        (g : Generator) (len : ℕ)
        → IsBuffer g
        → (let d = drain_buffer crates cpu g len in
            IsBuffer d.0
            × (d.1 ++ pending d.0 ≡ pending g)
            × (length d.1 ≡ min (16 - g.buffer_pos) len)
            × (d.0.backend ≡ g.backend)
            × (d.0.reseed_interval ≡ g.reseed_interval)
            × (d.0.buffer_pos ≡ g.buffer_pos + min (16 - g.buffer_pos) len))
    unfolding drain_buffer
    drain_buffer-pending g len h =
        let p = g.buffer_pos in
        let taken = min (16 - p) len in
        let front = take taken (drop p g.buffer) in
        let zeros = crates.zeroize_slice front in
        let short : length front ≡ taken =
          omega (arith, h, length-take taken (drop p g.buffer), length-drop p g.buffer) in
        let fits : p + taken ≤ length g.buffer = omega (arith, h) in
        let wiped = length-zeroize front ∙ short in
        elim (Bool-cases (taken == 0)) [
          | inl e ↦
              let z : taken ≡ 0 = (==_iff taken 0).0 e in
              rw e (h, refl, sym z, refl, refl, omega (arith, z))
          | inr e ↦ rw e (
            (
              length-splice p taken zeros g.buffer fits wiped ∙ h.0,
              omega (arith, h),
              take-splice p taken zeros g.buffer fits wiped
                  ∙ ap₂ ◌++◌ h.2 (zeroize-zeros taken front short)
                  ∙ replicate-append p taken 0,
            ),
            ap (◌++◌ front) (drop-splice p taken zeros g.buffer fits wiped)
                ∙ take-append-drop_from p taken g.buffer,
            short,
            refl,
            refl,
            refl,
          )
        ]

    nonzero : (r : ℕ) → (suc r == 0) ≡ false
    nonzero r = ground arith

    -- The blocks that a remainder needs.
    abbrev pub last_block : ℕ → ℕ
    last_block zero = 0
    last_block (suc r) = 1

    fill_remainder-upcoming :
        (g : Generator) (r j : ℕ)
        → IsBuffer g
        → pending g ≡ []
        → r < 16
        → (let m = fill_remainder crates cpu g r in
            IsBuffer m.0
            × (upcoming g (last_block r + j) ≡ m.1 ++ upcoming m.0 j)
            × (length m.1 ≡ r)
            × (m.0.reseed_interval ≡ g.reseed_interval))
    unfolding fill_remainder fill_blocks
    fill_remainder-upcoming g zero j h e hr =
        let e₁ : zero + j ≡ j = omega arith in (h, ap (upcoming g) e₁, refl, refl)
    fill_remainder-upcoming g (suc r) j h e hr =
        let block = fill_block cpu g.backend in
        let front = take (suc r) block.1 in
        let whole = length-fill_block cpu g.backend in
        let short : length front ≡ suc r = omega (arith, hr, whole, length-take (suc r) block.1) in
        let wiped = length-zeroize front ∙ short in
        let rest = drop (suc r) block.1 in
        let to_come = (fill_blocks crates cpu j block.0).1 in
        let e₁ : 1 + j ≡ suc j = omega arith in
        rw (nonzero r) (
          (
            omega (
              arith,
              hr,
              whole,
              wiped,
              length-append (crates.zeroize_slice front) rest,
              length-drop (suc r) block.1,
            ),
            omega (arith, hr),
            take-append (suc r) (crates.zeroize_slice front) rest wiped
                ∙ zeroize-zeros (suc r) front short,
          ),
          ap (upcoming g) e₁
              ∙ ap (λ t. t ++ (block.1 ++ to_come)) e
              ∙ ap (λ t. t ++ to_come) (sym (take-append-drop (suc r) block.1))
              ∙ append_assoc front rest to_come
              ∙ ap (λ t. front ++ (t ++ to_come))
                  (sym (drop-append (suc r) (crates.zeroize_slice front) rest wiped)),
          short,
          refl,
        )

    -- The blocks that `len` bytes need when `left` of them are not in the buffer.
    abbrev pub blocks_for : ℕ → ℕ
    blocks_for left = left / 16 + last_block (left % 16)

    pub fill_blocks-upcoming :
        (g : Generator) (left j : ℕ)
        → IsBuffer g
        → pending g ≡ []
        → (let blocks = fill_blocks crates cpu (left / 16) g.backend in
            let m = fill_remainder crates cpu (record g { backend = blocks.0 }) (left % 16) in
            IsBuffer m.0
            × (upcoming g (blocks_for left + j) ≡ (blocks.1 ++ m.1) ++ upcoming m.0 j)
            × (length (blocks.1 ++ m.1) ≡ left)
            × (m.0.reseed_interval ≡ g.reseed_interval))
    fill_blocks-upcoming g left j h e =
        let blocks = fill_blocks crates cpu (left / 16) g.backend in
        let g₁ : Generator = record g { backend = blocks.0 } in
        let m = fill_remainder crates cpu g₁ (left % 16) in
        let last = fill_remainder-upcoming g₁ (left % 16) j h e (omega arith) in
        let k = last_block (left % 16) + j in
        (
          last.0,
          ap (λ t. t ++ (fill_blocks crates cpu (blocks_for left + j) g.backend).1) e
              ∙ fill_blocks-add crates cpu (left / 16) k (blocks_for left + j) g.backend
                  (omega arith)
              ∙ ap (◌++◌ blocks.1)
                  (ap (λ t. t ++ (fill_blocks crates cpu k blocks.0).1) (sym e) ∙ last.1)
              ∙ sym (append_assoc blocks.1 m.1 (upcoming m.0 j)),
          omega (
            arith,
            length-append blocks.1 m.1,
            last.2,
            length-fill_blocks crates cpu (left / 16) g.backend,
          ),
          last.3,
        )
