-- ===== src/Ghash/Hasher/Sections.antt =====
-- A section absorbed in two parts: whole batches of 128 bytes first, then the rest.
use hardware_rust_crypto.Prelude.{
  ℕ, ◌+◌, ◌-◌, ◌*◌, ◌/◌, ◌%◌, ◌<◌, ◌≡◌, refl, ap, ap₂, ◌∙◌, List, [], ◌++◌, append-nil, foldl,
  length, take, drop, runs, length-append, take-append_add, drop-append_add, runs-append,
  runs-append_add, foldl-append, arith,
}
use hardware_rust_crypto.Ghash.Backend.{Backend}
use hardware_rust_crypto.Ghash.Hasher.{
  absorb_octet, absorb_quad, absorb_one, absorb_blocks_by, absorb_padded_by, close_section,
  chunks_exact, remainder,
}

module _ (enter : List ℕ → List ℕ) where
  -- Quads and single blocks, after the octets.
  abbrev pub below_octets : Backend → List ℕ → Backend
  below_octets b rest =
      foldl (absorb_one enter) (foldl (absorb_quad enter) b (chunks_exact 64 rest))
        (chunks_exact 16 (remainder 64 rest))

  pub absorb_blocks_by-append :
      (b : Backend) (m : ℕ) (xs ys : List ℕ)
      → length xs ≡ m * 128
      → absorb_blocks_by enter b (xs ++ ys)
        ≡ absorb_blocks_by enter (foldl (absorb_octet enter) b (runs m 128 xs)) ys
  unfolding absorb_blocks_by
  absorb_blocks_by-append b m xs ys h =
      let n = length (xs ++ ys) / 128 in
      let r = length ys / 128 in
      let octets : m + r ≡ n = omega (arith, length-append xs ys) in
      let left : m * 128 + r * 128 ≡ n * 128 = omega (arith, length-append xs ys) in
      ap₂ below_octets
        (ap (foldl (absorb_octet enter) b) (runs-append_add m r n 128 xs ys h octets)
          ∙ foldl-append (absorb_octet enter) b (runs m 128 xs) (runs r 128 ys))
        (drop-append_add (m * 128) (r * 128) (n * 128) xs ys h left)

  -- A section that begins with whole batches of 128 bytes is absorbed as its octets, each in one
  -- aggregated update, and then the rest as a section of its own, zero padding included.
  pub absorb_padded_by-append :
      (b : Backend) (m : ℕ) (xs ys : List ℕ)
      → length xs ≡ m * 128
      → absorb_padded_by enter b (xs ++ ys)
        ≡ absorb_padded_by enter (foldl (absorb_octet enter) b (runs m 128 xs)) ys
  unfolding absorb_padded_by
  absorb_padded_by-append b m xs ys h =
      let f = length (xs ++ ys) - length (xs ++ ys) % 16 in
      let g = length ys - length ys % 16 in
      let cut : m * 128 + g ≡ f = omega (arith, length-append xs ys) in
      ap₂ (close_section enter)
        (ap (absorb_blocks_by enter b) (take-append_add (m * 128) g f xs ys h cut)
          ∙ absorb_blocks_by-append b m xs (take g ys) h)
        (drop-append_add (m * 128) g f xs ys h cut)

  -- Fewer than 128 bytes hold no octet.
  pub absorb_blocks_by_short :
      (b : Backend) (ys : List ℕ)
      → length ys / 128 ≡ 0
      → absorb_blocks_by enter b ys ≡ below_octets b ys
  unfolding absorb_blocks_by runs
  absorb_blocks_by_short b ys h =
      ap₂ below_octets (ap (λ n. foldl (absorb_octet enter) b (runs n 128 ys)) h)
        (ap (λ n. drop (n * 128) ys) h)

  -- Quads that are followed by fewer than four blocks.
  pub below_octets_parts :
      (b : Backend) (k j : ℕ) (xs ys : List ℕ)
      → length xs ≡ k * 64
      → length ys ≡ j * 16
      → j < 4
      → below_octets b (xs ++ ys)
        ≡ foldl (absorb_one enter) (foldl (absorb_quad enter) b (runs k 64 xs)) (runs j 16 ys)
  below_octets_parts b k j xs ys hx hy small =
      let n = length (xs ++ ys) / 64 in
      let quads : n ≡ k = omega (arith, length-append xs ys) in
      let left : drop (n * 64) (xs ++ ys) ≡ ys =
        drop-append_add (k * 64) 0 (n * 64) xs ys hx (omega (arith, length-append xs ys)) in
      let ones : length ys / 16 ≡ j = omega arith in
      ap₂ (λ a c. foldl (absorb_one enter) a c)
        (ap (foldl (absorb_quad enter) b)
          (ap (λ t. runs t 64 (xs ++ ys)) quads ∙ runs-append k 64 xs ys (omega arith)))
        (ap (λ t. runs (length t / 16) 16 t) left ∙ ap (λ t. runs t 16 ys) ones)

  -- Fewer than 128 bytes: the full blocks, then the partial one.
  pub absorb_padded_by_short :
      (b : Backend) (f : ℕ) (xs ys : List ℕ)
      → length xs ≡ f * 16
      → f < 8
      → length ys < 16
      → absorb_padded_by enter b (xs ++ ys) ≡ close_section enter (below_octets b xs) ys
  unfolding absorb_padded_by
  absorb_padded_by_short b f xs ys hx hf hy =
      let g = length (xs ++ ys) - length (xs ++ ys) % 16 in
      let cut : f * 16 + 0 ≡ g = omega (arith, length-append xs ys) in
      ap₂ (close_section enter)
        (ap (absorb_blocks_by enter b) (take-append_add (f * 16) 0 g xs ys hx cut ∙ append-nil xs)
          ∙ absorb_blocks_by_short b xs (omega arith))
        (drop-append_add (f * 16) 0 g xs ys hx cut)

  -- A partial block alone.
  pub absorb_padded_by_partial :
      (b : Backend) (ys : List ℕ)
      → length ys < 16
      → absorb_padded_by enter b ys ≡ close_section enter b ys
  unfolding absorb_blocks_by runs
  absorb_padded_by_partial b ys h = absorb_padded_by_short b 0 [] ys refl (omega arith) h

  pub absorb_padded_by-nil : (b : Backend) → absorb_padded_by enter b [] ≡ b
  unfolding absorb_padded_by absorb_blocks_by runs
  absorb_padded_by-nil b = refl
