-- ===== src/Ghash/Hasher/Reference.antt =====
-- `absorb_padded` of src/aes_gcm/ghash.rs against the reference: the section in blocks of 16
-- bytes, the last one padded with zeros, one after another.
use hardware_rust_crypto.Prelude.{
  ℕ, zero, suc, ◌+◌, ◌*◌, ◌/◌, ◌≤◌, ◌≡◌, refl, sym, ap, ap₂, ◌∙◌, List, [], ◌∷◌, ◌++◌, map, foldl,
  length, drop, runs, runs-add, length-drop, take_all, IsBytes, IsBytes-drop, arith,
}
use hardware_rust_crypto.Ghash.Backend.{Backend}
use hardware_rust_crypto.Ghash.Backend.Batches.{
  AllBlocks, IsKeyed, after_serial-IsKeyed, update_blocks8-after_serial,
  update_blocks4-after_serial, update_block-after_serial,
}
use hardware_rust_crypto.Ghash.Hasher.{
  absorb_octet, absorb_quad, absorb_one, absorb_blocks_by, chunks_exact, remainder,
}
use hardware_rust_crypto.Ghash.Hasher.Serial.{
  all_blocks, fed, fed-append, foldl-fed, runs-AllBlocks, runs-take,
}

pub map-append :
    (f : List ℕ → List ℕ) (xs ys : List (List ℕ)) → map f (xs ++ ys) ≡ map f xs ++ map f ys
map-append f [] ys = refl
map-append f (x ∷ xs) ys = ap (◌∷◌ (f x)) (map-append f xs ys)

-- How a block enters: it stays a block.
abbrev pub KeepsBlocks : (List ℕ → List ℕ) → Type 0
KeepsBlocks enter =
    (c : List ℕ) → length c ≡ 16 → IsBytes c → (length (enter c) ≡ 16) × IsBytes (enter c)

module _ (enter : List ℕ → List ℕ) (keeps : KeepsBlocks enter) where
  pub entered : (bs : List (List ℕ)) → AllBlocks bs → AllBlocks (map enter bs)
  entered [] h = tt
  entered (b ∷ bs) h = let e = keeps b h.0 h.1 in (e.0, e.1, entered bs h.2)

  abbrev blocks_of : ℕ → List ℕ → List (List ℕ)
  blocks_of m c = map enter (runs m 16 c)

  blocks_of-AllBlocks :
      (m size : ℕ) (c : List ℕ)
      → m * 16 ≡ size
      → length c ≡ size
      → IsBytes c
      → AllBlocks (blocks_of m c)
  blocks_of-AllBlocks m size c e h p =
      entered (runs m 16 c) (runs-AllBlocks m c (omega (arith, e, h)) p)

  -- Blocks of chunks are blocks of the whole.
  regroup :
      (m size k n : ℕ) (xs : List ℕ)
      → m * 16 ≡ size
      → k * m ≡ n
      → k * size ≤ length xs
      → all_blocks (blocks_of m) size k xs ≡ map enter (runs n 16 xs)
  unfolding runs
  regroup m size zero n xs e f h =
      let z : n ≡ 0 = omega arith in sym (ap (λ t. map enter (runs t 16 xs)) z)
  regroup m size (suc k) n xs e f h =
      let whole : size ≤ length xs = omega (arith, h) in
      let parts : m + k * m ≡ n = omega (arith, f) in
      ap₂ ◌++◌ (ap (map enter) (runs-take m 16 size xs e whole))
        (regroup m size k (k * m) (drop size xs) e refl (omega (arith, h, length-drop size xs)))
      ∙ sym (
          ap (map enter) (runs-add m (k * m) n 16 xs parts)
          ∙ map-append enter (runs m 16 xs) (runs (k * m) 16 (drop (m * 16) xs))
          ∙ ap (λ t. blocks_of m xs ++ map enter (runs (k * m) 16 (drop t xs))) e)

  module _ (key : List ℕ) where
    octet_feeds :
        (b : Backend) (keyed : IsKeyed key b) (c : List ℕ)
        → length c ≡ 128
        → IsBytes c
        → absorb_octet enter b c ≡ fed key b keyed (blocks_of 8 c)
    unfolding absorb_octet runs
    octet_feeds b keyed c h p =
        update_blocks8-after_serial key b keyed _ _ _ _ _ _ _ _
          (blocks_of-AllBlocks 8 128 c refl h p)

    quad_feeds :
        (b : Backend) (keyed : IsKeyed key b) (c : List ℕ)
        → length c ≡ 64
        → IsBytes c
        → absorb_quad enter b c ≡ fed key b keyed (blocks_of 4 c)
    unfolding absorb_quad runs
    quad_feeds b keyed c h p =
        update_blocks4-after_serial key b keyed _ _ _ _ (blocks_of-AllBlocks 4 64 c refl h p)

    one_feeds :
        (b : Backend) (keyed : IsKeyed key b) (c : List ℕ)
        → length c ≡ 16
        → IsBytes c
        → absorb_one enter b c ≡ fed key b keyed (blocks_of 1 c)
    unfolding absorb_one runs
    one_feeds b keyed c h p =
        update_block-after_serial key b keyed (enter c)
        ∙ ap (λ t. fed key b keyed (enter t ∷ [])) (sym (take_all 16 c (omega (arith, h))))

    -- Many chunks of one size, and a backend with a key again.
    phase :
        (step : Backend → List ℕ → Backend) (m size : ℕ)
        → m * 16 ≡ size
        → ((b : Backend) (keyed : IsKeyed key b) (c : List ℕ)
            → length c ≡ size
            → IsBytes c
            → step b c ≡ fed key b keyed (blocks_of m c))
        → (b : Backend) (keyed : IsKeyed key b) (k n : ℕ) (xs : List ℕ) → k * size ≤ length xs
        → k * m ≡ n
        → IsBytes xs
        → foldl step b (runs k size xs) ≡ fed key b keyed (map enter (runs n 16 xs))
    phase step m size e feeds b keyed k n xs h f p =
        foldl-fed key step (blocks_of m) size (λ c l q. blocks_of-AllBlocks m size c e l q) feeds k
          b keyed xs h p
        ∙ ap (fed key b keyed) (regroup m size k n xs e f h)

    pub runs_entered :
        (n : ℕ) (xs : List ℕ)
        → n * 16 ≤ length xs
        → IsBytes xs
        → AllBlocks (map enter (runs n 16 xs))
    runs_entered n xs h p = entered (runs n 16 xs) (runs-AllBlocks n xs h p)

    -- Two phases feed the runs of both parts.
    joined :
        (b : Backend) (keyed : IsKeyed key b) (m n t : ℕ) (xs : List ℕ)
        (ok : AllBlocks (map enter (runs m 16 xs)))
        → m + n ≡ t
        → fed key
            (fed key b keyed (map enter (runs m 16 xs)))
            (after_serial-IsKeyed key b keyed (map enter (runs m 16 xs)) ok)
            (map enter (runs n 16 (drop (m * 16) xs)))
          ≡ fed key b keyed (map enter (runs t 16 xs))
    joined b keyed m n t xs ok e =
        fed-append key b keyed (map enter (runs m 16 xs)) (map enter (runs n 16 (drop (m * 16) xs)))
          ok
        ∙ ap (fed key b keyed) (
            sym (
              ap (map enter) (runs-add m n t 16 xs e)
              ∙ map-append enter (runs m 16 xs) (runs n 16 (drop (m * 16) xs))))

    pub absorb_blocks_by-fed :
        (b : Backend) (keyed : IsKeyed key b) (bytes : List ℕ)
        → IsBytes bytes
        → absorb_blocks_by enter b bytes
          ≡ fed key b keyed (map enter (runs (length bytes / 16) 16 bytes))
    unfolding absorb_blocks_by
    absorb_blocks_by-fed b keyed bytes p =
        let len = length bytes in
        let k₁ = len / 128 in
        let rest₁ = remainder 128 bytes in
        let p₁ = IsBytes-drop (k₁ * 128) bytes p in
        let l₁ = length-drop (k₁ * 128) bytes in
        let k₂ = length rest₁ / 64 in
        let rest₂ = remainder 64 rest₁ in
        let p₂ = IsBytes-drop (k₂ * 64) rest₁ p₁ in
        let l₂ = length-drop (k₂ * 64) rest₁ in
        let k₃ = length rest₂ / 16 in
        let m = k₁ * 8 in
        let n = k₂ * 4 in
        let ok₁ = runs_entered m bytes (omega arith) p in
        let ok₂ = runs_entered n rest₁ (omega arith) p₁ in
        let b₁ = fed key b keyed (map enter (runs m 16 bytes)) in
        let keyed₁ = after_serial-IsKeyed key b keyed (map enter (runs m 16 bytes)) ok₁ in
        let b₂ = fed key b₁ keyed₁ (map enter (runs n 16 rest₁)) in
        let keyed₂ = after_serial-IsKeyed key b₁ keyed₁ (map enter (runs n 16 rest₁)) ok₂ in
        let off₁ : k₁ * 128 ≡ m * 16 = omega arith in
        let off₂ : k₂ * 64 ≡ n * 16 = omega arith in
        ap
          (λ t.
            foldl (absorb_one enter) (foldl (absorb_quad enter) t (chunks_exact 64 rest₁))
              (chunks_exact 16 rest₂))
          (phase (absorb_octet enter) 8 128 refl octet_feeds b keyed k₁ m bytes (omega arith) refl
            p)
        ∙ ap (λ t. foldl (absorb_one enter) t (chunks_exact 16 rest₂))
            (phase (absorb_quad enter) 4 64 refl quad_feeds b₁ keyed₁ k₂ n rest₁ (omega arith) refl
              p₁)
        ∙ phase (absorb_one enter) 1 16 refl one_feeds b₂ keyed₂ k₃ k₃ rest₂ (omega arith)
            (omega arith) p₂
        ∙ ap (λ t. fed key b₂ keyed₂ (map enter (runs k₃ 16 (drop t rest₁)))) off₂
        ∙ joined b₁ keyed₁ n k₃ (n + k₃) rest₁ ok₂ refl
        ∙ ap (λ t. fed key b₁ keyed₁ (map enter (runs (n + k₃) 16 (drop t bytes)))) off₁
        ∙ joined b keyed m (n + k₃) (len / 16) bytes ok₁ (omega (arith, l₁, l₂))
