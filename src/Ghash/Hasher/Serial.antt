-- ===== src/Ghash/Hasher/Serial.antt =====
-- The batching of src/aes_gcm/ghash.rs against one block after another: a section in octets,
-- quads, single blocks and a padded rest.
use hardware_rust_crypto.Prelude.{
  ℕ, zero, suc, ◌*◌, ◌^◌, ◌≤◌, ◌<◌, ◌≡◌, refl, sym, ap, ◌∙◌, List, [], ◌∷◌, ◌++◌, map, foldl,
  length, take, drop, runs, runs-append, length-take, length-drop, take-append-drop, IsBytes,
  IsBytes-take, IsBytes-drop, arith,
}
use hardware_rust_crypto.Cpu.{loadu}
use hardware_rust_crypto.Ghash.Backend.{Backend}
use hardware_rust_crypto.Ghash.Backend.Aggregate.{times, serial}
use hardware_rust_crypto.Poly.Sum.{◌⊕◌}
use hardware_rust_crypto.Ghash.Backend.Batches.{
  AllBlocks, IsKeyed, loadu-lt, after_serial, after_serial-IsKeyed,
}

pub AllBlocks-append : (bs cs : List (List ℕ)) → AllBlocks bs → AllBlocks cs → AllBlocks (bs ++ cs)
AllBlocks-append [] cs p q = q
AllBlocks-append (b ∷ bs) cs p q = (p.0, p.1, AllBlocks-append bs cs p.2 q)

pub runs-AllBlocks :
    (k : ℕ) (xs : List ℕ) → k * 16 ≤ length xs → IsBytes xs → AllBlocks (runs k 16 xs)
unfolding runs
runs-AllBlocks zero xs h p = tt
runs-AllBlocks (suc k) xs h p = (
  omega (arith, h, length-take 16 xs),
  IsBytes-take 16 xs p,
  runs-AllBlocks k (drop 16 xs) (omega (arith, h, length-drop 16 xs)) (IsBytes-drop 16 xs p),
)

-- The front of a list has the runs of the list.
pub runs-take :
    (m n k : ℕ) (xs : List ℕ) → m * n ≡ k → k ≤ length xs → runs m n (take k xs) ≡ runs m n xs
runs-take m n k xs e h =
    sym (runs-append m n (take k xs) (drop k xs) (omega (arith, h, length-take k xs)))
    ∙ ap (runs m n) (take-append-drop k xs)

-- The blocks of the first `k` chunks.
abbrev pub all_blocks : (List ℕ → List (List ℕ)) → ℕ → ℕ → List ℕ → List (List ℕ)
all_blocks blocks size zero xs = []
all_blocks blocks size (suc k) xs = blocks (take size xs) ++ all_blocks blocks size k (drop size xs)

-- What enters for one block after another.
module _ (key : List ℕ) where
  abbrev pub fed : (b : Backend) → IsKeyed key b → List (List ℕ) → Backend
  fed b keyed bs = after_serial key b keyed bs

  serial-append :
      (h : ℕ) (hh : h < 2 ^ 128) (y : ℕ) (xs ys : List (List ℕ))
      → serial h hh y (map loadu (xs ++ ys))
        ≡ serial h hh (serial h hh y (map loadu xs)) (map loadu ys)
  serial-append h hh y [] ys = refl
  serial-append h hh y (x ∷ xs) ys = serial-append h hh (times (y ⊕ loadu x) h) xs ys

  pub fed-append :
      (b : Backend) (keyed : IsKeyed key b) (xs ys : List (List ℕ)) (hx : AllBlocks xs)
      → fed (fed b keyed xs) (after_serial-IsKeyed key b keyed xs hx) ys ≡ fed b keyed (xs ++ ys)
  fed-append b keyed xs ys hx =
      ap (λ y. record { h_pows = b.h_pows; y = y })
        (sym (serial-append (loadu key) (loadu-lt key keyed.sized keyed.bytes) b.y xs ys))

  -- A step that feeds the blocks of its chunk, over many chunks.
  module _ (step : Backend → List ℕ → Backend) (blocks : List ℕ → List (List ℕ)) (size : ℕ)
      (entered : (c : List ℕ) → length c ≡ size → IsBytes c → AllBlocks (blocks c))
      (feeds : (b : Backend) (keyed : IsKeyed key b) (c : List ℕ)
        → length c ≡ size
        → IsBytes c
        → step b c ≡ fed b keyed (blocks c)) where
    pub foldl-fed :
        (k : ℕ) (b : Backend) (keyed : IsKeyed key b) (xs : List ℕ)
        → k * size ≤ length xs
        → IsBytes xs
        → foldl step b (runs k size xs) ≡ fed b keyed (all_blocks blocks size k xs)
    unfolding runs
    foldl-fed zero b keyed xs h p = refl
    foldl-fed (suc k) b keyed xs h p =
        let c = take size xs in
        let hc : length c ≡ size = omega (arith, h, length-take size xs) in
        let pc = IsBytes-take size xs p in
        let ok = entered c hc pc in
        let keyed₁ = after_serial-IsKeyed key b keyed (blocks c) ok in
        ap (λ t. foldl step t (runs k size (drop size xs))) (feeds b keyed c hc pc)
        ∙ foldl-fed k (fed b keyed (blocks c)) keyed₁ (drop size xs)
            (omega (arith, h, length-drop size xs)) (IsBytes-drop size xs p)
        ∙ fed-append b keyed (blocks c) (all_blocks blocks size k (drop size xs)) ok
