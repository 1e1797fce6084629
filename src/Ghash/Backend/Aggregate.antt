-- ===== src/Ghash/Backend/Aggregate.antt =====
-- The aggregated updates of src/aes_gcm/ghash.rs against the one-block update: four or eight
-- blocks with one reduction are the blocks one after another.
use hardware_rust_crypto.Prelude.{
  ℕ, zero, suc, ◌+◌, ◌^◌, ◌<◌, ◌≡◌, refl, sym, ap, ap₂, subst, ◌∙◌, List, [], ◌∷◌, length, arith,
}
use hardware_rust_crypto.Poly.Sum.{◌⊕◌}
use hardware_rust_crypto.Poly.Product.{◌⊗◌}
use hardware_rust_crypto.Poly.Degree.{xor-lt_pow}
use hardware_rust_crypto.Poly.Montgomery.{
  IsResidue, IsResidue-unique, IsResidue-xor, residue_comm, residue-xor_left, residue_assoc,
}
use hardware_rust_crypto.Ghash.Backend.{Wide, clmul_wide, add_wide, reduce}
use hardware_rust_crypto.Ghash.Backend.Product.{
  polynomial, IsWide, clmul_wide-product, add_wide-xor, add_wide-IsWide,
}
use hardware_rust_crypto.Ghash.Backend.Reduce.{reduce-IsResidue}

-- The multiplication on registers.
pub times : ℕ → ℕ → ℕ
times a b = reduce (clmul_wide a b)

-- It is the Montgomery product of the field: its value times x^128 is the product of the
-- polynomials modulo x^128 + x^127 + x^126 + x^121 + 1.
pub times-IsResidue : (a b : ℕ) → a < 2 ^ 128 → b < 2 ^ 128 → IsResidue 128 (a ⊗ b) (times a b)
unfolding times
times-IsResidue a b ha hb =
    let w = clmul_wide-product a b ha hb in
    subst (λ p. IsResidue 128 p (times a b)) w.0 (reduce-IsResidue (clmul_wide a b) w.1)

pub times_lem : (a b : ℕ) → times a b ≡ reduce (clmul_wide a b)
unfolding times
times_lem a b = refl

pub times-lt : (a b : ℕ) → a < 2 ^ 128 → b < 2 ^ 128 → times a b < 2 ^ 128
times-lt a b ha hb = (times-IsResidue a b ha hb).0

-- One reduction of a sum is the sum of the reductions.
reduce-add_wide : (v w : Wide) → IsWide v → IsWide w → reduce (add_wide v w) ≡ reduce v ⊕ reduce w
reduce-add_wide v w hv hw =
    IsResidue-unique 128 (polynomial (add_wide v w)) (reduce (add_wide v w)) (reduce v ⊕ reduce w)
      (reduce-IsResidue (add_wide v w) (add_wide-IsWide v w hv hw))
      (subst (λ p. IsResidue 128 p (reduce v ⊕ reduce w)) (sym (add_wide-xor v w))
        (IsResidue-xor 128 (polynomial v) (polynomial w) (reduce v) (reduce w)
          (reduce-IsResidue v hv) (reduce-IsResidue w hw)))

-- Factors of a list of products, each below x^128.
abbrev pub AllShort : List ℕ → Type 0
AllShort [] = Unit {0}
AllShort (x ∷ xs) = (x < 2 ^ 128) × AllShort xs

module _ (h : ℕ) (hh : h < 2 ^ 128) where
  -- `pow i` is the power number `i + 1` of the key, as `h_pows[i]`.
  abbrev pub pow : ℕ → ℕ
  pow zero = h
  pow (suc i) = times (pow i) h

  pub pow-lt : (i : ℕ) → pow i < 2 ^ 128
  pow-lt zero = hh
  pow-lt (suc i) = times-lt (pow i) h (pow-lt i) hh

  pub pow-times : (i j k : ℕ) → i + suc j ≡ k → times (pow i) (pow j) ≡ pow k
  pow-times i zero zero e = absurd (omega arith)
  pow-times i zero (suc k) e = let f : i ≡ k = omega arith in ap (λ t. times (pow t) h) f
  pow-times i (suc j) zero e = absurd (omega arith)
  pow-times i (suc j) (suc k) e =
      sym (residue_assoc times times-IsResidue (pow i) (pow j) h (pow-lt i) (pow-lt j) hh)
      ∙ ap (λ t. times t h) (pow-times i j k (omega arith))

  -- One block after another.
  abbrev pub serial : ℕ → List ℕ → ℕ
  serial y [] = y
  serial y (x ∷ xs) = serial (times (y ⊕ x) h) xs

  -- Products with falling powers, as wide values added up.
  abbrev pub aggregated : Wide → List ℕ → Wide
  aggregated acc [] = acc
  aggregated acc (x ∷ xs) = aggregated (add_wide acc (clmul_wide x (pow (length xs)))) xs

  clmul_wide-IsWide : (x i : ℕ) → x < 2 ^ 128 → IsWide (clmul_wide x (pow i))
  clmul_wide-IsWide x i hx = (clmul_wide-product x (pow i) hx (pow-lt i)).1

  serial-aggregated :
      (y : ℕ) (acc : Wide) (xs : List ℕ)
      → y < 2 ^ 128
      → AllShort xs
      → IsWide acc
      → reduce acc ≡ times y (pow (length xs))
      → serial (times y h) xs ≡ reduce (aggregated acc xs)
  serial-aggregated y acc [] hy hxs ha e = sym e
  serial-aggregated y acc (x ∷ xs) hy hxs ha e =
      let n = length xs in
      let p = pow n in
      let hp = pow-lt n in
      let yh = times y h in
      let hyh = times-lt y h hy hh in
      let w = clmul_wide x p in
      let hw = clmul_wide-IsWide x n hxs.0 in
      let turn : times y (pow (suc n)) ≡ times yh p =
        ap (times y) (residue_comm times times-IsResidue p h hp hh)
        ∙ sym (residue_assoc times times-IsResidue y h p hy hh hp) in
      let one : times x p ≡ reduce w = times_lem x p in
      serial-aggregated (yh ⊕ x) (add_wide acc w) xs (xor-lt_pow 128 yh x hyh hxs.0) hxs.1
        (add_wide-IsWide acc w ha hw)
        (reduce-add_wide acc w ha hw
          ∙ ap₂ ◌⊕◌ (e ∙ turn) (sym one)
          ∙ sym (residue-xor_left times times-IsResidue yh x p hyh hxs.0 hp))

  -- Several blocks with one reduction, the powers of the key falling, are one after another.
  pub serial-reduce :
      (y x : ℕ) (xs : List ℕ)
      → y < 2 ^ 128
      → x < 2 ^ 128
      → AllShort xs
      → serial y (x ∷ xs) ≡ reduce (aggregated (clmul_wide (y ⊕ x) (pow (length xs))) xs)
  serial-reduce y x xs hy hx hxs =
      let z = y ⊕ x in
      let hz = xor-lt_pow 128 y x hy hx in
      serial-aggregated z (clmul_wide z (pow (length xs))) xs hz hxs
        (clmul_wide-IsWide z (length xs) hz) (sym (times_lem z (pow (length xs))))

  pub serial-lt : (y : ℕ) (xs : List ℕ) → y < 2 ^ 128 → AllShort xs → serial y xs < 2 ^ 128
  serial-lt y [] hy hxs = hy
  serial-lt y (x ∷ xs) hy hxs =
      serial-lt (times (y ⊕ x) h) xs (times-lt (y ⊕ x) h (xor-lt_pow 128 y x hy hxs.0) hh) hxs.1

  -- The powers that a key state holds.
  abbrev pub pow_list : List ℕ
  pow_list = pow 0 ∷ pow 1 ∷ pow 2 ∷ pow 3 ∷ pow 4 ∷ pow 5 ∷ pow 6 ∷ pow 7 ∷ []
