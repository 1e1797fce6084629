-- ===== src/Ghash/Backend/Reduce.antt =====
-- `reduce` of src/aes_gcm/ghash.rs: two folds of a 64-bit word give the Montgomery residue.
use hardware_rust_crypto.Prelude.{
  ℕ, ◌+◌, ◌*◌, ◌^◌, ◌<◌, ◌≡◌, refl, sym, ap, ap₂, ◌∙◌, [], ◌∷◌, bit_xor, zero-bit_xor, arith,
}
use hardware_rust_crypto.Cpu.{lo64, hi64, shuffle_epi32, slli_epi64, srli_epi64, unpacklo_epi64}
use hardware_rust_crypto.Poly.Sum.{◌⊕◌, nil, at, ◌⊞◌, sums_agree}
use hardware_rust_crypto.Poly.Degree.{shift-xor, xor-lt_pow}
use hardware_rust_crypto.Poly.Montgomery.{IsResidue}
use hardware_rust_crypto.Ghash.Backend.{Wide, reduce, xor4, xor5}
use hardware_rust_crypto.Ghash.Backend.Words.{
  halves, join, lo64-xor, lo64-shuffle, lo64-slli, lo64-srli,
}
use hardware_rust_crypto.Ghash.Backend.Folding.{
  left, right, spread, spread-xor, left-lt, right-lt, left-zero, right-zero, spread-eq,
  two_multiples,
}
use hardware_rust_crypto.Ghash.Backend.Product.{polynomial, IsWide}

lo64-xor4 : (a b c d : ℕ) → lo64 (xor4 a b c d) ≡ xor4 (lo64 a) (lo64 b) (lo64 c) (lo64 d)
lo64-xor4 a b c d = lo64-xor (a ⊕ b) (c ⊕ d) ∙ ap₂ ◌⊕◌ (lo64-xor a b) (lo64-xor c d)

lo64-left :
    (y x : ℕ)
    → lo64 (xor4 x (slli_epi64 y 63) (slli_epi64 y 62) (slli_epi64 y 57)) ≡ left (lo64 y) (lo64 x)
lo64-left y x =
    lo64-xor4 x (slli_epi64 y 63) (slli_epi64 y 62) (slli_epi64 y 57)
    ∙ ap₂ (λ s t. lo64 x ⊕ s ⊕ t) (lo64-slli y 63) (ap₂ ◌⊕◌ (lo64-slli y 62) (lo64-slli y 57))

lo64-right :
    (y x : ℕ)
    → lo64 (xor5 x y (srli_epi64 y 1) (srli_epi64 y 2) (srli_epi64 y 7)) ≡ right (lo64 y) (lo64 x)
lo64-right y x =
    lo64-xor x (xor4 y (srli_epi64 y 1) (srli_epi64 y 2) (srli_epi64 y 7))
    ∙ ap (◌⊕◌ (lo64 x)) (
        lo64-xor4 y (srli_epi64 y 1) (srli_epi64 y 2) (srli_epi64 y 7)
        ∙ ap₂ (λ s t. lo64 y ⊕ s ⊕ t) (lo64-srli y 1) (ap₂ ◌⊕◌ (lo64-srli y 2) (lo64-srli y 7)))

-- The four words of a wide value, and the two of its residue.
module _ (w : Wide) where
  abbrev mid : ℕ
  mid = w.t2 ⊕ (w.t0 ⊕ w.t1)

  abbrev u₀ : ℕ
  u₀ = lo64 w.t0

  abbrev u₁ : ℕ
  u₁ = hi64 w.t0 ⊕ lo64 mid

  abbrev u₂ : ℕ
  u₂ = lo64 w.t1 ⊕ hi64 mid

  abbrev u₃ : ℕ
  u₃ = hi64 w.t1

  abbrev n₁ : ℕ
  n₁ = left u₀ u₁

  abbrev r₀ : ℕ
  r₀ = left n₁ (right u₀ u₂)

  abbrev r₁ : ℕ
  r₁ = right n₁ u₃

  reduce-words : reduce w ≡ r₀ + 2 ^ 64 * r₁
  unfolding reduce unpacklo_epi64
  reduce-words =
      let v₁ = bit_xor (shuffle_epi32 w.t0 0x0e) mid in
      let v₂ = bit_xor w.t1 (shuffle_epi32 mid 0x0e) in
      let v₃ = shuffle_epi32 w.t1 0x0e in
      let v₂' = xor5 v₂ w.t0 (srli_epi64 w.t0 1) (srli_epi64 w.t0 2) (srli_epi64 w.t0 7) in
      let v₁' = xor4 v₁ (slli_epi64 w.t0 63) (slli_epi64 w.t0 62) (slli_epi64 w.t0 57) in
      let e₁ : lo64 v₁ ≡ u₁ =
        lo64-xor (shuffle_epi32 w.t0 0x0e) mid ∙ ap (λ t. t ⊕ lo64 mid) (lo64-shuffle w.t0) in
      let e₂ : lo64 v₂ ≡ u₂ =
        lo64-xor w.t1 (shuffle_epi32 mid 0x0e) ∙ ap (◌⊕◌ (lo64 w.t1)) (lo64-shuffle mid) in
      let e₃ : lo64 v₃ ≡ u₃ = lo64-shuffle w.t1 in
      let f₁ : lo64 v₁' ≡ n₁ = lo64-left w.t0 v₁ ∙ ap (left u₀) e₁ in
      let f₂ : lo64 v₂' ≡ right u₀ u₂ = lo64-right w.t0 v₂ ∙ ap (right u₀) e₂ in
      ap₂ (λ s t. s + 2 ^ 64 * t) (lo64-left v₁' v₂' ∙ ap₂ left f₁ f₂)
        (lo64-right v₁' v₃ ∙ ap₂ right f₁ e₃)

polynomial-spread : (w : Wide) → IsWide w → polynomial w ≡ spread (u₀ w) (u₁ w) (u₂ w) (u₃ w)
polynomial-spread w h =
    let m = mid w in
    let small : m < 2 ^ 128 =
      xor-lt_pow 128 w.t2 (w.t0 ⊕ w.t1) h.2 (xor-lt_pow 128 w.t0 w.t1 h.0 h.1) in
    let e₁ : 2 ^ 64 * m ≡ 2 ^ 64 * lo64 m ⊕ 2 ^ 128 * hi64 m =
      ap (◌*◌ (2 ^ 64)) (sym (halves m small))
      ∙ shift-xor 64 (lo64 m) (2 ^ 64 * hi64 m)
      ∙ ap (◌⊕◌ (2 ^ 64 * lo64 m)) (omega arith) in
    let e₂ : 2 ^ 128 * w.t1 ≡ 2 ^ 128 * lo64 w.t1 ⊕ 2 ^ 192 * hi64 w.t1 =
      ap (◌*◌ (2 ^ 128)) (sym (halves w.t1 h.1))
      ∙ shift-xor 128 (lo64 w.t1) (2 ^ 64 * hi64 w.t1)
      ∙ ap (◌⊕◌ (2 ^ 128 * lo64 w.t1)) (omega arith) in
    ap₂ ◌⊕◌ (ap₂ ◌⊕◌ (sym (halves w.t0 h.0)) e₁) e₂
    ∙ sums_agree (at 0 ⊞ at 1 ⊞ (at 2 ⊞ at 3) ⊞ (at 4 ⊞ at 5))
        (at 0 ⊞ (at 1 ⊞ at 2) ⊞ (at 4 ⊞ at 3 ⊞ at 5))
        (lo64 w.t0
          ∷ 2 ^ 64 * hi64 w.t0
          ∷ 2 ^ 64 * lo64 m
          ∷ 2 ^ 128 * hi64 m
          ∷ 2 ^ 128 * lo64 w.t1
          ∷ 2 ^ 192 * hi64 w.t1
          ∷ [])
        refl
    ∙ sym (
        ap₂ (λ s t. lo64 w.t0 ⊕ s ⊕ (t ⊕ 2 ^ 192 * hi64 w.t1)) (shift-xor 64 (hi64 w.t0) (lo64 m))
          (shift-xor 128 (lo64 w.t1) (hi64 m)))

-- The reduction gives the residue in Montgomery form: a number below x^128 that, times x^128, is
-- the wide value modulo x^128 + x^127 + x^126 + x^121 + 1.
pub reduce-IsResidue : (w : Wide) → IsWide w → IsResidue 128 (polynomial w) (reduce w)
reduce-IsResidue w h =
    let v = u₀ w in
    let n = n₁ w in
    let hv : v < 2 ^ 64 = omega arith in
    let hu₁ = xor-lt_pow 64 (hi64 w.t0) (lo64 (mid w)) (omega arith) (omega arith) in
    let hu₂ = xor-lt_pow 64 (lo64 w.t1) (hi64 (mid w)) (omega arith) (omega arith) in
    let hn = left-lt v (u₁ w) hu₁ in
    let hr₀ = left-lt n (right v (u₂ w)) (right-lt v (u₂ w) hv hu₂) in
    let hr₁ = right-lt n (u₃ w) hn (omega arith) in
    let words = reduce-words w in
    let e : 2 ^ 128 * reduce w ≡ spread 0 0 (r₀ w) (r₁ w) =
      ap (◌*◌ (2 ^ 128)) (words ∙ sym (join 64 (r₀ w) (r₁ w) hr₀))
      ∙ shift-xor 128 (r₀ w) (2 ^ 64 * r₁ w)
      ∙ ap (◌⊕◌ (2 ^ 128 * r₀ w)) (omega arith)
      ∙ sym (zero-bit_xor (2 ^ 128 * r₀ w ⊕ 2 ^ 192 * r₁ w)) in
    (
      omega (arith, words, hr₀, hr₁),
      (
        v ⊕ 2 ^ 64 * n,
        ap₂ ◌⊕◌ e (polynomial-spread w h)
            ∙ spread-xor 0 0 (r₀ w) (r₁ w) v (u₁ w) (u₂ w) (u₃ w)
            ∙ spread-eq (sums_agree (nil ⊞ at 0) (at 0 ⊞ nil) (v ∷ []) refl)
                (sums_agree (nil ⊞ at 0) (at 1 ⊞ (at 0 ⊞ at 1)) (u₁ w ∷ left v 0 ∷ []) refl
                  ∙ ap (◌⊕◌ (left v 0)) (sym (left-zero v (u₁ w))))
                (ap (λ t. t ⊕ u₂ w)
                    (left-zero n (right v (u₂ w)) ∙ ap (λ t. t ⊕ left n 0) (right-zero v (u₂ w)))
                  ∙ sums_agree (at 0 ⊞ at 1 ⊞ at 2 ⊞ at 0) (at 1 ⊞ at 2)
                      (u₂ w ∷ right v 0 ∷ left n 0 ∷ []) refl)
                (ap (λ t. t ⊕ u₃ w) (right-zero n (u₃ w))
                  ∙ sums_agree (at 0 ⊞ at 1 ⊞ at 0) (nil ⊞ at 1) (u₃ w ∷ right n 0 ∷ []) refl)
            ∙ sym (two_multiples v n hv hn),
      ),
    )
