-- ===== src/Ghash/Backend/Product.antt =====
-- `clmul_wide` of src/aes_gcm/ghash.rs: three products of 64-bit words are the product of
-- polynomials.
use hardware_rust_crypto.Prelude.{ℕ, ◌*◌, ◌^◌, ◌<◌, ◌≡◌, refl, sym, ap, ap₂, ◌∙◌, [], ◌∷◌, arith}
use hardware_rust_crypto.Cpu.{lo64, hi64, shuffle_epi32}
use hardware_rust_crypto.Poly.Sum.{◌⊕◌, at, ◌⊞◌, sums_agree}
use hardware_rust_crypto.Poly.Product.{◌⊗◌, product-xor_left, product-xor_right}
use hardware_rust_crypto.Poly.Degree.{
  shift-xor, product-shift_left, product-shift_right, product-lt, xor-lt_pow,
}
use hardware_rust_crypto.Ghash.Backend.{Wide, clmul_wide, add_wide}
use hardware_rust_crypto.Ghash.Backend.Words.{
  halves, lo64-xor, lo64-shuffle, clmulepi64_lo-product, clmulepi64_hi-product,
}

-- The polynomial that three partial products stand for: `t2` is the middle one of Karatsuba.
abbrev pub polynomial : Wide → ℕ
polynomial w = w.t0 ⊕ 2 ^ 64 * (w.t2 ⊕ (w.t0 ⊕ w.t1)) ⊕ 2 ^ 128 * w.t1

-- Registers of 128 bits.
abbrev pub IsWide : Wide → Type 0
IsWide w = (w.t0 < 2 ^ 128) × (w.t1 < 2 ^ 128) × (w.t2 < 2 ^ 128)

middle_word : (x : ℕ) → lo64 (x ⊕ shuffle_epi32 x 0x0e) ≡ lo64 x ⊕ hi64 x
middle_word x = lo64-xor x (shuffle_epi32 x 0x0e) ∙ ap (◌⊕◌ (lo64 x)) (lo64-shuffle x)

clmul_wide_lem :
    (x h : ℕ)
    → ((clmul_wide x h).t0 ≡ lo64 x ⊗ lo64 h)
      × ((clmul_wide x h).t1 ≡ hi64 x ⊗ hi64 h)
      × ((clmul_wide x h).t2 ≡ (lo64 x ⊕ hi64 x) ⊗ (lo64 h ⊕ hi64 h))
unfolding clmul_wide
clmul_wide_lem x h = (
  clmulepi64_lo-product x h,
  clmulepi64_hi-product x h,
  clmulepi64_lo-product (x ⊕ shuffle_epi32 x 0x0e) (h ⊕ shuffle_epi32 h 0x0e)
      ∙ ap₂ ◌⊗◌ (middle_word x) (middle_word h),
)

-- Karatsuba: of two factors of two words each.
karatsuba :
    (x₀ x₁ h₀ h₁ : ℕ)
    → (x₀ ⊗ h₀) ⊕ 2 ^ 64 * ((x₀ ⊕ x₁) ⊗ (h₀ ⊕ h₁) ⊕ (x₀ ⊗ h₀ ⊕ x₁ ⊗ h₁)) ⊕ 2 ^ 128 * (x₁ ⊗ h₁)
      ≡ (x₀ ⊕ 2 ^ 64 * x₁) ⊗ (h₀ ⊕ 2 ^ 64 * h₁)
karatsuba x₀ x₁ h₀ h₁ =
    let a = x₀ ⊗ h₀ in
    let b = x₀ ⊗ h₁ in
    let c = x₁ ⊗ h₀ in
    let d = x₁ ⊗ h₁ in
    let e₁ : (x₀ ⊕ x₁) ⊗ (h₀ ⊕ h₁) ⊕ (a ⊕ d) ≡ b ⊕ c =
      ap (λ t. t ⊕ (a ⊕ d))
        (product-xor_left x₀ x₁ (h₀ ⊕ h₁)
          ∙ ap₂ ◌⊕◌ (product-xor_right x₀ h₀ h₁) (product-xor_right x₁ h₀ h₁))
      ∙ sums_agree (at 0 ⊞ at 1 ⊞ (at 2 ⊞ at 3) ⊞ (at 0 ⊞ at 3)) (at 1 ⊞ at 2) (a ∷ b ∷ c ∷ d ∷ [])
          refl in
    let e₂ : x₀ ⊗ (h₀ ⊕ 2 ^ 64 * h₁) ≡ a ⊕ 2 ^ 64 * b =
      product-xor_right x₀ h₀ (2 ^ 64 * h₁) ∙ ap (◌⊕◌ a) (product-shift_right 64 x₀ h₁) in
    let e₃ : x₁ ⊗ (h₀ ⊕ 2 ^ 64 * h₁) ≡ c ⊕ 2 ^ 64 * d =
      product-xor_right x₁ h₀ (2 ^ 64 * h₁) ∙ ap (◌⊕◌ c) (product-shift_right 64 x₁ h₁) in
    let e₄ : 2 ^ 64 * (c ⊕ 2 ^ 64 * d) ≡ 2 ^ 64 * c ⊕ 2 ^ 128 * d =
      shift-xor 64 c (2 ^ 64 * d) ∙ ap (◌⊕◌ (2 ^ 64 * c)) (omega arith) in
    ap (λ t. a ⊕ 2 ^ 64 * t ⊕ 2 ^ 128 * d) e₁
    ∙ ap (λ t. a ⊕ t ⊕ 2 ^ 128 * d) (shift-xor 64 b c)
    ∙ sums_agree (at 0 ⊞ (at 1 ⊞ at 2) ⊞ at 3) (at 0 ⊞ at 1 ⊞ (at 2 ⊞ at 3))
        (a ∷ 2 ^ 64 * b ∷ 2 ^ 64 * c ∷ 2 ^ 128 * d ∷ []) refl
    ∙ sym (
        product-xor_left x₀ (2 ^ 64 * x₁) (h₀ ⊕ 2 ^ 64 * h₁)
        ∙ ap₂ ◌⊕◌ e₂ (product-shift_left 64 x₁ (h₀ ⊕ 2 ^ 64 * h₁) ∙ ap (◌*◌ (2 ^ 64)) e₃ ∙ e₄))

-- For registers of 128 bits, the three partial products stand for the product of polynomials.
pub clmul_wide-product :
    (x h : ℕ)
    → x < 2 ^ 128
    → h < 2 ^ 128
    → (polynomial (clmul_wide x h) ≡ x ⊗ h) × IsWide (clmul_wide x h)
clmul_wide-product x h hx hh =
    let l = clmul_wide_lem x h in
    let x₀ = lo64 x in
    let x₁ = hi64 x in
    let h₀ = lo64 h in
    let h₁ = hi64 h in
    let small : (a b : ℕ) → a < 2 ^ 64 → b < 2 ^ 64 → a ⊗ b < 2 ^ 128 =
      λ a b p q. product-lt 64 64 128 a b refl p q in
    (
      ap
            (λ t.
              t
              ⊕ 2 ^ 64 * ((clmul_wide x h).t2 ⊕ (t ⊕ (clmul_wide x h).t1))
              ⊕ 2 ^ 128 * (clmul_wide x h).t1)
            l.0
          ∙ ap₂ (λ t u. (x₀ ⊗ h₀) ⊕ 2 ^ 64 * (u ⊕ ((x₀ ⊗ h₀) ⊕ t)) ⊕ 2 ^ 128 * t) l.1 l.2
          ∙ karatsuba x₀ x₁ h₀ h₁
          ∙ ap₂ ◌⊗◌ (halves x hx) (halves h hh),
      (
        omega (arith, l.0, small x₀ h₀ (omega arith) (omega arith)),
        omega (arith, l.1, small x₁ h₁ (omega arith) (omega arith)),
        omega (
          arith,
          l.2,
          small (x₀ ⊕ x₁) (h₀ ⊕ h₁) (xor-lt_pow 64 x₀ x₁ (omega arith) (omega arith))
              (xor-lt_pow 64 h₀ h₁ (omega arith) (omega arith)),
        ),
      ),
    )

-- Sums of partial products stand for sums of products.
pub add_wide-xor : (v w : Wide) → polynomial (add_wide v w) ≡ polynomial v ⊕ polynomial w
add_wide-xor v w =
    let m = 2 ^ 64 * (v.t2 ⊕ (v.t0 ⊕ v.t1)) in
    let n = 2 ^ 64 * (w.t2 ⊕ (w.t0 ⊕ w.t1)) in
    let e₁ : 2 ^ 64 * (v.t2 ⊕ w.t2 ⊕ (v.t0 ⊕ w.t0 ⊕ (v.t1 ⊕ w.t1))) ≡ m ⊕ n =
      ap (◌*◌ (2 ^ 64)) (
        sums_agree (at 2 ⊞ at 5 ⊞ (at 0 ⊞ at 3 ⊞ (at 1 ⊞ at 4)))
          (at 2 ⊞ (at 0 ⊞ at 1) ⊞ (at 5 ⊞ (at 3 ⊞ at 4)))
          (v.t0 ∷ v.t1 ∷ v.t2 ∷ w.t0 ∷ w.t1 ∷ w.t2 ∷ []) refl)
      ∙ shift-xor 64 (v.t2 ⊕ (v.t0 ⊕ v.t1)) (w.t2 ⊕ (w.t0 ⊕ w.t1)) in
    ap₂ (λ s t. v.t0 ⊕ w.t0 ⊕ s ⊕ t) e₁ (shift-xor 128 v.t1 w.t1)
    ∙ sums_agree (at 0 ⊞ at 1 ⊞ (at 2 ⊞ at 3) ⊞ (at 4 ⊞ at 5))
        (at 0 ⊞ at 2 ⊞ at 4 ⊞ (at 1 ⊞ at 3 ⊞ at 5))
        (v.t0 ∷ w.t0 ∷ m ∷ n ∷ 2 ^ 128 * v.t1 ∷ 2 ^ 128 * w.t1 ∷ []) refl

pub add_wide-IsWide : (v w : Wide) → IsWide v → IsWide w → IsWide (add_wide v w)
add_wide-IsWide v w p q = (
  xor-lt_pow 128 v.t0 w.t0 p.0 q.0,
  xor-lt_pow 128 v.t1 w.t1 p.1 q.1,
  xor-lt_pow 128 v.t2 w.t2 p.2 q.2,
)
