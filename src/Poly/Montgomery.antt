-- ===== src/Poly/Montgomery.antt =====
-- Residues of polynomials in Montgomery form, for the modulus of POLYVAL: what a reduction has to
-- give, that this determines it, and the laws of the multiplication that it makes.
use Prim.Native.Nat.{differ}
use native.Mathlib.Nat.{div-eq_of_lt}
use hardware_rust_crypto.Prelude.{
  subst, ℕ, zero, suc, ◌+◌, ◌*◌, ◌/◌, ◌%◌, ◌^◌, ◌<◌, ◌≡◌, refl, sym, ap, ap₂, ◌∙◌, [], ◌∷◌, bit_xor,
  bit_xor-div, bit_xor_half, bit_xor_cancel, zero-bit_xor, arith,
}
use hardware_rust_crypto.Poly.Sum.{◌⊕◌, at, ◌⊞◌, sums_agree}
use hardware_rust_crypto.Poly.Product.{
  ◌⊗◌, product_comm, product_assoc, product-xor_left, product_step, product-double_left,
  product-zero_left,
}
use hardware_rust_crypto.Poly.Degree.{
  Lead, short_multiple, shift-xor, shift_suc_lem, product-shift_left,
}

-- x^128 + x^127 + x^126 + x^121 + 1.
abbrev pub modulus : ℕ
modulus = 2 ^ 128 + 2 ^ 127 + 2 ^ 126 + 2 ^ 121 + 1

-- A multiple of the modulus.
abbrev pub Vanishes : ℕ → Type 0
Vanishes u = (q : ℕ) × (u ≡ q ⊗ modulus)

-- `r` is a residue of `w / x^k`.
abbrev pub IsResidue : ℕ → ℕ → ℕ → Type 0
IsResidue k w r = (r < 2 ^ 128) × Vanishes (2 ^ k * r ⊕ w)

pub Vanishes-xor : (u v : ℕ) → Vanishes u → Vanishes v → Vanishes (u ⊕ v)
Vanishes-xor u v (q, e) (r, f) = (q ⊕ r, ap₂ ◌⊕◌ e f ∙ sym (product-xor_left q r modulus))

pub Vanishes-product : (c u : ℕ) → Vanishes u → Vanishes (u ⊗ c)
Vanishes-product c u (q, e) = (
  q ⊗ c,
  ap (λ t. t ⊗ c) e
      ∙ product_assoc q modulus c
      ∙ ap (◌⊗◌ q) (product_comm modulus c)
      ∙ sym (product_assoc q c modulus),
)

pub Vanishes-shift : (k u : ℕ) → Vanishes u → Vanishes (2 ^ k * u)
Vanishes-shift k u (q, e) = (2 ^ k * q, ap (◌*◌ (2 ^ k)) e ∙ sym (product-shift_left k q modulus))

-- The modulus is odd, so a multiple is even only if its factor is.
parity : (q : ℕ) → (q ⊗ modulus) % 2 ≡ q % 2
parity q =
    let m = q ⊗ (modulus / 2) in
    let z : 2 * m % 2 ≡ 0 = omega arith in
    ap (λ t. t % 2) (product_step q modulus)
    ∙ (bit_xor_half q (2 * m)).1
    ∙ ap (differ (q % 2)) z
    ∙ digit (q % 2) (omega arith)
  where
    digit : (d : ℕ) → d < 2 → differ d 0 ≡ d
    digit zero h = refl
    digit (suc zero) h = refl
    digit (suc (suc d)) h = absurd (omega arith)

Vanishes-half : (u : ℕ) → Vanishes (2 * u) → Vanishes u
Vanishes-half u (q, e) =
    let even : q % 2 ≡ 0 = sym (parity q) ∙ ap (λ t. t % 2) (sym e) ∙ omega arith in
    let twice : q ≡ 2 * (q / 2) = omega (arith, even) in
    let f : 2 * u ≡ 2 * (q / 2 ⊗ modulus) =
      e ∙ ap (λ t. t ⊗ modulus) twice ∙ product-double_left (q / 2) modulus in
    (q / 2, omega (arith, f))

-- The power of x is invertible.
Vanishes-unshift : (k u : ℕ) → Vanishes (2 ^ k * u) → Vanishes u
Vanishes-unshift zero u (q, e) = let f : u ≡ 2 ^ zero * u = omega arith in (q, f ∙ e)
Vanishes-unshift (suc k) u (q, e) =
    Vanishes-unshift k u (Vanishes-half (2 ^ k * u) (q, sym (shift_suc_lem k u) ∙ e))

modulus-Lead : Lead 128 modulus
modulus-Lead = refl

-- Two numbers below x^128 that differ by a multiple are equal.
Vanishes-short : (u : ℕ) → u < 2 ^ 128 → Vanishes u → u ≡ 0
Vanishes-short u h (q, e) =
    let none_of_it = short_multiple 128 q modulus modulus-Lead (omega (arith, h, e)) in
    e ∙ ap (λ t. t ⊗ modulus) none_of_it ∙ product-zero_left modulus

xor-lt : (u v : ℕ) → u < 2 ^ 128 → v < 2 ^ 128 → u ⊕ v < 2 ^ 128
xor-lt u v h k =
    let e : (u ⊕ v) / 2 ^ 128 ≡ 0 =
      bit_xor-div 128 u v ∙ ap₂ bit_xor (div-eq_of_lt h) (div-eq_of_lt k) in
    omega (arith, e)

-- The residue is determined.
pub IsResidue-unique : (k w r s : ℕ) → IsResidue k w r → IsResidue k w s → r ≡ s
IsResidue-unique k w r s (hr, vr) (hs, vs) =
    let both = Vanishes-xor (2 ^ k * r ⊕ w) (2 ^ k * s ⊕ w) vr vs in
    let e : 2 ^ k * (r ⊕ s) ≡ 2 ^ k * r ⊕ w ⊕ (2 ^ k * s ⊕ w) =
      shift-xor k r s
      ∙ sums_agree (at 0 ⊞ at 1) (at 0 ⊞ at 2 ⊞ (at 1 ⊞ at 2)) (2 ^ k * r ∷ 2 ^ k * s ∷ w ∷ [])
          refl in
    let same = Vanishes-unshift k (r ⊕ s) (both.0, e ∙ both.1) in
    let zero_sum = Vanishes-short (r ⊕ s) (xor-lt r s hr hs) same in
    sym (bit_xor_cancel r s) ∙ ap (λ t. t ⊕ s) zero_sum ∙ zero-bit_xor s

pub IsResidue-xor :
    (k w v r s : ℕ) → IsResidue k w r → IsResidue k v s → IsResidue k (w ⊕ v) (r ⊕ s)
IsResidue-xor k w v r s (hr, vr) (hs, vs) =
    let both = Vanishes-xor (2 ^ k * r ⊕ w) (2 ^ k * s ⊕ v) vr vs in
    (
      xor-lt r s hr hs,
      (
        both.0,
        ap (λ t. t ⊕ (w ⊕ v)) (shift-xor k r s)
            ∙ sums_agree (at 0 ⊞ at 1 ⊞ (at 2 ⊞ at 3)) (at 0 ⊞ at 2 ⊞ (at 1 ⊞ at 3))
                (2 ^ k * r ∷ 2 ^ k * s ∷ w ∷ v ∷ []) refl
            ∙ both.1,
      ),
    )

-- A residue of a product with a residue.
IsResidue-twice :
    (w r c s : ℕ) → IsResidue 128 w r → IsResidue 128 (r ⊗ c) s → IsResidue 256 (w ⊗ c) s
IsResidue-twice w r c s (hr, vr) (hs, vs) =
    let a = 2 ^ 256 * s in
    let b = 2 ^ 128 * (r ⊗ c) in
    let high = Vanishes-shift 128 (2 ^ 128 * s ⊕ r ⊗ c) vs in
    let low = Vanishes-product c (2 ^ 128 * r ⊕ w) vr in
    let both = Vanishes-xor (2 ^ 128 * (2 ^ 128 * s ⊕ r ⊗ c)) ((2 ^ 128 * r ⊕ w) ⊗ c) high low in
    let e₁ : 2 ^ 128 * (2 ^ 128 * s ⊕ r ⊗ c) ≡ a ⊕ b =
      shift-xor 128 (2 ^ 128 * s) (r ⊗ c) ∙ ap (λ t. t ⊕ b) (omega arith) in
    let e₂ : (2 ^ 128 * r ⊕ w) ⊗ c ≡ b ⊕ w ⊗ c =
      product-xor_left (2 ^ 128 * r) w c ∙ ap (λ t. t ⊕ w ⊗ c) (product-shift_left 128 r c) in
    (
      hs,
      (
        both.0,
        sums_agree (at 0 ⊞ at 2) (at 0 ⊞ at 1 ⊞ (at 1 ⊞ at 2)) (a ∷ b ∷ (w ⊗ c) ∷ []) refl
            ∙ sym (ap₂ ◌⊕◌ e₁ e₂)
            ∙ both.1,
      ),
    )

-- The multiplication that a reduction makes, on numbers below x^128.
module _ (mul : ℕ → ℕ → ℕ)
    (reduces : (a b : ℕ) → a < 2 ^ 128 → b < 2 ^ 128 → IsResidue 128 (a ⊗ b) (mul a b)) where
  pub residue_comm : (a b : ℕ) → a < 2 ^ 128 → b < 2 ^ 128 → mul a b ≡ mul b a
  residue_comm a b ha hb =
      IsResidue-unique 128 (a ⊗ b) (mul a b) (mul b a) (reduces a b ha hb)
        (subst (λ w. IsResidue 128 w (mul b a)) (product_comm b a) (reduces b a hb ha))

  pub residue-xor_left :
      (a b c : ℕ) → a < 2 ^ 128 → b < 2 ^ 128 → c < 2 ^ 128 → mul (a ⊕ b) c ≡ mul a c ⊕ mul b c
  residue-xor_left a b c ha hb hc =
      IsResidue-unique 128 ((a ⊕ b) ⊗ c) (mul (a ⊕ b) c) (mul a c ⊕ mul b c)
        (reduces (a ⊕ b) c (xor-lt a b ha hb) hc)
        (subst (λ w. IsResidue 128 w (mul a c ⊕ mul b c)) (sym (product-xor_left a b c))
          (IsResidue-xor 128 (a ⊗ c) (b ⊗ c) (mul a c) (mul b c) (reduces a c ha hc)
            (reduces b c hb hc)))

  pub residue_assoc :
      (a b c : ℕ) → a < 2 ^ 128 → b < 2 ^ 128 → c < 2 ^ 128 → mul (mul a b) c ≡ mul a (mul b c)
  residue_assoc a b c ha hb hc =
      let ab = reduces a b ha hb in
      let bc = reduces b c hb hc in
      let left =
        IsResidue-twice (a ⊗ b) (mul a b) c (mul (mul a b) c) ab (reduces (mul a b) c ab.0 hc) in
      let right = IsResidue-twice (b ⊗ c) (mul b c) a (mul a (mul b c)) bc (
        subst (λ w. IsResidue 128 w (mul a (mul b c))) (product_comm a (mul b c))
          (reduces a (mul b c) ha bc.0)) in
      IsResidue-unique 256 (a ⊗ b ⊗ c) (mul (mul a b) c) (mul a (mul b c)) left (
        subst (λ w. IsResidue 256 w (mul a (mul b c)))
          (product_comm (b ⊗ c) a ∙ sym (product_assoc a b c)) right)
