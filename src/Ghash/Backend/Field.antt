-- ===== src/Ghash/Backend/Field.antt =====
-- `mul` and `mulx` of src/aes_gcm/ghash.rs, on the 16 bytes of their operands, in the field.
use hardware_rust_crypto.Prelude.{
  ℕ, zero, suc, ◌*◌, ◌/◌, ◌%◌, ◌^◌, ◌<◌, ◌≡◌, refl, sym, ap₂, subst, ◌∙◌, List, [], ◌∷◌, length,
  bit_xor, IsBytes, from_le_bytes, from_le_bytes-lt, from_le_bytes-to_le_bytes, arith,
}
use hardware_rust_crypto.Cpu.{loadu}
use hardware_rust_crypto.Poly.Sum.{◌⊕◌, at, ◌⊞◌, sums_agree}
use hardware_rust_crypto.Poly.Product.{◌⊗◌, product-zero_left, product_comm}
use hardware_rust_crypto.Poly.Degree.{xor-lt_pow, product-one}
use hardware_rust_crypto.Poly.Montgomery.{modulus, IsResidue}
use hardware_rust_crypto.Ghash.Backend.{mul}
use hardware_rust_crypto.Ghash.Backend.Words.{join}
use hardware_rust_crypto.Ghash.Backend.Aggregate.{times-IsResidue}
use hardware_rust_crypto.Ghash.Backend.Batches.{loadu-lt, loadu-mul}
use hardware_rust_crypto.Ghash.Key.{mulx}

-- `mul` of two blocks of 16 bytes is the product of POLYVAL: a polynomial below x^128 that, times
-- x^128, is the product of the two polynomials modulo x^128 + x^127 + x^126 + x^121 + 1.
pub mul-IsResidue :
    (a b : List ℕ)
    → length a ≡ 16
    → IsBytes a
    → length b ≡ 16
    → IsBytes b
    → IsResidue 128 (loadu a ⊗ loadu b) (loadu (mul a b))
mul-IsResidue a b la pa lb pb =
    let ha = loadu-lt a la pa in
    let hb = loadu-lt b lb pb in
    subst (IsResidue 128 (loadu a ⊗ loadu b)) (sym (loadu-mul a b ha hb))
      (times-IsResidue (loadu a) (loadu b) ha hb)

-- What `mulx` folds back for the digit that it shifts out.
abbrev folded : ℕ → ℕ
folded d =
    bit_xor (bit_xor (bit_xor d (d * 2 ^ 127 % 2 ^ 128)) (d * 2 ^ 126 % 2 ^ 128))
      (d * 2 ^ 121 % 2 ^ 128)

folded_lem : (d : ℕ) → d < 2 → (folded d < 2 ^ 128) × (folded d ⊕ 2 ^ 128 * d ≡ d ⊗ modulus)
folded_lem zero h = (omega arith, sym (product-zero_left modulus))
folded_lem (suc zero) h = (omega arith, sym (product_comm 1 modulus ∙ product-one modulus))
folded_lem (suc (suc d)) h = absurd (omega arith)

-- `mulx` of a block of 16 bytes is multiplication by x: a polynomial below x^128 that is x times
-- the block's, modulo x^128 + x^127 + x^126 + x^121 + 1.
pub mulx-IsResidue :
    (a : List ℕ) → length a ≡ 16 → IsBytes a → IsResidue 0 (2 * loadu a) (loadu (mulx a))
unfolding mulx loadu
mulx-IsResidue a la pa =
    let v = from_le_bytes a in
    let hv : v < 2 ^ 128 = from_le_bytes-lt 16 a la pa in
    let d = v / 2 ^ 127 in
    let f = folded_lem d (omega (arith, hv)) in
    let low = v * 2 % 2 ^ 128 in
    let r = low ⊕ folded d in
    let hr = xor-lt_pow 128 low (folded d) (omega arith) f.0 in
    let twice : 2 * v ≡ low ⊕ 2 ^ 128 * d =
      sym (join 128 low d (omega arith) ∙ omega (arith, hv)) in
    subst (IsResidue 0 (2 * v)) (sym (from_le_bytes-to_le_bytes 16 r hr)) (
      hr,
      (
        d,
        ap₂ ◌⊕◌ (omega arith) twice
            ∙ sums_agree (at 0 ⊞ at 1 ⊞ (at 0 ⊞ at 2)) (at 1 ⊞ at 2)
                (low ∷ folded d ∷ 2 ^ 128 * d ∷ []) refl
            ∙ f.1,
      ),
    )
