-- ===== src/Ghash/Backend/Words.antt =====
-- Registers of 128 bits as polynomials: their 64-bit halves, and what the shuffles and shifts of
-- src/aes_gcm/ghash.rs do to them.
use native.Mathlib.Nat.{pow-succ', div-le_self}
use Prim.Native.Nat.{differ}
use hardware_rust_crypto.Prelude.{
  ℕ, zero, suc, ◌+◌, ◌*◌, ◌/◌, ◌%◌, ◌^◌, ◌<◌, ◌≡◌, refl, ap, ◌∙◌, bit_xor, bit_xor-mod, bit_xor-div,
  bit_xor_step, zero-bit_xor, arith,
}
use hardware_rust_crypto.Cpu.{
  lo64, hi64, shuffle_epi32, slli_epi64, srli_epi64, clmulepi64_lo, clmulepi64_hi,
}
use hardware_rust_crypto.Cpu.Clmul.{clmul}
use hardware_rust_crypto.Poly.Sum.{◌⊕◌}
use hardware_rust_crypto.Poly.Product.{◌⊗◌, digits-eq-product}
use hardware_rust_crypto.Poly.Degree.{shift_suc_lem}

-- Parts that do not overlap are added.
pub join : (k a b : ℕ) → a < 2 ^ k → a ⊕ 2 ^ k * b ≡ a + 2 ^ k * b
join zero a b h =
    let e : a ≡ 0 = omega arith in
    ap (λ t. t ⊕ 2 ^ zero * b) e ∙ zero-bit_xor (2 ^ zero * b) ∙ omega (arith, e)
join (suc k) a b h =
    let m = 2 ^ k * b in
    let ih = join k (a / 2) b (omega (arith, h, pow-succ' 2 k)) in
    let e : 2 * m / 2 ≡ m = omega arith in
    let z : 2 * m % 2 ≡ 0 = omega arith in
    let f : 2 ^ suc k * b ≡ 2 * m = shift_suc_lem k b in
    ap (◌⊕◌ a) f
    ∙ omega (
      arith,
      bit_xor_step a (2 * m),
      ap (bit_xor (a / 2)) e,
      ap (differ (a % 2)) z,
      digit (a % 2) (omega arith),
      ih,
      f,
    )
  where
    digit : (d : ℕ) → d < 2 → differ d 0 ≡ d
    digit zero h = refl
    digit (suc zero) h = refl
    digit (suc (suc d)) h = absurd (omega arith)

-- A number cut at 64 digits.
pub rejoin : (y : ℕ) → y % 2 ^ 64 ⊕ 2 ^ 64 * (y / 2 ^ 64) ≡ y
rejoin y = join 64 (y % 2 ^ 64) (y / 2 ^ 64) (omega arith) ∙ omega arith

pub halves : (x : ℕ) → x < 2 ^ 128 → lo64 x ⊕ 2 ^ 64 * hi64 x ≡ x
halves x h = join 64 (lo64 x) (hi64 x) (omega arith) ∙ omega arith

pub lo64-xor : (a b : ℕ) → lo64 (a ⊕ b) ≡ lo64 a ⊕ lo64 b
lo64-xor a b = bit_xor-mod 64 a b

pub hi64-xor : (a b : ℕ) → hi64 (a ⊕ b) ≡ hi64 a ⊕ hi64 b
hi64-xor a b = ap (λ t. t % 2 ^ 64) (bit_xor-div 64 a b) ∙ bit_xor-mod 64 (a / 2 ^ 64) (b / 2 ^ 64)

pub lo64-shuffle : (x : ℕ) → lo64 (shuffle_epi32 x 0x0e) ≡ hi64 x
unfolding shuffle_epi32
lo64-shuffle x = omega arith

pub lo64-slli : (x k : ℕ) → lo64 (slli_epi64 x k) ≡ lo64 x * 2 ^ k % 2 ^ 64
unfolding slli_epi64
lo64-slli x k = omega arith

pub lo64-srli : (x k : ℕ) → lo64 (srli_epi64 x k) ≡ lo64 x / 2 ^ k
unfolding srli_epi64
lo64-srli x k = omega (arith, div-le_self (x % 2 ^ 64) (2 ^ k))

pub clmulepi64_lo-product : (a b : ℕ) → clmulepi64_lo a b ≡ lo64 a ⊗ lo64 b
unfolding clmulepi64_lo clmul
clmulepi64_lo-product a b = digits-eq-product 64 (lo64 a) (lo64 b) (omega arith)

pub clmulepi64_hi-product : (a b : ℕ) → clmulepi64_hi a b ≡ hi64 a ⊗ hi64 b
unfolding clmulepi64_hi clmul
clmulepi64_hi-product a b = digits-eq-product 64 (hi64 a) (hi64 b) (omega arith)
