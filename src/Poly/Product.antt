-- ===== src/Poly/Product.antt =====
-- The product of polynomials, of which the carry-less product of the processor is the case of 64
-- digits: bilinear, commutative and associative.
use native.Mathlib.Nat.{pow-succ'}
use hardware_rust_crypto.Prelude.{
  ℕ, zero, suc, ◌*◌, ◌/◌, ◌%◌, ◌^◌, ◌≤◌, ◌<◌, ◌≡◌, refl, sym, ap, ap₂, ◌∙◌, bit_xor, bit_xor_step,
  bit_xor_half, zero-bit_xor, ◌==◌, if◌then◌else◌, arith,
}
use hardware_rust_crypto.Cpu.Clmul.{clmul_digits}
use hardware_rust_crypto.Poly.Sum.{◌⊕◌, xor-zero, xor_self, xor_swap}
use Prim.Native.Nat.{differ}

-- A digit times a polynomial.
abbrev pub sel : ℕ → ℕ → ℕ
sel d a = if d == 1 then a else 0

pub double-xor : (x y : ℕ) → 2 * (x ⊕ y) ≡ 2 * x ⊕ 2 * y
double-xor x y =
    let e : (c : ℕ) → 2 * c / 2 ≡ c = λ c. omega arith in
    let z : (c : ℕ) → 2 * c % 2 ≡ 0 = λ c. omega arith in
    omega (arith, bit_xor_step (2 * x) (2 * y), ap₂ bit_xor (e x) (e y), ap₂ differ (z x) (z y))

sel-xor : (d a b : ℕ) → d < 2 → sel d (a ⊕ b) ≡ sel d a ⊕ sel d b
sel-xor zero a b h = refl
sel-xor (suc zero) a b h = refl
sel-xor (suc (suc d)) a b h = absurd (omega arith)

sel-differ : (d e a : ℕ) → d < 2 → e < 2 → sel (differ d e) a ≡ sel d a ⊕ sel e a
sel-differ zero zero a h k = refl
sel-differ zero (suc zero) a h k = sym (zero-bit_xor a)
sel-differ (suc zero) zero a h k = sym (xor-zero a)
sel-differ (suc zero) (suc zero) a h k = sym (xor_self a)
sel-differ (suc (suc d)) e a h k = absurd (omega arith)
sel-differ d (suc (suc e)) a h k = absurd (omega arith)

sel-double : (d a : ℕ) → d < 2 → sel d (2 * a) ≡ 2 * sel d a
sel-double zero a h = refl
sel-double (suc zero) a h = refl
sel-double (suc (suc d)) a h = absurd (omega arith)

sel-zero : (d : ℕ) → d < 2 → sel d 0 ≡ 0
sel-zero zero h = refl
sel-zero (suc zero) h = refl
sel-zero (suc (suc d)) h = absurd (omega arith)

sel-one : (d : ℕ) → d < 2 → sel d 1 ≡ d
sel-one zero h = refl
sel-one (suc zero) h = refl
sel-one (suc (suc d)) h = absurd (omega arith)

-- The lowest digit and the rest.
pub low_and_rest : (b : ℕ) → b % 2 ⊕ 2 * (b / 2) ≡ b
low_and_rest b =
    let e : 2 * (b / 2) / 2 ≡ b / 2 = omega arith in
    let f : 2 * (b / 2) % 2 ≡ 0 = omega arith in
    let g : b % 2 / 2 ≡ 0 = omega arith in
    omega (
      arith,
      bit_xor_step (b % 2) (2 * (b / 2)),
      ap₂ bit_xor g e,
      zero-bit_xor (b / 2),
      ap (differ (b % 2 % 2)) f,
      digit (b % 2 % 2) (omega arith),
    )
  where
    digit : (d : ℕ) → d < 2 → differ d 0 ≡ d
    digit zero h = refl
    digit (suc zero) h = refl
    digit (suc (suc d)) h = absurd (omega arith)

digits-xor_left : (n a c b : ℕ) → clmul_digits n (a ⊕ c) b ≡ clmul_digits n a b ⊕ clmul_digits n c b
unfolding clmul_digits
digits-xor_left zero a c b = refl
digits-xor_left (suc n) a c b =
    ap₂ ◌⊕◌ (sel-xor (b % 2) a c (omega arith)) (
      ap (◌*◌ 2) (digits-xor_left n a c (b / 2))
      ∙ double-xor (clmul_digits n a (b / 2)) (clmul_digits n c (b / 2)))
    ∙ xor_swap (sel (b % 2) a) (sel (b % 2) c) (2 * clmul_digits n a (b / 2))
        (2 * clmul_digits n c (b / 2))

digits-xor_right :
    (n a b c : ℕ) → clmul_digits n a (b ⊕ c) ≡ clmul_digits n a b ⊕ clmul_digits n a c
unfolding clmul_digits
digits-xor_right zero a b c = refl
digits-xor_right (suc n) a b c =
    ap₂ ◌⊕◌
      (ap (λ d. sel d a) (bit_xor_half b c).1
        ∙ sel-differ (b % 2) (c % 2) a (omega arith) (omega arith))
      (ap (◌*◌ 2)
          (ap (clmul_digits n a) (bit_xor_half b c).0 ∙ digits-xor_right n a (b / 2) (c / 2))
        ∙ double-xor (clmul_digits n a (b / 2)) (clmul_digits n a (c / 2)))
    ∙ xor_swap (sel (b % 2) a) (sel (c % 2) a) (2 * clmul_digits n a (b / 2))
        (2 * clmul_digits n a (c / 2))

digits-double : (n a b : ℕ) → clmul_digits n (2 * a) b ≡ 2 * clmul_digits n a b
unfolding clmul_digits
digits-double zero a b = refl
digits-double (suc n) a b =
    ap₂ ◌⊕◌ (sel-double (b % 2) a (omega arith)) (ap (◌*◌ 2) (digits-double n a (b / 2)))
    ∙ sym (double-xor (sel (b % 2) a) (2 * clmul_digits n a (b / 2)))

digits-zero_right : (n a : ℕ) → clmul_digits n a 0 ≡ 0
unfolding clmul_digits
digits-zero_right zero a = refl
digits-zero_right (suc n) a = ap (λ t. 0 ⊕ 2 * t) (digits-zero_right n a)

digits-zero_left : (n b : ℕ) → clmul_digits n 0 b ≡ 0
unfolding clmul_digits
digits-zero_left zero b = refl
digits-zero_left (suc n) b =
    ap₂ (λ s t. s ⊕ 2 * t) (sel-zero (b % 2) (omega arith)) (digits-zero_left n (b / 2))

-- Digits beyond the last one of `b` change nothing.
digits_enough : (n m a b : ℕ) → b < 2 ^ n → b < 2 ^ m → clmul_digits n a b ≡ clmul_digits m a b
unfolding clmul_digits
digits_enough zero m a b h k =
    let e : b ≡ 0 = omega arith in sym (ap (clmul_digits m a) e ∙ digits-zero_right m a)
digits_enough (suc n) zero a b h k =
    let e : b ≡ 0 = omega arith in ap (clmul_digits (suc n) a) e ∙ digits-zero_right (suc n) a
digits_enough (suc n) (suc m) a b h k =
    ap (λ t. sel (b % 2) a ⊕ 2 * t)
      (digits_enough n m a (b / 2) (omega (arith, h, pow-succ' 2 n))
        (omega (arith, k, pow-succ' 2 m)))

digits-one_left : (n b : ℕ) → b < 2 ^ n → clmul_digits n 1 b ≡ b
unfolding clmul_digits
digits-one_left zero b h = omega arith
digits-one_left (suc n) b h =
    ap₂ (λ s t. s ⊕ 2 * t) (sel-one (b % 2) (omega arith))
      (digits-one_left n (b / 2) (omega (arith, h, pow-succ' 2 n)))
    ∙ low_and_rest b

digits-sel : (n d b : ℕ) → d < 2 → b < 2 ^ n → clmul_digits n d b ≡ sel d b
digits-sel n zero b h k = digits-zero_left n b
digits-sel n (suc zero) b h k = digits-one_left n b k
digits-sel n (suc (suc d)) b h k = absurd (omega arith)

digits_comm : (n m a b : ℕ) → a < 2 ^ m → b < 2 ^ n → clmul_digits n a b ≡ clmul_digits m b a
unfolding clmul_digits
digits_comm zero m a b h k =
    let e : b ≡ 0 = omega arith in sym (ap (λ t. clmul_digits m t a) e ∙ digits-zero_left m a)
digits_comm (suc n) m a b h k =
    ap₂ (λ s t. s ⊕ 2 * t) (sym (digits-sel m (b % 2) a (omega arith) h))
      (digits_comm n m a (b / 2) h (omega (arith, k, pow-succ' 2 n)))
    ∙ ap (◌⊕◌ (clmul_digits m (b % 2) a)) (sym (digits-double m (b / 2) a))
    ∙ sym (digits-xor_left m (b % 2) (2 * (b / 2)) a)
    ∙ ap (λ t. clmul_digits m t a) (low_and_rest b)

-- The product: as many digits as the number itself are enough.
infixl 68 ◌⊗◌
pub ◌⊗◌ : ℕ → ℕ → ℕ
a ⊗ b = clmul_digits b a b

lt-two_pow : (b : ℕ) → b < 2 ^ b
lt-two_pow zero = omega arith
lt-two_pow (suc b) = omega (arith, lt-two_pow b, pow-succ' 2 b)

pub digits-eq-product : (n a b : ℕ) → b < 2 ^ n → clmul_digits n a b ≡ a ⊗ b
unfolding ◌⊗◌
digits-eq-product n a b h = digits_enough n b a b h (lt-two_pow b)

pub product_comm : (a b : ℕ) → a ⊗ b ≡ b ⊗ a
unfolding ◌⊗◌
product_comm a b = digits_comm b a a b (lt-two_pow a) (lt-two_pow b)

pub product-xor_left : (a c b : ℕ) → (a ⊕ c) ⊗ b ≡ a ⊗ b ⊕ c ⊗ b
unfolding ◌⊗◌
product-xor_left a c b = digits-xor_left b a c b

pub product-xor_right : (a b c : ℕ) → a ⊗ (b ⊕ c) ≡ a ⊗ b ⊕ a ⊗ c
product-xor_right a b c =
    product_comm a (b ⊕ c) ∙ product-xor_left b c a ∙ ap₂ ◌⊕◌ (product_comm b a) (product_comm c a)

pub product-double_left : (a b : ℕ) → (2 * a) ⊗ b ≡ 2 * (a ⊗ b)
unfolding ◌⊗◌
product-double_left a b = digits-double b a b

pub product-double_right : (a b : ℕ) → a ⊗ (2 * b) ≡ 2 * (a ⊗ b)
product-double_right a b =
    product_comm a (2 * b) ∙ product-double_left b a ∙ ap (◌*◌ 2) (product_comm b a)

pub product-zero_left : (b : ℕ) → 0 ⊗ b ≡ 0
unfolding ◌⊗◌
product-zero_left b = digits-zero_left b b

pub product-zero_right : (a : ℕ) → a ⊗ 0 ≡ 0
product-zero_right a = product_comm a 0 ∙ product-zero_left a

-- By the lowest digit of the second factor.
pub product_step : (a b : ℕ) → a ⊗ b ≡ sel (b % 2) a ⊕ 2 * (a ⊗ (b / 2))
unfolding clmul_digits
product_step a b =
    sym (digits-eq-product (suc b) a b (omega (arith, lt-two_pow b, pow-succ' 2 b)))
    ∙ ap (λ t. sel (b % 2) a ⊕ 2 * t) (digits-eq-product b a (b / 2) (omega (arith, lt-two_pow b)))

product-sel : (d a b : ℕ) → d < 2 → a ⊗ sel d b ≡ sel d (a ⊗ b)
product-sel zero a b h = product-zero_right a
product-sel (suc zero) a b h = refl
product-sel (suc (suc d)) a b h = absurd (omega arith)

assoc_fuel : (n a b c : ℕ) → c ≤ n → a ⊗ b ⊗ c ≡ a ⊗ (b ⊗ c)
assoc_fuel zero a b c h =
    let e : c ≡ 0 = omega arith in
    ap (λ t. a ⊗ b ⊗ t) e
    ∙ product-zero_right (a ⊗ b)
    ∙ sym (ap (λ t. a ⊗ (b ⊗ t)) e ∙ ap (◌⊗◌ a) (product-zero_right b) ∙ product-zero_right a)
assoc_fuel (suc n) a b c h =
    let d = c % 2 in
    product_step (a ⊗ b) c
    ∙ ap₂ (λ s t. s ⊕ 2 * t) (sym (product-sel d a b (omega arith)))
        (assoc_fuel n a b (c / 2) (omega arith))
    ∙ ap (◌⊕◌ (a ⊗ sel d b)) (sym (product-double_right a (b ⊗ (c / 2))))
    ∙ sym (product-xor_right a (sel d b) (2 * (b ⊗ (c / 2))))
    ∙ ap (◌⊗◌ a) (sym (product_step b c))

pub product_assoc : (a b c : ℕ) → a ⊗ b ⊗ c ≡ a ⊗ (b ⊗ c)
product_assoc a b c = assoc_fuel c a b c (omega arith)
