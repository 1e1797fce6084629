-- ===== src/Poly/Degree.antt =====
-- The degree of a product, and shifts.
use native.Mathlib.Nat.{
  pow-succ', div-div-eq-div-mul, div-one, div-eq_of_lt, one-le-pow, pow-le-pow_right,
  div-lt_iff_lt-mul,
}
use hardware_rust_crypto.Prelude.{
  ℕ, zero, suc, ◌+◌, ◌*◌, ◌/◌, ◌%◌, ◌^◌, ◌≤◌, ◌<◌, ◌≡◌, refl, sym, ap, ap₂, ◌∙◌, bit_xor,
  bit_xor-div, arith,
}
use hardware_rust_crypto.Poly.Sum.{◌⊕◌, xor-zero}
use hardware_rust_crypto.Poly.Product.{
  ◌⊗◌, sel, double-xor, product_step, product-zero_right, product-double_left, product_comm,
}

-- The leading coefficient stands at `i`.
abbrev pub Lead : ℕ → ℕ → Type 0
Lead i a = a / 2 ^ i ≡ 1

-- Halving lowers the degree.
halve-div : (i a : ℕ) → a / 2 / 2 ^ i ≡ a / 2 ^ suc i
halve-div i a = div-div-eq-div-mul a 2 (2 ^ i) ∙ ap (◌/◌ a) (sym (pow-succ' 2 i))

double-div : (i a : ℕ) → 2 * a / 2 ^ suc i ≡ a / 2 ^ i
double-div i a =
    let e : 2 * a / 2 ≡ a = omega arith in sym (halve-div i (2 * a)) ∙ ap (λ t. t / 2 ^ i) e

Lead-lt : (i a : ℕ) → Lead i a → a < 2 ^ suc i
Lead-lt i a h =
    let pos : 0 < 2 ^ i = omega (arith, one-le-pow i 2 (omega arith)) in
    let two : a / 2 ^ i < 2 = omega (arith, h) in
    omega (arith, (div-lt_iff_lt-mul pos).0 two, pow-succ' 2 i)

-- A sum keeps the leading coefficient of the longer part.
sum-Lead : (m x y : ℕ) → x < 2 ^ m → Lead m y → Lead m (x ⊕ y)
sum-Lead m x y h l = bit_xor-div m x y ∙ ap₂ bit_xor (div-eq_of_lt h) l

sel-le : (d a : ℕ) → d < 2 → sel d a ≤ a
sel-le zero a h = omega arith
sel-le (suc zero) a h = omega arith
sel-le (suc (suc d)) a h = absurd (omega arith)

one_of_Lead : (b : ℕ) → Lead 0 b → b ≡ 1
one_of_Lead b h = sym (div-one b) ∙ h

pub product-one : (a : ℕ) → a ⊗ 1 ≡ a
product-one a = product_step a 1 ∙ ap (λ t. a ⊕ 2 * t) (product-zero_right a) ∙ xor-zero a

-- Degrees add.
pub product-Lead : (j i k a b : ℕ) → i + j ≡ k → Lead i a → Lead j b → Lead k (a ⊗ b)
product-Lead zero i k a b e la lb =
    let e₁ : k ≡ i = omega arith in
    ap (λ t. (a ⊗ t) / 2 ^ k) (one_of_Lead b lb)
    ∙ ap (λ t. t / 2 ^ k) (product-one a)
    ∙ ap (λ t. a / 2 ^ t) e₁
    ∙ la
product-Lead (suc j) i zero a b e la lb = absurd (omega arith)
product-Lead (suc j) i (suc k) a b e la lb =
    let ih = product-Lead j i k a (b / 2) (omega arith) la (halve-div j b ∙ lb) in
    let wide : 2 ^ suc i ≤ 2 ^ suc k = pow-le-pow_right (omega arith) (omega arith) in
    let small : sel (b % 2) a < 2 ^ suc k =
      omega (arith, sel-le (b % 2) a (omega arith), Lead-lt i a la, wide) in
    ap (λ t. t / 2 ^ suc k) (product_step a b)
    ∙ sum-Lead (suc k) (sel (b % 2) a) (2 * (a ⊗ (b / 2))) small (double-div k (a ⊗ (b / 2)) ∙ ih)

Lead-fuel : (n a : ℕ) → 1 ≤ a → a ≤ n → (i : ℕ) × Lead i a
Lead-fuel zero a p h = absurd (omega arith)
Lead-fuel (suc n) zero p h = absurd (omega arith)
Lead-fuel (suc n) (suc zero) p h = (0, div-one 1)
Lead-fuel (suc n) (suc (suc a)) p h =
    let r = Lead-fuel n (suc (suc a) / 2) (omega arith) (omega arith) in
    (suc r.0, sym (halve-div r.0 (suc (suc a))) ∙ r.1)

-- A multiple of a polynomial that is shorter than it is zero.
pub short_multiple : (n q p : ℕ) → Lead n p → q ⊗ p < 2 ^ n → q ≡ 0
short_multiple n zero p l h = refl
short_multiple n (suc q) p l h =
    let r = Lead-fuel (suc q) (suc q) (omega arith) (omega arith) in
    let top = product-Lead n r.0 (r.0 + n) (suc q) p refl r.1 l in
    let grows : 2 ^ n ≤ 2 ^ (r.0 + n) = pow-le-pow_right (omega arith) (omega arith) in
    let none_there : (suc q ⊗ p) / 2 ^ (r.0 + n) ≡ 0 = div-eq_of_lt (omega (arith, h, grows)) in
    absurd (omega (arith, top, none_there))

-- Shifts.
pub shift_suc_lem : (k c : ℕ) → 2 ^ suc k * c ≡ 2 * (2 ^ k * c)
shift_suc_lem k c = grind (arith, pow-succ' 2 k)

pub shift-xor : (k x y : ℕ) → 2 ^ k * (x ⊕ y) ≡ 2 ^ k * x ⊕ 2 ^ k * y
shift-xor zero x y =
    let e : (c : ℕ) → c ≡ 2 ^ zero * c = λ c. omega arith in sym (e (x ⊕ y)) ∙ ap₂ ◌⊕◌ (e x) (e y)
shift-xor (suc k) x y =
    let e : (c : ℕ) → 2 ^ suc k * c ≡ 2 * (2 ^ k * c) = λ c. shift_suc_lem k c in
    e (x ⊕ y)
    ∙ ap (◌*◌ 2) (shift-xor k x y)
    ∙ double-xor (2 ^ k * x) (2 ^ k * y)
    ∙ ap₂ ◌⊕◌ (sym (e x)) (sym (e y))

pub product-shift_left : (k a b : ℕ) → (2 ^ k * a) ⊗ b ≡ 2 ^ k * (a ⊗ b)
product-shift_left zero a b =
    let e : (c : ℕ) → 2 ^ zero * c ≡ c = λ c. omega arith in ap (λ t. t ⊗ b) (e a) ∙ sym (e (a ⊗ b))
product-shift_left (suc k) a b =
    ap (λ t. t ⊗ b) (shift_suc_lem k a)
    ∙ product-double_left (2 ^ k * a) b
    ∙ ap (◌*◌ 2) (product-shift_left k a b)
    ∙ sym (shift_suc_lem k (a ⊗ b))

pub product-shift_right : (k a b : ℕ) → a ⊗ (2 ^ k * b) ≡ 2 ^ k * (a ⊗ b)
product-shift_right k a b =
    product_comm a (2 ^ k * b) ∙ product-shift_left k b a ∙ ap (◌*◌ (2 ^ k)) (product_comm b a)

pub xor-lt_pow : (k u v : ℕ) → u < 2 ^ k → v < 2 ^ k → u ⊕ v < 2 ^ k
xor-lt_pow k u v h l =
    let e : (u ⊕ v) / 2 ^ k ≡ 0 =
      bit_xor-div k u v ∙ ap₂ bit_xor (div-eq_of_lt h) (div-eq_of_lt l) in
    let pos : 0 < 2 ^ k = omega (arith, one-le-pow k 2 (omega arith)) in
    let one : (u ⊕ v) / 2 ^ k < 1 = omega (arith, e) in omega (arith, (div-lt_iff_lt-mul pos).0 one)

pub product-lt : (n m k a b : ℕ) → m + n ≡ k → a < 2 ^ m → b < 2 ^ n → a ⊗ b < 2 ^ k
product-lt zero m k a b e ha hb =
    let z : b ≡ 0 = omega arith in
    let pos = one-le-pow k 2 (omega arith) in
    let f : a ⊗ b ≡ 0 = ap (◌⊗◌ a) z ∙ product-zero_right a in omega (arith, f, pos)
product-lt (suc n) m zero a b e ha hb = absurd (omega arith)
product-lt (suc n) m (suc k) a b e ha hb =
    let ih = product-lt n m k a (b / 2) (omega arith) ha (omega (arith, hb, pow-succ' 2 n)) in
    let wide : 2 ^ m ≤ 2 ^ suc k = pow-le-pow_right (omega arith) (omega arith) in
    let f = product_step a b in
    let bound =
      xor-lt_pow (suc k) (sel (b % 2) a) (2 * (a ⊗ (b / 2)))
        (omega (arith, sel-le (b % 2) a (omega arith), ha, wide))
        (omega (arith, ih, pow-succ' 2 k)) in
    omega (arith, f, bound)
