-- ===== src/Ghash/Backend/Folding.antt =====
-- Folding of a 64-bit word, as `reduce` of src/aes_gcm/ghash.rs does it: what it adds to the words
-- above is a multiple of the modulus.
use hardware_rust_crypto.Prelude.{
  ℕ, ◌*◌, ◌/◌, ◌%◌, ◌^◌, ◌<◌, ◌≡◌, refl, sym, ap, ap₂, ◌∙◌, [], ◌∷◌, arith,
}
use hardware_rust_crypto.Poly.Sum.{◌⊕◌, nil, at, ◌⊞◌, sums_agree}
use hardware_rust_crypto.Poly.Product.{◌⊗◌, product-xor_left, product-xor_right}
use hardware_rust_crypto.Poly.Degree.{
  shift-xor, product-shift_left, product-shift_right, product-one, xor-lt_pow,
}
use hardware_rust_crypto.Poly.Montgomery.{modulus}
use hardware_rust_crypto.Ghash.Backend.{xor4, xor5}
use hardware_rust_crypto.Ghash.Backend.Words.{rejoin}

-- What a fold of the word `v` puts into the word `u` above it, and into the one above that.
abbrev pub left : ℕ → ℕ → ℕ
left v u = xor4 u (v * 2 ^ 63 % 2 ^ 64) (v * 2 ^ 62 % 2 ^ 64) (v * 2 ^ 57 % 2 ^ 64)

abbrev pub right : ℕ → ℕ → ℕ
right v u = xor5 u v (v / 2 ^ 1) (v / 2 ^ 2) (v / 2 ^ 7)

-- Four words as one polynomial.
abbrev pub spread : ℕ → ℕ → ℕ → ℕ → ℕ
spread a b c d = a ⊕ 2 ^ 64 * b ⊕ (2 ^ 128 * c ⊕ 2 ^ 192 * d)

pub spread-xor :
    (a b c d e f g h : ℕ) → spread a b c d ⊕ spread e f g h ≡ spread (a ⊕ e) (b ⊕ f) (c ⊕ g) (d ⊕ h)
spread-xor a b c d e f g h =
    sums_agree (at 0 ⊞ at 1 ⊞ (at 2 ⊞ at 3) ⊞ (at 4 ⊞ at 5 ⊞ (at 6 ⊞ at 7)))
      (at 0 ⊞ at 4 ⊞ (at 1 ⊞ at 5) ⊞ (at 2 ⊞ at 6 ⊞ (at 3 ⊞ at 7)))
      (a ∷ 2 ^ 64 * b ∷ 2 ^ 128 * c ∷ 2 ^ 192 * d ∷ e ∷ 2 ^ 64 * f ∷ 2 ^ 128 * g ∷ 2 ^ 192 * h ∷ [])
      refl
    ∙ sym (
        ap₂ (λ s t. a ⊕ e ⊕ s ⊕ t) (shift-xor 64 b f)
          (ap₂ ◌⊕◌ (shift-xor 128 c g) (shift-xor 192 d h)))

-- A shifted word in two parts.
cut_shift :
    (v k : ℕ)
    → 2 ^ 64 * (v * 2 ^ k % 2 ^ 64) ⊕ 2 ^ 128 * (v * 2 ^ k / 2 ^ 64) ≡ 2 ^ 64 * (v * 2 ^ k)
cut_shift v k =
    let y = v * 2 ^ k in
    let e : 2 ^ 128 * (y / 2 ^ 64) ≡ 2 ^ 64 * (2 ^ 64 * (y / 2 ^ 64)) = omega arith in
    ap (◌⊕◌ (2 ^ 64 * (y % 2 ^ 64))) e
    ∙ sym (shift-xor 64 (y % 2 ^ 64) (2 ^ 64 * (y / 2 ^ 64)))
    ∙ ap (◌*◌ (2 ^ 64)) (rejoin y)

-- A word times a power of x.
times_power : (v k : ℕ) → v ⊗ (2 ^ k * 1) ≡ 2 ^ k * v
times_power v k = product-shift_right k v 1 ∙ ap (◌*◌ (2 ^ k)) (product-one v)

pub shift4 :
    (k a b c d : ℕ) → 2 ^ k * (a ⊕ b ⊕ (c ⊕ d)) ≡ 2 ^ k * a ⊕ 2 ^ k * b ⊕ (2 ^ k * c ⊕ 2 ^ k * d)
shift4 k a b c d = shift-xor k (a ⊕ b) (c ⊕ d) ∙ ap₂ ◌⊕◌ (shift-xor k a b) (shift-xor k c d)

-- A word times the modulus.
pub multiple : (v : ℕ) → v < 2 ^ 64 → v ⊗ modulus ≡ spread v (left v 0) (right v 0) 0
multiple v h =
    let tail = 2 ^ 121 * 1 ⊕ 1 in
    let low = 2 ^ 126 * 1 ⊕ tail in
    let high = 2 ^ 127 * 1 ⊕ low in
    let b = λ (k : ℕ). 2 ^ 64 * (v * 2 ^ k % 2 ^ 64) in
    let c = λ (k : ℕ). 2 ^ 128 * (v / 2 ^ k) in
    let cut : (k j n : ℕ)
        → v * 2 ^ k / 2 ^ 64 ≡ v / 2 ^ j
        → 2 ^ 64 * (v * 2 ^ k) ≡ 2 ^ n * v
        → 2 ^ n * v ≡ b k ⊕ c j =
      λ k j n e f. sym f ∙ sym (cut_shift v k) ∙ ap (λ t. b k ⊕ 2 ^ 128 * t) e in
    product-xor_right v (2 ^ 128 * 1) high
    ∙ ap₂ ◌⊕◌ (times_power v 128) (
        product-xor_right v (2 ^ 127 * 1) low
        ∙ ap₂ ◌⊕◌ (times_power v 127 ∙ cut 63 1 127 (omega arith) (omega arith)) (
            product-xor_right v (2 ^ 126 * 1) tail
            ∙ ap₂ ◌⊕◌ (times_power v 126 ∙ cut 62 2 126 (omega arith) (omega arith)) (
                product-xor_right v (2 ^ 121 * 1) 1
                ∙ ap₂ ◌⊕◌ (times_power v 121 ∙ cut 57 7 121 (omega arith) (omega arith))
                    (product-one v))))
    ∙ sums_agree (at 1 ⊞ (at 2 ⊞ at 3 ⊞ (at 4 ⊞ at 5 ⊞ (at 6 ⊞ at 7 ⊞ at 0))))
        (at 0 ⊞ (nil ⊞ at 2 ⊞ (at 4 ⊞ at 6)) ⊞ (nil ⊞ (at 1 ⊞ at 3 ⊞ (at 5 ⊞ at 7)) ⊞ nil))
        (v ∷ 2 ^ 128 * v ∷ b 63 ∷ c 1 ∷ b 62 ∷ c 2 ∷ b 57 ∷ c 7 ∷ []) refl
    ∙ sym (
        ap₂ (λ s t. v ⊕ s ⊕ (t ⊕ 0))
          (shift4 64 0 (v * 2 ^ 63 % 2 ^ 64) (v * 2 ^ 62 % 2 ^ 64) (v * 2 ^ 57 % 2 ^ 64))
          (shift-xor 128 0 (v ⊕ v / 2 ^ 1 ⊕ (v / 2 ^ 2 ⊕ v / 2 ^ 7))
            ∙ ap (◌⊕◌ 0) (shift4 128 v (v / 2 ^ 1) (v / 2 ^ 2) (v / 2 ^ 7))))

xor4-lt : (a b c d : ℕ) → a < 2 ^ 64 → b < 2 ^ 64 → c < 2 ^ 64 → d < 2 ^ 64 → xor4 a b c d < 2 ^ 64
xor4-lt a b c d p q r s =
    xor-lt_pow 64 (a ⊕ b) (c ⊕ d) (xor-lt_pow 64 a b p q) (xor-lt_pow 64 c d r s)

pub left-lt : (v u : ℕ) → u < 2 ^ 64 → left v u < 2 ^ 64
left-lt v u h =
    xor4-lt u (v * 2 ^ 63 % 2 ^ 64) (v * 2 ^ 62 % 2 ^ 64) (v * 2 ^ 57 % 2 ^ 64) h (omega arith)
      (omega arith) (omega arith)

pub right-lt : (v u : ℕ) → v < 2 ^ 64 → u < 2 ^ 64 → right v u < 2 ^ 64
right-lt v u h k =
    xor-lt_pow 64 u (xor4 v (v / 2 ^ 1) (v / 2 ^ 2) (v / 2 ^ 7)) k
      (xor4-lt v (v / 2 ^ 1) (v / 2 ^ 2) (v / 2 ^ 7) h (omega arith) (omega arith) (omega arith))

-- The folds change the word above by what they add to zero.
pub left-zero : (v u : ℕ) → left v u ≡ u ⊕ left v 0
left-zero v u =
    sums_agree (at 0 ⊞ at 1 ⊞ (at 2 ⊞ at 3)) (at 0 ⊞ (nil ⊞ at 1 ⊞ (at 2 ⊞ at 3)))
      (u ∷ v * 2 ^ 63 % 2 ^ 64 ∷ v * 2 ^ 62 % 2 ^ 64 ∷ v * 2 ^ 57 % 2 ^ 64 ∷ []) refl

pub right-zero : (v u : ℕ) → right v u ≡ u ⊕ right v 0
right-zero v u =
    sums_agree (at 0 ⊞ at 1) (at 0 ⊞ (nil ⊞ at 1))
      (u ∷ xor4 v (v / 2 ^ 1) (v / 2 ^ 2) (v / 2 ^ 7) ∷ []) refl

-- One word up.
pub spread-up : (a b c : ℕ) → 2 ^ 64 * spread a b c 0 ≡ spread 0 a b c
spread-up a b c =
    let e : 2 ^ 64 * (2 ^ 64 * b) ≡ 2 ^ 128 * b = omega arith in
    let f : 2 ^ 64 * (2 ^ 128 * c) ≡ 2 ^ 192 * c = omega arith in
    shift4 64 a (2 ^ 64 * b) (2 ^ 128 * c) 0
    ∙ ap₂ (λ s t. 2 ^ 64 * a ⊕ s ⊕ (t ⊕ 0)) e f
    ∙ sums_agree (at 0 ⊞ at 1 ⊞ (at 2 ⊞ nil)) (nil ⊞ at 0 ⊞ (at 1 ⊞ at 2))
        (2 ^ 64 * a ∷ 2 ^ 128 * b ∷ 2 ^ 192 * c ∷ []) refl

pub spread-eq :
    {a b c d e f g h : ℕ} → a ≡ e → b ≡ f → c ≡ g → d ≡ h → spread a b c d ≡ spread e f g h
spread-eq p q r s = λ i. spread (p i) (q i) (r i) (s i)

-- The two words of a multiple of the modulus.
pub two_multiples :
    (v n : ℕ)
    → v < 2 ^ 64
    → n < 2 ^ 64
    → (v ⊕ 2 ^ 64 * n) ⊗ modulus
      ≡ spread (v ⊕ 0) (left v 0 ⊕ n) (right v 0 ⊕ left n 0) (0 ⊕ right n 0)
two_multiples v n hv hn =
    product-xor_left v (2 ^ 64 * n) modulus
    ∙ ap₂ ◌⊕◌ (multiple v hv) (
        product-shift_left 64 n modulus
        ∙ ap (◌*◌ (2 ^ 64)) (multiple n hn)
        ∙ spread-up n (left n 0) (right n 0))
    ∙ spread-xor v (left v 0) (right v 0) 0 0 n (left n 0) (right n 0)
