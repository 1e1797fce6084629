-- ===== src/Prelude/Xor.antt =====
-- `^` on unsigned integers: the law of the lowest digit, and what follows from it.
use Prim.Native.Nat.{
  ℕ, zero, suc, ◌+◌, ◌*◌, ◌/◌, ◌%◌, ◌^◌, ◌≤◌, ◌<◌, bit_xor, digits, differ, bit_xor-bitwise,
}
use mathlib.Core.Path.{◌≡◌, refl, sym, ap, ap₂, ◌∙◌}
use native.Mathlib.Nat.{
  pow-succ', one-le-pow, mod-one, div-one, div-div-eq-div-mul, add-mul-mod_self_right, mod-eq_of_lt,
  mod-lt, div-add-mod,
}
use native.Mathlib.Omega.{arith}

abbrev xor_digits : ℕ → ℕ → ℕ → ℕ
xor_digits n a b = digits (λ b. b) differ n a b

xor_digits_fuel : (n m a b : ℕ) → a ≤ n → a ≤ m → xor_digits n a b ≡ xor_digits m a b
xor_digits_fuel zero zero a b p q = refl
xor_digits_fuel zero (suc m) zero b p q = refl
xor_digits_fuel zero (suc m) (suc a) b p q = absurd (omega arith)
xor_digits_fuel (suc n) zero zero b p q = refl
xor_digits_fuel (suc n) zero (suc a) b p q = absurd (omega arith)
xor_digits_fuel (suc n) (suc m) zero b p q = refl
xor_digits_fuel (suc n) (suc m) (suc a) b p q =
    omega (arith, xor_digits_fuel n m (suc a / 2) (b / 2) (omega arith) (omega arith))

pub zero-bit_xor : (b : ℕ) → bit_xor 0 b ≡ b
zero-bit_xor b = bit_xor-bitwise 0 b

differ-zero_left : (b : ℕ) → differ 0 b ≡ b
differ-zero_left b = refl

pub bit_xor_step : (a b : ℕ) → bit_xor a b ≡ bit_xor (a / 2) (b / 2) * 2 + differ (a % 2) (b % 2)
bit_xor_step zero b = omega (arith, zero-bit_xor b, zero-bit_xor (b / 2), differ-zero_left (b % 2))
bit_xor_step (suc a) b = omega (
  arith,
  bit_xor-bitwise (suc a) b,
  bit_xor-bitwise (suc a / 2) (b / 2),
  xor_digits_fuel a (suc a / 2) (suc a / 2) (b / 2) (omega arith) (omega arith),
)

-- The digit operation, on the digits 0 and 1.
differ_digits :
    (a b : ℕ)
    → a < 2
    → b < 2
    → (differ a b < 2) × (differ (differ a b) b ≡ a) × (differ a b ≡ differ b a)
differ_digits zero zero p q = omega arith
differ_digits zero (suc zero) p q = omega arith
differ_digits (suc zero) zero p q = omega arith
differ_digits (suc zero) (suc zero) p q = omega arith
differ_digits zero (suc (suc b)) p q = absurd (omega arith)
differ_digits (suc zero) (suc (suc b)) p q = absurd (omega arith)
differ_digits (suc (suc a)) b p q = absurd (omega arith)

abbrev lows :
    (a b : ℕ)
    → (differ (a % 2) (b % 2) < 2)
      × (differ (differ (a % 2) (b % 2)) (b % 2) ≡ a % 2)
      × (differ (a % 2) (b % 2) ≡ differ (b % 2) (a % 2))
lows a b = differ_digits (a % 2) (b % 2) (omega arith) (omega arith)

-- The halves and the lowest digit of a result.
pub bit_xor_half :
    (a b : ℕ)
    → (bit_xor a b / 2 ≡ bit_xor (a / 2) (b / 2)) × (bit_xor a b % 2 ≡ differ (a % 2) (b % 2))
bit_xor_half a b = omega (arith, bit_xor_step a b, lows a b)

-- A second `^` with the same operand undoes the first.
cancel_fuel : (n a b : ℕ) → a ≤ n → b ≤ n → bit_xor (bit_xor a b) b ≡ a
cancel_fuel n zero zero p q = refl
cancel_fuel zero zero (suc b) p q = absurd (omega arith)
cancel_fuel zero (suc a) b p q = absurd (omega arith)
cancel_fuel (suc n) (suc a) b p q = omega (
  arith,
  bit_xor_step (bit_xor (suc a) b) b,
  ap (λ t. bit_xor t (b / 2)) (bit_xor_half (suc a) b).0,
  ap (λ t. differ t (b % 2)) (bit_xor_half (suc a) b).1,
  lows (suc a) b,
  cancel_fuel n (suc a / 2) (b / 2) (omega arith) (omega arith),
)
cancel_fuel (suc n) zero (suc b) p q = omega (
  arith,
  bit_xor_step (bit_xor zero (suc b)) (suc b),
  ap (λ t. bit_xor t (suc b / 2)) (bit_xor_half zero (suc b)).0,
  ap (λ t. differ t (suc b % 2)) (bit_xor_half zero (suc b)).1,
  lows zero (suc b),
  cancel_fuel n (zero / 2) (suc b / 2) (omega arith) (omega arith),
)

pub bit_xor_cancel : (a b : ℕ) → bit_xor (bit_xor a b) b ≡ a
bit_xor_cancel a b = cancel_fuel (a + b) a b (omega arith) (omega arith)

comm_fuel : (n a b : ℕ) → a ≤ n → b ≤ n → bit_xor a b ≡ bit_xor b a
comm_fuel zero zero zero p q = refl
comm_fuel zero zero (suc b) p q = absurd (omega arith)
comm_fuel zero (suc a) b p q = absurd (omega arith)
comm_fuel (suc n) a b p q = omega (
  arith,
  bit_xor_step a b,
  bit_xor_step b a,
  lows a b,
  comm_fuel n (a / 2) (b / 2) (omega arith) (omega arith),
)

pub bit_xor_comm : (a b : ℕ) → bit_xor a b ≡ bit_xor b a
bit_xor_comm a b = comm_fuel (a + b) a b (omega arith) (omega arith)

-- `x = 2 y + d`, cut to one more digit.
mod_double : (m x y d : ℕ) → 1 ≤ m → d < 2 → x ≡ y * 2 + d → x % (2 * m) ≡ (y % m) * 2 + d
mod_double m x y d p q e =
    ap (λ t. t % (2 * m)) split
    ∙ add-mul-mod_self_right (y % m * 2 + d) (y / m) (2 * m)
    ∙ mod-eq_of_lt small
  where
    split : x ≡ y % m * 2 + d + y / m * (2 * m)
    split = grind (arith, div-add-mod y m)

    small : y % m * 2 + d < 2 * m
    small = omega (arith, mod-lt y p)

-- Cut to one digit more: the lower half of the digits is cut, the lowest stays.
cut_digit : (m a : ℕ) → 1 ≤ m → ((a % (2 * m)) / 2 ≡ (a / 2) % m) × ((a % (2 * m)) % 2 ≡ a % 2)
cut_digit m a p = omega (arith, mod_double m a (a / 2) (a % 2) p (omega arith) (omega arith))

xor_cut :
    (m a b : ℕ)
    → 1 ≤ m
    → bit_xor (a / 2) (b / 2) % m ≡ bit_xor ((a / 2) % m) ((b / 2) % m)
    → bit_xor a b % (2 * m) ≡ bit_xor (a % (2 * m)) (b % (2 * m))
xor_cut m a b p ih = omega (
  arith,
  mod_double m (bit_xor a b) (bit_xor (a / 2) (b / 2)) (differ (a % 2) (b % 2)) p (lows a b).0
      (bit_xor_step a b),
  bit_xor_step (a % (2 * m)) (b % (2 * m)),
  ap₂ bit_xor (cut_digit m a p).0 (cut_digit m b p).0,
  ap₂ differ (cut_digit m a p).1 (cut_digit m b p).1,
  ih,
)

-- The low `k` digits of a result come from the low digits of the operands.
pub bit_xor-mod : (k a b : ℕ) → bit_xor a b % 2 ^ k ≡ bit_xor (a % 2 ^ k) (b % 2 ^ k)
bit_xor-mod zero a b =
    let e : (c : ℕ) → c % 2 ^ zero ≡ 0 = λ c. mod-one c in
    e (bit_xor a b) ∙ ap₂ bit_xor (sym (e a)) (sym (e b))
bit_xor-mod (suc k) a b =
    rw (pow-succ' 2 k)
      (xor_cut (2 ^ k) a b (one-le-pow k 2 (omega arith)) (bit_xor-mod k (a / 2) (b / 2)))

-- Shifting right goes through.
pub bit_xor-div : (k a b : ℕ) → bit_xor a b / 2 ^ k ≡ bit_xor (a / 2 ^ k) (b / 2 ^ k)
bit_xor-div zero a b = div-one (bit_xor a b) ∙ ap₂ bit_xor (sym (div-one a)) (sym (div-one b))
bit_xor-div (suc k) a b =
    let halve : (c : ℕ) → c / 2 / 2 ^ k ≡ c / 2 ^ suc k =
      λ c. div-div-eq-div-mul c 2 (2 ^ k) ∙ ap (λ t. c / t) (sym (pow-succ' 2 k)) in
    sym (halve (bit_xor a b))
    ∙ ap (λ t. t / 2 ^ k) (bit_xor_half a b).0
    ∙ bit_xor-div k (a / 2) (b / 2)
    ∙ ap₂ bit_xor (halve a) (halve b)
