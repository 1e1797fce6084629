-- ===== src/Poly/Sum.antt =====
-- Sums of polynomials: `^` is associative, and a decision for equations between sums.
use Prim.Native.Nat.{differ}
use hardware_rust_crypto.Prelude.{
  ℕ, zero, suc, ◌+◌, ◌/◌, ◌%◌, ◌≤◌, ◌<◌, ◌≡◌, refl, sym, ap, ap₂, ◌∙◌, Bool, true, false, List, [],
  ◌∷◌, length, get_or, bit_xor, bit_xor_step, bit_xor_half, bit_xor_comm, bit_xor_cancel,
  zero-bit_xor, if◌then◌else◌, arith,
}

infixl 62 ◌⊕◌
abbrev pub ◌⊕◌ : ℕ → ℕ → ℕ
a ⊕ b = bit_xor a b

differ_assoc_bits :
    (a b c : ℕ) → a < 2 → b < 2 → c < 2 → differ (differ a b) c ≡ differ a (differ b c)
differ_assoc_bits zero zero zero p q r = refl
differ_assoc_bits zero zero (suc zero) p q r = refl
differ_assoc_bits zero (suc zero) zero p q r = refl
differ_assoc_bits zero (suc zero) (suc zero) p q r = refl
differ_assoc_bits (suc zero) zero zero p q r = refl
differ_assoc_bits (suc zero) zero (suc zero) p q r = refl
differ_assoc_bits (suc zero) (suc zero) zero p q r = refl
differ_assoc_bits (suc zero) (suc zero) (suc zero) p q r = refl
differ_assoc_bits (suc (suc a)) b c p q r = absurd (omega arith)
differ_assoc_bits a (suc (suc b)) c p q r = absurd (omega arith)
differ_assoc_bits a b (suc (suc c)) p q r = absurd (omega arith)

assoc_fuel : (n a b c : ℕ) → a ≤ n → b ≤ n → c ≤ n → a ⊕ b ⊕ c ≡ a ⊕ (b ⊕ c)
assoc_fuel zero zero zero zero p q r = refl
assoc_fuel zero (suc a) b c p q r = absurd (omega arith)
assoc_fuel zero a (suc b) c p q r = absurd (omega arith)
assoc_fuel zero a b (suc c) p q r = absurd (omega arith)
assoc_fuel (suc n) a b c p q r = omega (
  arith,
  bit_xor_step (a ⊕ b) c,
  ap (λ t. bit_xor t (c / 2)) (bit_xor_half a b).0,
  ap (λ t. differ t (c % 2)) (bit_xor_half a b).1,
  bit_xor_step a (b ⊕ c),
  ap (bit_xor (a / 2)) (bit_xor_half b c).0,
  ap (differ (a % 2)) (bit_xor_half b c).1,
  differ_assoc_bits (a % 2) (b % 2) (c % 2) (omega arith) (omega arith) (omega arith),
  assoc_fuel n (a / 2) (b / 2) (c / 2) (omega arith) (omega arith) (omega arith),
)

pub xor_assoc : (a b c : ℕ) → a ⊕ b ⊕ c ≡ a ⊕ (b ⊕ c)
xor_assoc a b c = assoc_fuel (a + b + c) a b c (omega arith) (omega arith) (omega arith)

pub xor-zero : (a : ℕ) → a ⊕ 0 ≡ a
xor-zero a = bit_xor_comm a 0 ∙ zero-bit_xor a

pub xor_self : (a : ℕ) → a ⊕ a ≡ 0
xor_self a = ap (λ t. t ⊕ a) (sym (zero-bit_xor a)) ∙ bit_xor_cancel 0 a

pub xor_swap : (a b c d : ℕ) → (a ⊕ b) ⊕ (c ⊕ d) ≡ (a ⊕ c) ⊕ (b ⊕ d)
xor_swap a b c d =
    xor_assoc a b (c ⊕ d)
    ∙ ap (◌⊕◌ a) (sym (xor_assoc b c d) ∙ ap (λ t. t ⊕ d) (bit_xor_comm b c) ∙ xor_assoc c b d)
    ∙ sym (xor_assoc a c (b ⊕ d))

-- A sum of atoms, by their places in a list.
infixl 62 ◌⊞◌
pub data Sum : Type 0 where
  nil : Sum
  at : ℕ → Sum
  ◌⊞◌ : Sum → Sum → Sum

abbrev pub value : Sum → List ℕ → ℕ
value nil env = 0
value (at i) env = get_or env i 0
value (a ⊞ b) env = value a env ⊕ value b env

-- Which atoms stand an odd number of times in a sum.
abbrev either : Bool → Bool → Bool
either true true = false
either true false = true
either false b = b

abbrev zip : List Bool → List Bool → List Bool
zip [] cs = []
zip (b ∷ bs) [] = []
zip (b ∷ bs) (c ∷ cs) = either b c ∷ zip bs cs

abbrev none_of : ℕ → List Bool
none_of zero = []
none_of (suc n) = false ∷ none_of n

abbrev only : ℕ → ℕ → List Bool
only zero i = []
only (suc n) zero = true ∷ none_of n
only (suc n) (suc i) = false ∷ only n i

abbrev pub odd : ℕ → Sum → List Bool
odd n nil = none_of n
odd n (at i) = only n i
odd n (a ⊞ b) = zip (odd n a) (odd n b)

abbrev total : List Bool → List ℕ → ℕ
total [] env = 0
total (b ∷ bs) [] = 0
total (b ∷ bs) (x ∷ env) = (if b then x else 0) ⊕ total bs env

total-none_of : (env : List ℕ) → total (none_of (length env)) env ≡ 0
total-none_of [] = refl
total-none_of (x ∷ env) = zero-bit_xor _ ∙ total-none_of env

total-only : (env : List ℕ) (i : ℕ) → total (only (length env) i) env ≡ get_or env i 0
total-only [] i = refl
total-only (x ∷ env) zero = ap (◌⊕◌ x) (total-none_of env) ∙ xor-zero x
total-only (x ∷ env) (suc i) = zero-bit_xor _ ∙ total-only env i

either_lem :
    (b c : Bool) (x : ℕ)
    → (if either b c then x else 0) ≡ (if b then x else 0) ⊕ (if c then x else 0)
either_lem true true x = sym (xor_self x)
either_lem true false x = sym (xor-zero x)
either_lem false c x = sym (zero-bit_xor _)

abbrev SameLength : List Bool → List Bool → Type 0
SameLength bs cs = length bs ≡ length cs

total-zip :
    (bs cs : List Bool) (env : List ℕ)
    → length bs ≡ length cs
    → total (zip bs cs) env ≡ total bs env ⊕ total cs env
total-zip [] [] env e = refl
total-zip [] (c ∷ cs) env e = absurd (omega arith)
total-zip (b ∷ bs) [] env e = absurd (omega arith)
total-zip (b ∷ bs) (c ∷ cs) [] e = refl
total-zip (b ∷ bs) (c ∷ cs) (x ∷ env) e =
    ap₂ ◌⊕◌ (either_lem b c x) (total-zip bs cs env (omega arith))
    ∙ xor_swap (if b then x else 0) (if c then x else 0) (total bs env) (total cs env)

length-none_of : (n : ℕ) → length (none_of n) ≡ n
length-none_of zero = refl
length-none_of (suc n) = ap suc (length-none_of n)

length-only : (n i : ℕ) → length (only n i) ≡ n
length-only zero i = refl
length-only (suc n) zero = ap suc (length-none_of n)
length-only (suc n) (suc i) = ap suc (length-only n i)

length-zip : (bs cs : List Bool) → length bs ≡ length cs → length (zip bs cs) ≡ length bs
length-zip [] cs e = refl
length-zip (b ∷ bs) [] e = absurd (omega arith)
length-zip (b ∷ bs) (c ∷ cs) e = ap suc (length-zip bs cs (omega arith))

length-odd : (n : ℕ) (s : Sum) → length (odd n s) ≡ n
length-odd n nil = length-none_of n
length-odd n (at i) = length-only n i
length-odd n (a ⊞ b) =
    length-zip (odd n a) (odd n b) (length-odd n a ∙ sym (length-odd n b)) ∙ length-odd n a

value-odd : (s : Sum) (env : List ℕ) → value s env ≡ total (odd (length env) s) env
value-odd nil env = sym (total-none_of env)
value-odd (at i) env = sym (total-only env i)
value-odd (a ⊞ b) env =
    ap₂ ◌⊕◌ (value-odd a env) (value-odd b env)
    ∙ sym (
        total-zip (odd (length env) a) (odd (length env) b) env
          (length-odd (length env) a ∙ sym (length-odd (length env) b)))

-- Two sums with the same odd atoms are equal.
pub sums_agree :
    (s t : Sum) (env : List ℕ) → odd (length env) s ≡ odd (length env) t → value s env ≡ value t env
sums_agree s t env e = value-odd s env ∙ ap (λ bs. total bs env) e ∙ sym (value-odd t env)
