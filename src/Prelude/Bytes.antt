-- ===== src/Prelude/Bytes.antt =====
-- Byte strings and the integers that they spell: `from_le_bytes`, `to_le_bytes`, `from_be_bytes`,
-- `to_be_bytes`, and the byte loop `for (byte, key) in data.iter_mut().zip(keys) { *byte ^= key }`.
use Prim.Native.Nat.{ℕ, zero, suc, ◌+◌, ◌*◌, ◌/◌, ◌%◌, ◌^◌, ◌<◌, bit_xor}
use mathlib.Core.Path.{◌≡◌, refl, sym, ap, ap₂, ◌∙◌}
use mathlib.Core.List.{List, [], ◌∷◌, ◌++◌, reverse, reverse-reverse, reverse-cons}
use native.Mathlib.Nat.{pow-succ', mod-eq_of_lt}
use native.Mathlib.Omega.{arith}
use hardware_rust_crypto.Prelude.Lists.{length, take, drop, replicate, length-reverse}
use hardware_rust_crypto.Prelude.Xor.{bit_xor_cancel, bit_xor_comm, bit_xor-mod, bit_xor-div}

bit_xor_byte : (a b : ℕ) → a < 256 → b < 256 → bit_xor a b < 256
bit_xor_byte a b p q =
    let e : bit_xor a b ≡ bit_xor a b % 256 =
      sym (bit_xor-mod 8 a b ∙ ap₂ bit_xor (mod-eq_of_lt p) (mod-eq_of_lt q)) in
    omega arith

abbrev pub IsBytes : List ℕ → Type 0
IsBytes [] = Unit {0}
IsBytes (b ∷ bs) = (b < 256) × IsBytes bs

unfoldable pub from_le_bytes : List ℕ → ℕ
from_le_bytes [] = 0
from_le_bytes (b ∷ bs) = b + 256 * from_le_bytes bs

-- The low `n` bytes of `x`, lowest first.
unfoldable pub to_le_bytes : ℕ → ℕ → List ℕ
to_le_bytes zero x = []
to_le_bytes (suc n) x = (x % 256) ∷ to_le_bytes n (x / 256)

unfoldable pub from_be_bytes : List ℕ → ℕ
unfolding from_le_bytes
from_be_bytes bs = from_le_bytes (reverse bs)

unfoldable pub to_be_bytes : ℕ → ℕ → List ℕ
unfolding to_le_bytes
to_be_bytes n x = reverse (to_le_bytes n x)

-- `data ^= keys`, as far as the keys go.
unfoldable pub xor_bytes : List ℕ → List ℕ → List ℕ
xor_bytes [] ks = []
xor_bytes (d ∷ ds) [] = d ∷ ds
xor_bytes (d ∷ ds) (k ∷ ks) = bit_xor d k ∷ xor_bytes ds ks

pub length-to_le_bytes : (n x : ℕ) → length (to_le_bytes n x) ≡ n
unfolding to_le_bytes
length-to_le_bytes zero x = refl
length-to_le_bytes (suc n) x = ap suc (length-to_le_bytes n (x / 256))

pub length-to_be_bytes : (n x : ℕ) → length (to_be_bytes n x) ≡ n
unfolding to_be_bytes
length-to_be_bytes n x = length-reverse (to_le_bytes n x) ∙ length-to_le_bytes n x

pub to_le_bytes-IsBytes : (n x : ℕ) → IsBytes (to_le_bytes n x)
unfolding to_le_bytes
to_le_bytes-IsBytes zero x = tt
to_le_bytes-IsBytes (suc n) x = (omega arith, to_le_bytes-IsBytes n (x / 256))

pub IsBytes-append : (xs ys : List ℕ) → IsBytes xs → IsBytes ys → IsBytes (xs ++ ys)
IsBytes-append [] ys p q = q
IsBytes-append (x ∷ xs) ys p q = (p.0, IsBytes-append xs ys p.1 q)

pub IsBytes-reverse : (xs : List ℕ) → IsBytes xs → IsBytes (reverse xs)
IsBytes-reverse [] p = tt
IsBytes-reverse (x ∷ xs) p =
    rw (reverse-cons x xs) (IsBytes-append (reverse xs) (x ∷ []) (IsBytes-reverse xs p.1) (p.0, tt))

pub IsBytes-take : (n : ℕ) (xs : List ℕ) → IsBytes xs → IsBytes (take n xs)
IsBytes-take zero xs p = tt
IsBytes-take (suc n) [] p = tt
IsBytes-take (suc n) (x ∷ xs) p = (p.0, IsBytes-take n xs p.1)

pub IsBytes-drop : (n : ℕ) (xs : List ℕ) → IsBytes xs → IsBytes (drop n xs)
IsBytes-drop zero xs p = p
IsBytes-drop (suc n) [] p = tt
IsBytes-drop (suc n) (x ∷ xs) p = IsBytes-drop n xs p.1

pub IsBytes-xor_bytes : (xs ks : List ℕ) → IsBytes xs → IsBytes ks → IsBytes (xor_bytes xs ks)
unfolding xor_bytes
IsBytes-xor_bytes [] ks p q = tt
IsBytes-xor_bytes (x ∷ xs) [] p q = p
IsBytes-xor_bytes (x ∷ xs) (k ∷ ks) p q =
    (bit_xor_byte x k p.0 q.0, IsBytes-xor_bytes xs ks p.1 q.1)

pub IsBytes-replicate : (n : ℕ) → IsBytes (replicate n 0)
IsBytes-replicate zero = tt
IsBytes-replicate (suc n) = (omega arith, IsBytes-replicate n)

-- Reading back what was written, and writing what was read.
pub to_le_bytes-from_le_bytes :
    (n : ℕ) (bs : List ℕ) → length bs ≡ n → IsBytes bs → to_le_bytes n (from_le_bytes bs) ≡ bs
unfolding to_le_bytes from_le_bytes
to_le_bytes-from_le_bytes zero [] e p = refl
to_le_bytes-from_le_bytes zero (b ∷ bs) e p = absurd (omega arith)
to_le_bytes-from_le_bytes (suc n) [] e p = absurd (omega arith)
to_le_bytes-from_le_bytes (suc n) (b ∷ bs) e p =
    let low : (b + 256 * from_le_bytes bs) % 256 ≡ b = omega (arith, p.0) in
    let high : (b + 256 * from_le_bytes bs) / 256 ≡ from_le_bytes bs = omega (arith, p.0) in
    ap₂ ◌∷◌ low (ap (to_le_bytes n) high ∙ to_le_bytes-from_le_bytes n bs (omega arith) p.1)

pub from_le_bytes-to_le_bytes : (n x : ℕ) → x < 256 ^ n → from_le_bytes (to_le_bytes n x) ≡ x
unfolding to_le_bytes from_le_bytes
from_le_bytes-to_le_bytes zero x h = omega arith
from_le_bytes-to_le_bytes (suc n) x h =
    omega (arith, from_le_bytes-to_le_bytes n (x / 256) (omega (arith, pow-succ' 256 n)))

pub from_le_bytes-lt :
    (n : ℕ) (bs : List ℕ) → length bs ≡ n → IsBytes bs → from_le_bytes bs < 256 ^ n
unfolding from_le_bytes
from_le_bytes-lt zero [] e p = omega arith
from_le_bytes-lt zero (b ∷ bs) e p = absurd (omega arith)
from_le_bytes-lt (suc n) [] e p = absurd (omega arith)
from_le_bytes-lt (suc n) (b ∷ bs) e p =
    omega (arith, from_le_bytes-lt n bs (omega arith) p.1, pow-succ' 256 n, p.0)

pub to_be_bytes-from_be_bytes :
    (n : ℕ) (bs : List ℕ) → length bs ≡ n → IsBytes bs → to_be_bytes n (from_be_bytes bs) ≡ bs
unfolding to_be_bytes from_be_bytes
to_be_bytes-from_be_bytes n bs e p =
    ap reverse
      (to_le_bytes-from_le_bytes n (reverse bs) (length-reverse bs ∙ e) (IsBytes-reverse bs p))
    ∙ reverse-reverse bs

pub from_be_bytes-to_be_bytes : (n x : ℕ) → x < 256 ^ n → from_be_bytes (to_be_bytes n x) ≡ x
unfolding to_be_bytes from_be_bytes
from_be_bytes-to_be_bytes n x h =
    ap from_le_bytes (reverse-reverse (to_le_bytes n x)) ∙ from_le_bytes-to_le_bytes n x h

pub length-xor_bytes : (ds ks : List ℕ) → length (xor_bytes ds ks) ≡ length ds
unfolding xor_bytes
length-xor_bytes [] ks = refl
length-xor_bytes (d ∷ ds) [] = refl
length-xor_bytes (d ∷ ds) (k ∷ ks) = ap suc (length-xor_bytes ds ks)

-- The same keys twice give the data back.
pub xor_bytes_cancel : (ds ks : List ℕ) → xor_bytes (xor_bytes ds ks) ks ≡ ds
unfolding xor_bytes
xor_bytes_cancel [] ks = refl
xor_bytes_cancel (d ∷ ds) [] = refl
xor_bytes_cancel (d ∷ ds) (k ∷ ks) = ap₂ ◌∷◌ (bit_xor_cancel d k) (xor_bytes_cancel ds ks)

pub xor_bytes-append :
    (ds es ks ls : List ℕ)
    → length ds ≡ length ks
    → xor_bytes (ds ++ es) (ks ++ ls) ≡ xor_bytes ds ks ++ xor_bytes es ls
unfolding xor_bytes
xor_bytes-append [] es [] ls e = refl
xor_bytes-append [] es (k ∷ ks) ls e = absurd (omega arith)
xor_bytes-append (d ∷ ds) es [] ls e = absurd (omega arith)
xor_bytes-append (d ∷ ds) es (k ∷ ks) ls e =
    ap (◌∷◌ (bit_xor d k)) (xor_bytes-append ds es ks ls (omega arith))

-- A wide `^` acts on each byte.
pub to_le_bytes-bit_xor :
    (n a b : ℕ) → to_le_bytes n (bit_xor a b) ≡ xor_bytes (to_le_bytes n a) (to_le_bytes n b)
unfolding to_le_bytes xor_bytes
to_le_bytes-bit_xor zero a b = refl
to_le_bytes-bit_xor (suc n) a b =
    ap₂ ◌∷◌ (bit_xor-mod 8 a b)
      (ap (to_le_bytes n) (bit_xor-div 8 a b) ∙ to_le_bytes-bit_xor n (a / 256) (b / 256))

pub xor_bytes_comm : (ds ks : List ℕ) → length ds ≡ length ks → xor_bytes ds ks ≡ xor_bytes ks ds
unfolding xor_bytes
xor_bytes_comm [] [] e = refl
xor_bytes_comm [] (k ∷ ks) e = absurd (omega arith)
xor_bytes_comm (d ∷ ds) [] e = absurd (omega arith)
xor_bytes_comm (d ∷ ds) (k ∷ ks) e = ap₂ ◌∷◌ (bit_xor_comm d k) (xor_bytes_comm ds ks (omega arith))
