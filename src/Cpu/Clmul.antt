-- ===== src/Cpu/Clmul.antt =====
-- The product without carries of two 64-bit integers, as PCLMULQDQ forms it: the `^` of the
-- shifts of one factor by the places of the ones of the other.
use hardware_rust_crypto.Prelude.{ℕ, zero, suc, ◌*◌, ◌/◌, ◌%◌, bit_xor, ◌==◌, if◌then◌else◌}

-- Over the low `n` digits of `b`.
unfoldable pub clmul_digits : ℕ → ℕ → ℕ → ℕ
clmul_digits zero a b = 0
clmul_digits (suc n) a b = bit_xor (if b % 2 == 1 then a else 0) (2 * clmul_digits n a (b / 2))

unfoldable pub clmul : ℕ → ℕ → ℕ
unfolding clmul_digits
clmul a b = clmul_digits 64 a b
