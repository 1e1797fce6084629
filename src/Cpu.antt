-- ===== src/Cpu.antt =====
-- The x86_64 processor as src/aes_gcm and src/random use it: `core::arch::x86_64` intrinsics on
-- `__m128i`, and what feature detection answers. A register is its 128-bit value, lane 0 lowest.
-- The AES round instructions are the processor's own and stay parameters; the instructions that
-- move, shift, `^` and multiply without carries are written out.
pub mod Clmul
use hardware_rust_crypto.Prelude.{
  ℕ, zero, suc, ◌+◌, ◌*◌, ◌/◌, ◌%◌, ◌^◌, Bool, List, [], ◌∷◌, map, get_or, from_le_bytes,
  to_le_bytes,
}
use Clmul.{clmul}

pub record Cpu : Type 0 where
  -- `_mm_aesenc_si128`, `_mm_aesenclast_si128`, `_mm_aeskeygenassist_si128::<RCON>`.
  pub aesenc : ℕ → ℕ → ℕ
  pub aesenclast : ℕ → ℕ → ℕ
  pub aeskeygenassist : ℕ → ℕ → ℕ
  -- `cfg!(target_feature = ..)`.
  pub cfg_aes : Bool
  pub cfg_sse2 : Bool
  pub cfg_ssse3 : Bool
  pub cfg_pclmulqdq : Bool
  -- `is_x86_feature_detected!(..)`.
  pub detected_aes : Bool
  pub detected_sse2 : Bool
  pub detected_ssse3 : Bool
  pub detected_pclmulqdq : Bool
  -- `__cpuid(1)`.
  pub cpuid_ecx : ℕ
  pub cpuid_edx : ℕ

-- `_mm_loadu_si128` and `_mm_storeu_si128` on 16 bytes.
unfoldable pub loadu : List ℕ → ℕ
unfolding from_le_bytes
loadu bytes = from_le_bytes bytes

unfoldable pub storeu : ℕ → List ℕ
unfolding to_le_bytes
storeu x = to_le_bytes 16 x

-- `_mm_shuffle_epi8(x, mask)`, for a mask of byte indices below 16, lowest first.
unfoldable pub shuffle_epi8 : ℕ → List ℕ → ℕ
unfolding from_le_bytes to_le_bytes
shuffle_epi8 x mask = from_le_bytes (map (λ i. get_or (to_le_bytes 16 x) i 0) mask)

-- `_mm_set_epi8(0, 1, .., 15)`: its last argument is the lowest byte.
abbrev pub bswap : List ℕ
bswap = 15 ∷ 14 ∷ 13 ∷ 12 ∷ 11 ∷ 10 ∷ 9 ∷ 8 ∷ 7 ∷ 6 ∷ 5 ∷ 4 ∷ 3 ∷ 2 ∷ 1 ∷ 0 ∷ []

-- The 64-bit lanes.
abbrev pub lo64 : ℕ → ℕ
lo64 x = x % 2 ^ 64

abbrev pub hi64 : ℕ → ℕ
hi64 x = x / 2 ^ 64 % 2 ^ 64

-- The 32-bit lane that two bits of an immediate select.
abbrev pub dword : ℕ → ℕ → ℕ
dword x i = x / 2 ^ (32 * i) % 2 ^ 32

-- `_mm_shuffle_epi32`.
unfoldable pub shuffle_epi32 : ℕ → ℕ → ℕ
shuffle_epi32 x imm =
    dword x (imm % 4)
    + 2 ^ 32 * dword x (imm / 4 % 4)
    + 2 ^ 64 * dword x (imm / 16 % 4)
    + 2 ^ 96 * dword x (imm / 64 % 4)

-- `_mm_slli_si128::<N>`: a shift by bytes.
unfoldable pub slli_si128 : ℕ → ℕ → ℕ
slli_si128 n x = x * 256 ^ n % 2 ^ 128

-- `_mm_slli_epi64` and `_mm_srli_epi64`: a shift of each 64-bit lane.
unfoldable pub slli_epi64 : ℕ → ℕ → ℕ
slli_epi64 x k = lo64 x * 2 ^ k % 2 ^ 64 + 2 ^ 64 * (hi64 x * 2 ^ k % 2 ^ 64)

unfoldable pub srli_epi64 : ℕ → ℕ → ℕ
srli_epi64 x k = lo64 x / 2 ^ k + 2 ^ 64 * (hi64 x / 2 ^ k)

-- `_mm_unpacklo_epi64`.
unfoldable pub unpacklo_epi64 : ℕ → ℕ → ℕ
unpacklo_epi64 a b = lo64 a + 2 ^ 64 * lo64 b

-- `_mm_clmulepi64_si128(a, b, 0x00)` and `(a, b, 0x11)`.
unfoldable pub clmulepi64_lo : ℕ → ℕ → ℕ
unfolding clmul
clmulepi64_lo a b = clmul (lo64 a) (lo64 b)

unfoldable pub clmulepi64_hi : ℕ → ℕ → ℕ
unfolding clmul
clmulepi64_hi a b = clmul (hi64 a) (hi64 b)
