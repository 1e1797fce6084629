-- ===== src/Examples/Fixtures.antt =====
-- A processor, a key state, messages and the crates' functions for the concrete runs.
use hardware_rust_crypto.Prelude.{
  ℕ, zero, suc, ◌+◌, ◌*◌, ◌%◌, ◌^◌, ◌<◌, ◌≡◌, refl, ap₂, Bool, true, false, ◌&&◌, ◌==◌, ==_iff,
  Bool-cases, inl, inr, List, [], ◌∷◌, length, replicate, bit_xor, IsBytes, arith,
}
use hardware_rust_crypto.Cpu.{Cpu}
use hardware_rust_crypto.Aes.{of_array, hardware_available as aes_available}
use hardware_rust_crypto.Ghash.Backend.{hardware_available}
use hardware_rust_crypto.Gcm.Crates.{Crates, Documented}
use hardware_rust_crypto.Gcm.Seal.{KeyState}
use hardware_rust_crypto.Siv.KeyState.{SivKeyState}

-- A round that mixes and permutes, if weakly.
abbrev pub toy_round : ℕ → ℕ → ℕ
toy_round state key = bit_xor ((state * 257 + 99) % 2 ^ 128) key

abbrev pub cpu : Cpu
cpu = record {
  aesenc = toy_round;
  aesenclast = toy_round;
  aeskeygenassist = toy_round;
  cfg_aes = true;
  cfg_sse2 = true;
  cfg_ssse3 = true;
  cfg_pclmulqdq = true;
  detected_aes = true;
  detected_sse2 = true;
  detected_ssse3 = true;
  detected_pclmulqdq = true;
  cpuid_ecx = 0;
  cpuid_edx = 0;
}

pub ready : hardware_available cpu ≡ true
unfolding hardware_available
ready = refl

pub aes_ready : aes_available cpu ≡ true
unfolding aes_available
aes_ready = refl

abbrev pub state : KeyState
state = record {
  aes = record { round_keys = of_array (replicate 15 77) };
  ghash = record { polyval_key_powers = replicate 8 (replicate 16 3) };
}

abbrev pub siv_state : SivKeyState
siv_state = record { master = state.aes }

abbrev pub nonce : List ℕ
nonce = replicate 12 5

abbrev pub other_nonce : List ℕ
other_nonce = replicate 12 6

abbrev pub aad : List ℕ
aad = 1 ∷ 2 ∷ 3 ∷ []

-- One batch of eight blocks, two blocks and three bytes.
abbrev pub text : List ℕ
text = replicate 163 42

pub replicate-IsBytes : (n v : ℕ) → v < 256 → IsBytes (replicate n v)
replicate-IsBytes zero v h = tt
replicate-IsBytes (suc n) v h = (h, replicate-IsBytes n v h)

pub text-IsBytes : IsBytes text
text-IsBytes = replicate-IsBytes 163 42 (omega arith)

-- Byte-wise equality.
unfoldable pub same_bytes : List ℕ → List ℕ → Bool
same_bytes [] [] = true
same_bytes [] (y ∷ ys) = false
same_bytes (x ∷ xs) [] = false
same_bytes (x ∷ xs) (y ∷ ys) = x == y && same_bytes xs ys

same_bytes_refl : (xs : List ℕ) → same_bytes xs xs ≡ true
unfolding same_bytes
same_bytes_refl [] = refl
same_bytes_refl (x ∷ xs) = rw ((==_iff x x).1 refl) (same_bytes_refl xs)

same_bytes_sound : (xs ys : List ℕ) → same_bytes xs ys ≡ true → xs ≡ ys
unfolding same_bytes
same_bytes_sound [] [] e = refl
same_bytes_sound [] (y ∷ ys) e = cc
same_bytes_sound (x ∷ xs) [] e = cc
same_bytes_sound (x ∷ xs) (y ∷ ys) e = elim (Bool-cases (x == y)) [
  | inl h ↦ ap₂ ◌∷◌ ((==_iff x y).0 h) (same_bytes_sound xs ys (rw h at e))
  | inr h ↦ let e' = rw h at e in cc
]

abbrev pub crates : Crates
crates = record {
  ct_eq = same_bytes;
  zeroize_slice = λ xs. replicate (length xs) 0;
  zeroize_vec = λ xs. [];
}

pub documented : Documented crates
documented = record {
  ct_eq_refl = same_bytes_refl;
  ct_eq_sound = same_bytes_sound;
  zeroize_slice_fills = λ xs. refl;
  zeroize_vec_clears = λ xs. refl;
}
