-- ===== src/Ghash/Backend.antt =====
-- `mod imp` for x86 of src/aes_gcm/ghash.rs: one multiplication in Montgomery form, and the
-- accumulator with its one-, four- and eight-block updates.
pub mod Words
pub mod Product
pub mod Folding
pub mod Reduce
pub mod Aggregate
pub mod Batches
pub mod Field
use hardware_rust_crypto.Prelude.{
  ℕ, Bool, true, ◌&&◌, not, List, [], ◌∷◌, map, foldl, Option, none, some, bit_and, bit_xor, ◌==◌,
  if◌then◌else◌, get_or,
}
use hardware_rust_crypto.Cpu.{
  Cpu, loadu, storeu, shuffle_epi32, slli_epi64, srli_epi64, unpacklo_epi64, clmulepi64_lo,
  clmulepi64_hi,
}

-- Key powers held in the key state.
abbrev pub key_powers_count : ℕ
key_powers_count = 8

-- The three partial products.
pub record Wide : Type 0 where
  pub t0 : ℕ
  pub t1 : ℕ
  pub t2 : ℕ

unfoldable pub clmul_wide : ℕ → ℕ → Wide
unfolding shuffle_epi32 clmulepi64_lo clmulepi64_hi
clmul_wide x h =
    let h0 = h in
    let h1 = shuffle_epi32 h 0x0e in
    let h2 = bit_xor h0 h1 in
    let y0 = x in
    let y1 = shuffle_epi32 x 0x0e in
    let y2 = bit_xor y0 y1 in
    record { t0 = clmulepi64_lo y0 h0; t1 = clmulepi64_hi x h; t2 = clmulepi64_lo y2 h2 }

abbrev pub xor4 : ℕ → ℕ → ℕ → ℕ → ℕ
xor4 e1 e2 e3 e4 = bit_xor (bit_xor e1 e2) (bit_xor e3 e4)

abbrev pub xor5 : ℕ → ℕ → ℕ → ℕ → ℕ → ℕ
xor5 e1 e2 e3 e4 e5 = bit_xor e1 (bit_xor (bit_xor e2 e3) (bit_xor e4 e5))

unfoldable pub reduce : Wide → ℕ
unfolding shuffle_epi32 srli_epi64 slli_epi64 unpacklo_epi64
reduce w =
    let t2 = bit_xor w.t2 (bit_xor w.t0 w.t1) in
    let v0 = w.t0 in
    let v1 = bit_xor (shuffle_epi32 w.t0 0x0e) t2 in
    let v2 = bit_xor w.t1 (shuffle_epi32 t2 0x0e) in
    let v3 = shuffle_epi32 w.t1 0x0e in
    let v2' = xor5 v2 v0 (srli_epi64 v0 1) (srli_epi64 v0 2) (srli_epi64 v0 7) in
    let v1' = xor4 v1 (slli_epi64 v0 63) (slli_epi64 v0 62) (slli_epi64 v0 57) in
    let v3' = xor5 v3 v1' (srli_epi64 v1' 1) (srli_epi64 v1' 2) (srli_epi64 v1' 7) in
    let v2'' = xor4 v2' (slli_epi64 v1' 63) (slli_epi64 v1' 62) (slli_epi64 v1' 57) in
    unpacklo_epi64 v2'' v3'

-- One multiplication, on 16-byte operands.
unfoldable pub mul : List ℕ → List ℕ → List ℕ
unfolding clmul_wide reduce loadu storeu
mul a b = storeu (reduce (clmul_wide (loadu a) (loadu b)))

abbrev pub add_wide : Wide → Wide → Wide
add_wide a b = record { t0 = bit_xor a.t0 b.t0; t1 = bit_xor a.t1 b.t1; t2 = bit_xor a.t2 b.t2 }

unfoldable pub ghash1_reg : ℕ → ℕ → ℕ → ℕ
unfolding clmul_wide reduce
ghash1_reg y h block = reduce (clmul_wide (bit_xor y block) h)

-- The pairs of a power's and a block's index that the loops run over.
abbrev pub pairs4 : List (ℕ × ℕ)
pairs4 = (2, 1) ∷ (1, 2) ∷ (0, 3) ∷ []

abbrev pub pairs8 : List (ℕ × ℕ)
pairs8 = (6, 1) ∷ (5, 2) ∷ (4, 3) ∷ (3, 4) ∷ (2, 5) ∷ (1, 6) ∷ (0, 7) ∷ []

abbrev pub fold_pair : List ℕ → List ℕ → Wide → ℕ × ℕ → Wide
fold_pair h_pows blocks acc (power_index, block) =
    add_wide acc (clmul_wide (get_or blocks block 0) (get_or h_pows power_index 0))

unfoldable pub ghash4_regs : ℕ → List ℕ → List ℕ → ℕ
unfolding clmul_wide reduce
ghash4_regs y h_pows blocks = reduce (
    foldl (fold_pair h_pows blocks) (clmul_wide (bit_xor y (get_or blocks 0 0)) (get_or h_pows 3 0))
      pairs4)

unfoldable pub ghash8_regs : ℕ → List ℕ → List ℕ → ℕ
unfolding clmul_wide reduce
ghash8_regs y h_pows blocks = reduce (
    foldl (fold_pair h_pows blocks) (clmul_wide (bit_xor y (get_or blocks 0 0)) (get_or h_pows 7 0))
      pairs8)

pub record Backend : Type 0 where
  pub h_pows : List ℕ
  pub y : ℕ

module _ (cpu : Cpu) where
  open cpu use {
    cfg_sse2, cfg_pclmulqdq, cfg_ssse3, detected_sse2, detected_pclmulqdq, detected_ssse3,
    cpuid_ecx, cpuid_edx,
  }

  unfoldable pub cpuid_confirms : Bool
  cpuid_confirms =
      not (bit_and cpuid_edx 0x400_0000 == 0)
      && (not (bit_and cpuid_ecx 0x2 == 0) && not (bit_and cpuid_ecx 0x200 == 0))

  unfoldable pub hardware_available : Bool
  unfolding cpuid_confirms
  hardware_available =
      if cfg_sse2 && (cfg_pclmulqdq && cfg_ssse3)
      then true
      else if detected_sse2 && (detected_pclmulqdq && detected_ssse3)
      then true
      else cpuid_confirms

  unfoldable pub new : List (List ℕ) → Option Backend
  unfolding hardware_available loadu
  new powers =
      if not hardware_available then none else some (record { h_pows = map loadu powers; y = 0 })

unfoldable pub update_block : Backend → List ℕ → Backend
unfolding clmul_wide reduce loadu
update_block b block = record b {
  y = reduce (clmul_wide (bit_xor b.y (loadu block)) (get_or b.h_pows 0 0));
}

abbrev pub fold_loaded : List ℕ → List (List ℕ) → Wide → ℕ × ℕ → Wide
fold_loaded h_pows blocks acc (power_index, block) =
    add_wide acc (clmul_wide (loadu (get_or blocks block [])) (get_or h_pows power_index 0))

unfoldable pub update_blocks4 : Backend → List (List ℕ) → Backend
unfolding clmul_wide reduce loadu
update_blocks4 b blocks = record b {
  y = reduce (
      foldl (fold_loaded b.h_pows blocks)
        (clmul_wide (bit_xor b.y (loadu (get_or blocks 0 []))) (get_or b.h_pows 3 0)) pairs4);
}

unfoldable pub update_blocks8 : Backend → List (List ℕ) → Backend
unfolding clmul_wide reduce loadu
update_blocks8 b blocks = record b {
  y = reduce (
      foldl (fold_loaded b.h_pows blocks)
        (clmul_wide (bit_xor b.y (loadu (get_or blocks 0 []))) (get_or b.h_pows 7 0)) pairs8);
}

unfoldable pub finalize : Backend → List ℕ
unfolding storeu
finalize b = storeu b.y
