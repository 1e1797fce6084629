-- ===== src/Ghash/Backend/Batches.antt =====
-- `update_blocks4` and `update_blocks8` of src/aes_gcm/ghash.rs, under the powers of a key.
use hardware_rust_crypto.Prelude.{
  ℕ, suc, ◌+◌, ◌^◌, ◌<◌, ◌≡◌, refl, sym, ap, ap₂, ◌∙◌, List, [], ◌∷◌, map, foldl, get_or, length,
  bit_xor, IsBytes, from_le_bytes, from_le_bytes-lt, from_le_bytes-to_le_bytes, arith,
}
use hardware_rust_crypto.Cpu.{loadu, storeu}
use hardware_rust_crypto.Ghash.Backend.{
  clmul_wide, reduce, mul, Backend, fold_loaded, pairs4, pairs8, update_block, update_blocks4,
  update_blocks8,
}
use hardware_rust_crypto.Ghash.Backend.Aggregate.{
  times, times_lem, times-lt, AllShort, pow, pow-lt, pow-times, serial, serial-reduce, serial-lt,
  pow_list,
}
use hardware_rust_crypto.Ghash.Key.{powers}

-- Blocks of 16 bytes.
abbrev pub AllBlocks : List (List ℕ) → Type 0
AllBlocks [] = Unit {0}
AllBlocks (b ∷ bs) = (length b ≡ 16) × IsBytes b × AllBlocks bs

pub loadu-lt : (b : List ℕ) → length b ≡ 16 → IsBytes b → loadu b < 2 ^ 128
unfolding loadu
loadu-lt b e p = from_le_bytes-lt 16 b e p

pub loadu-mul :
    (a b : List ℕ)
    → loadu a < 2 ^ 128
    → loadu b < 2 ^ 128
    → loadu (mul a b) ≡ times (loadu a) (loadu b)
unfolding loadu storeu mul
loadu-mul a b ha hb =
    let x = from_le_bytes a in
    let y = from_le_bytes b in
    let t = times_lem x y in
    let short : reduce (clmul_wide x y) < 2 ^ 128 = omega (arith, t, times-lt x y ha hb) in
    from_le_bytes-to_le_bytes 16 (reduce (clmul_wide x y)) short ∙ sym t

-- The eight powers that `powers` makes by squares and products are those by one factor at a time.
pub powers-pow_list :
    (k : List ℕ) (e : length k ≡ 16) (p : IsBytes k)
    → map loadu (powers k) ≡ pow_list (loadu k) (loadu-lt k e p)
unfolding powers
powers-pow_list k e p =
    let h = loadu k in
    let hh = loadu-lt k e p in
    let at = λ (i : ℕ). pow h hh i in
    let step : (i j n : ℕ) (a b : List ℕ)
        → i + suc j ≡ n
        → loadu a ≡ at i
        → loadu b ≡ at j
        → loadu (mul a b) ≡ at n =
      λ i j n a b s ea eb.
        loadu-mul a b (omega (arith, ea, pow-lt h hh i)) (omega (arith, eb, pow-lt h hh j))
        ∙ ap₂ times ea eb
        ∙ pow-times h hh i j n s in
    let h2 = mul k k in
    let h3 = mul h2 k in
    let h4 = mul h2 h2 in
    let e2 = step 0 0 1 k k (omega arith) refl refl in
    let e3 = step 1 0 2 h2 k (omega arith) e2 refl in
    let e4 = step 1 1 3 h2 h2 (omega arith) e2 e2 in
    let e5 = step 3 0 4 h4 k (omega arith) e4 refl in
    let e6 = step 3 1 5 h4 h2 (omega arith) e4 e2 in
    let e7 = step 3 2 6 h4 h3 (omega arith) e4 e3 in
    let e8 = step 3 3 7 h4 h4 (omega arith) e4 e4 in
    λ i. h ∷ e2 i ∷ e3 i ∷ e4 i ∷ e5 i ∷ e6 i ∷ e7 i ∷ e8 i ∷ []

blocks-AllShort : (bs : List (List ℕ)) → AllBlocks bs → AllShort (map loadu bs)
blocks-AllShort [] h = tt
blocks-AllShort (b ∷ bs) h = (loadu-lt b h.0 h.1, blocks-AllShort bs h.2)

-- A backend under the powers of a key, with a value that fits a register.
pub record IsKeyed (key : List ℕ) (b : Backend) : Type 0 where
  pub sized : length key ≡ 16
  pub bytes : IsBytes key
  pub held : b.h_pows ≡ map loadu (powers key)
  pub fits : b.y < 2 ^ 128

module _ (key : List ℕ) (b : Backend) (keyed : IsKeyed key b) where
  open keyed use {sized, bytes, held, fits}

  abbrev h : ℕ
  h = loadu key

  abbrev hh : loadu key < 2 ^ 128
  hh = loadu-lt key sized bytes

  pub held-pow_list : b.h_pows ≡ pow_list h hh
  held-pow_list = held ∙ powers-pow_list key sized bytes

  -- The backend with the value that the blocks give one after another.
  abbrev pub after_serial : List (List ℕ) → Backend
  after_serial bs = record b { y = serial h hh b.y (map loadu bs) }

  pub after_serial-IsKeyed : (bs : List (List ℕ)) → AllBlocks bs → IsKeyed key (after_serial bs)
  after_serial-IsKeyed bs hs = record {
    sized = sized;
    bytes = bytes;
    held = held;
    fits = serial-lt h hh b.y (map loadu bs) fits (blocks-AllShort bs hs);
  }

  abbrev with_y : ℕ → Backend
  with_y y = record b { y = y }

  pub update_blocks8-after_serial :
      (b₀ b₁ b₂ b₃ b₄ b₅ b₆ b₇ : List ℕ)
      → AllBlocks (b₀ ∷ b₁ ∷ b₂ ∷ b₃ ∷ b₄ ∷ b₅ ∷ b₆ ∷ b₇ ∷ [])
      → update_blocks8 b (b₀ ∷ b₁ ∷ b₂ ∷ b₃ ∷ b₄ ∷ b₅ ∷ b₆ ∷ b₇ ∷ [])
        ≡ after_serial (b₀ ∷ b₁ ∷ b₂ ∷ b₃ ∷ b₄ ∷ b₅ ∷ b₆ ∷ b₇ ∷ [])
  unfolding update_blocks8
  update_blocks8-after_serial b₀ b₁ b₂ b₃ b₄ b₅ b₆ b₇ hs =
      let blocks = b₀ ∷ b₁ ∷ b₂ ∷ b₃ ∷ b₄ ∷ b₅ ∷ b₆ ∷ b₇ ∷ [] in
      let rest = map loadu (b₁ ∷ b₂ ∷ b₃ ∷ b₄ ∷ b₅ ∷ b₆ ∷ b₇ ∷ []) in
      let short = blocks-AllShort blocks hs in
      ap
        (λ hp. with_y (
          reduce (
            foldl (fold_loaded hp blocks) (clmul_wide (bit_xor b.y (loadu b₀)) (get_or hp 7 0))
              pairs8)))
        held-pow_list
      ∙ ap with_y (sym (serial-reduce h hh b.y (loadu b₀) rest fits short.0 short.1))

  pub update_blocks4-after_serial :
      (b₀ b₁ b₂ b₃ : List ℕ)
      → AllBlocks (b₀ ∷ b₁ ∷ b₂ ∷ b₃ ∷ [])
      → update_blocks4 b (b₀ ∷ b₁ ∷ b₂ ∷ b₃ ∷ []) ≡ after_serial (b₀ ∷ b₁ ∷ b₂ ∷ b₃ ∷ [])
  unfolding update_blocks4
  update_blocks4-after_serial b₀ b₁ b₂ b₃ hs =
      let blocks = b₀ ∷ b₁ ∷ b₂ ∷ b₃ ∷ [] in
      let rest = map loadu (b₁ ∷ b₂ ∷ b₃ ∷ []) in
      let short = blocks-AllShort blocks hs in
      ap
        (λ hp. with_y (
          reduce (
            foldl (fold_loaded hp blocks) (clmul_wide (bit_xor b.y (loadu b₀)) (get_or hp 3 0))
              pairs4)))
        held-pow_list
      ∙ ap with_y (sym (serial-reduce h hh b.y (loadu b₀) rest fits short.0 short.1))

  pub update_block-after_serial : (x : List ℕ) → update_block b x ≡ after_serial (x ∷ [])
  unfolding update_block
  update_block-after_serial x =
      ap (λ hp. with_y (reduce (clmul_wide (bit_xor b.y (loadu x)) (get_or hp 0 0)))) held-pow_list
      ∙ ap with_y (sym (times_lem (bit_xor b.y (loadu x)) h))
