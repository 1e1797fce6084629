-- ===== src/Gcm/Counter/Distinct.antt =====
-- The counter blocks of src/aes_gcm/mod.rs: which ones a message uses, and that no two are equal.
use hardware_rust_crypto.Prelude.{
  ℕ, zero, suc, ◌+◌, ◌%◌, ◌^◌, ◌≤◌, ◌≡◌, refl, sym, ap, ap₂, ◌∙◌, List, [], ◌∷◌, ◌++◌, length, take,
  drop, set, replicate, from_be_bytes, to_be_bytes, from_be_bytes-to_be_bytes, take-append,
  drop-append, arith,
}
use hardware_rust_crypto.Gcm.Counter.{j0, increment_counter}
use hardware_rust_crypto.Gcm.Error.{max_gcm_data_len}
use hardware_rust_crypto.Gcm.Keystream.{advance, blocks_in}

-- The block with a nonce in front and a 32-bit value behind it.
abbrev pub block_at : List ℕ → ℕ → List ℕ
block_at nonce v = nonce ++ to_be_bytes 4 (v % 2 ^ 32)

low_bits : (v : ℕ) → from_be_bytes (to_be_bytes 4 (v % 2 ^ 32)) ≡ v % 2 ^ 32
low_bits v = from_be_bytes-to_be_bytes 4 (v % 2 ^ 32) (omega arith)

-- The increment is of the last 32 bits alone, wraps there, and leaves the nonce as it is.
pub increment_counter_lem :
    (nonce : List ℕ) (v : ℕ)
    → length nonce ≡ 12
    → increment_counter (block_at nonce v) ≡ block_at nonce (v + 1)
unfolding increment_counter
increment_counter_lem nonce v n12 =
    let low = to_be_bytes 4 (v % 2 ^ 32) in
    let value : (from_be_bytes low + 1) % 2 ^ 32 ≡ (v + 1) % 2 ^ 32 =
      ap (λ x. (x + 1) % 2 ^ 32) (low_bits v) ∙ omega arith in
    ap₂ (λ front x. front ++ to_be_bytes 4 x) (take-append 12 nonce low n12)
      (ap (λ x. (from_be_bytes x + 1) % 2 ^ 32) (drop-append 12 nonce low n12) ∙ value)

set-append :
    (xs ys : List ℕ) (n i k v : ℕ)
    → length xs ≡ n
    → n + i ≡ k
    → set (xs ++ ys) k v ≡ xs ++ set ys i v
set-append [] ys n i k v e h = let h' : k ≡ i = omega arith in ap (λ t. set ys t v) h'
set-append (x ∷ xs) ys zero i k v e h = absurd (omega arith)
set-append (x ∷ xs) ys (suc n) i zero v e h = absurd (omega arith)
set-append (x ∷ xs) ys (suc n) i (suc k) v e h =
    ap (◌∷◌ x) (set-append xs ys n i k v (omega arith) (omega arith))

pub j0_lem : (nonce : List ℕ) → length nonce ≡ 12 → j0 nonce ≡ block_at nonce 1
unfolding j0 to_be_bytes
j0_lem nonce n12 = set-append nonce (drop 12 (replicate 16 0)) 12 3 15 1 n12 refl

advance-block_at :
    (n : ℕ) (nonce : List ℕ) (v w : ℕ)
    → length nonce ≡ 12
    → n + v ≡ w
    → advance n (block_at nonce v) ≡ block_at nonce w
unfolding advance
advance-block_at zero nonce v w n12 e = let e' : v ≡ w = omega arith in ap (block_at nonce) e'
advance-block_at (suc n) nonce v w n12 e =
    ap (advance n) (increment_counter_lem nonce v n12)
    ∙ advance-block_at n nonce (v + 1) w n12 (omega arith)

-- Counter block number `n` of a 12-byte nonce is the nonce and the 32-bit big-endian `n + 1`.
pub advance-j0 :
    (n : ℕ) (nonce : List ℕ) → length nonce ≡ 12 → advance n (j0 nonce) ≡ block_at nonce (n + 1)
advance-j0 n nonce n12 =
    ap (advance n) (j0_lem nonce n12) ∙ advance-block_at n nonce 1 (n + 1) n12 refl

block_at-injective :
    (nonce nonce' : List ℕ) (v w : ℕ)
    → length nonce ≡ 12
    → length nonce' ≡ 12
    → block_at nonce v ≡ block_at nonce' w
    → (nonce ≡ nonce') × (v % 2 ^ 32 ≡ w % 2 ^ 32)
block_at-injective nonce nonce' v w n12 n12' e =
    let low = λ (x : ℕ). to_be_bytes 4 (x % 2 ^ 32) in
    (
      sym (take-append 12 nonce (low v) n12) ∙ ap (take 12) e ∙ take-append 12 nonce' (low w) n12',
      sym (low_bits v)
          ∙ ap from_be_bytes (
              sym (drop-append 12 nonce (low v) n12)
              ∙ ap (drop 12) e
              ∙ drop-append 12 nonce' (low w) n12')
          ∙ low_bits w,
    )

-- Over all messages within the limit, each with its 12-byte nonce, the block that masks the tag
-- (number 0) and those of the key stream (numbers 1 to the message's number of blocks) are
-- pairwise different: two of them are equal only if nonce and number are.
pub counter_blocks-distinct :
    (nonce nonce' : List ℕ) (len len' i j : ℕ)
    → length nonce ≡ 12
    → length nonce' ≡ 12
    → len ≤ max_gcm_data_len
    → len' ≤ max_gcm_data_len
    → i ≤ blocks_in len
    → j ≤ blocks_in len'
    → advance i (j0 nonce) ≡ advance j (j0 nonce')
    → (nonce ≡ nonce') × (i ≡ j)
counter_blocks-distinct nonce nonce' len len' i j n12 n12' fits fits' hi hj e =
    let both =
      block_at-injective nonce nonce' (i + 1) (j + 1) n12 n12'
        (sym (advance-j0 i nonce n12) ∙ e ∙ advance-j0 j nonce' n12') in
    (both.0, omega (arith, both.1))
