-- ===== src/Siv/Keys.antt =====
-- The inputs from which src/aes_gcm/siv.rs derives keys, and its counter blocks.
use hardware_rust_crypto.Prelude.{
  ℕ, ◌+◌, ◌%◌, ◌^◌, ◌<◌, ◌≡◌, sym, ap, ap₂, ◌∙◌, List, ◌++◌, take, drop, to_le_bytes, from_le_bytes,
  from_le_bytes-to_le_bytes, length-to_le_bytes, take-append, drop-append, arith,
}
use hardware_rust_crypto.Siv.Message.{derive_input, increment_siv_counter}

-- Two inputs of the key derivation are equal only if their counters, of 32 bits, and their nonces
-- are: no block of key material serves two slots, or two nonces.
pub derive_input-injective :
    (i j : ℕ) (nonce nonce' : List ℕ)
    → i < 2 ^ 32
    → j < 2 ^ 32
    → derive_input i nonce ≡ derive_input j nonce'
    → (i ≡ j) × (nonce ≡ nonce')
unfolding derive_input
derive_input-injective i j nonce nonce' hi hj e =
    let len = λ (c : ℕ). length-to_le_bytes 4 c in
    (
      sym (from_le_bytes-to_le_bytes 4 i (omega arith))
          ∙ ap from_le_bytes (
              sym (take-append 4 (to_le_bytes 4 i) nonce (len i))
              ∙ ap (take 4) e
              ∙ take-append 4 (to_le_bytes 4 j) nonce' (len j))
          ∙ from_le_bytes-to_le_bytes 4 j (omega arith),
      sym (drop-append 4 (to_le_bytes 4 i) nonce (len i))
          ∙ ap (drop 4) e
          ∙ drop-append 4 (to_le_bytes 4 j) nonce' (len j),
    )

-- The increment is of the first 32 bits alone, little-endian, wraps there, and leaves the other
-- twelve bytes as they are.
pub increment_siv_counter_lem :
    (v : ℕ) (rest : List ℕ)
    → increment_siv_counter (to_le_bytes 4 (v % 2 ^ 32) ++ rest)
      ≡ to_le_bytes 4 ((v + 1) % 2 ^ 32) ++ rest
unfolding increment_siv_counter
increment_siv_counter_lem v rest =
    let low = to_le_bytes 4 (v % 2 ^ 32) in
    let len = length-to_le_bytes 4 (v % 2 ^ 32) in
    let value : (from_le_bytes low + 1) % 2 ^ 32 ≡ (v + 1) % 2 ^ 32 =
      ap (λ x. (x + 1) % 2 ^ 32) (from_le_bytes-to_le_bytes 4 (v % 2 ^ 32) (omega arith))
      ∙ omega arith in
    ap₂ (λ x back. to_le_bytes 4 x ++ back)
      (ap (λ t. (from_le_bytes t + 1) % 2 ^ 32) (take-append 4 low rest len) ∙ value)
      (drop-append 4 low rest len)
