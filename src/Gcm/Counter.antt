-- ===== src/Gcm/Counter.antt =====
-- `j0` and `increment_counter` of src/aes_gcm/mod.rs. A counter block is 16 bytes.
pub mod Distinct
use hardware_rust_crypto.Prelude.{
  ℕ, ◌+◌, ◌%◌, ◌^◌, List, ◌++◌, take, drop, set, replicate, from_be_bytes, to_be_bytes,
}

abbrev pub nonce_size : ℕ
nonce_size = 12

abbrev pub tag_size : ℕ
tag_size = 16

-- `out[..NONCE_SIZE] = nonce; out[15] = 1` over 16 zeros.
unfoldable pub j0 : List ℕ → List ℕ
j0 nonce = set (nonce ++ drop nonce_size (replicate 16 0)) 15 1

unfoldable pub increment_counter : List ℕ → List ℕ
unfolding from_be_bytes to_be_bytes
increment_counter counter =
    let low = (from_be_bytes (drop 12 counter) + 1) % 2 ^ 32 in take 12 counter ++ to_be_bytes 4 low
