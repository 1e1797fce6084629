-- ===== src/Siv/Keystream.antt =====
-- The key stream of GCM-SIV: the encryptions of successive counter blocks of src/aes_gcm/siv.rs.
use hardware_rust_crypto.Prelude.{
  ℕ, zero, suc, ◌+◌, ◌*◌, ◌≡◌, sym, ap, ◌∙◌, List, [], ◌++◌, append_assoc, length, length-append,
  xor_bytes, xor_bytes-append, arith,
}
use hardware_rust_crypto.Cpu.{Cpu}
use hardware_rust_crypto.Aes.{Aes256, encrypt_block}
use hardware_rust_crypto.Gcm.Keystream.{length-encrypt_block}
use hardware_rust_crypto.Siv.Message.{increment_siv_counter}

-- The counter `n` blocks on.
unfoldable pub siv_advance : ℕ → List ℕ → List ℕ
siv_advance zero counter = counter
siv_advance (suc n) counter = siv_advance n (increment_siv_counter counter)

pub siv_advance-add :
    (m n k : ℕ) (c : List ℕ) → m + n ≡ k → siv_advance k c ≡ siv_advance n (siv_advance m c)
unfolding siv_advance
siv_advance-add zero n k c e = let e' : k ≡ n = omega arith in ap (λ t. siv_advance t c) e'
siv_advance-add (suc m) n zero c e = absurd (omega arith)
siv_advance-add (suc m) n (suc k) c e =
    siv_advance-add m n k (increment_siv_counter c) (omega arith)

module _ (cpu : Cpu) (cipher : Aes256) where
  unfoldable pub siv_stream : List ℕ → ℕ → List ℕ
  siv_stream c zero = []
  siv_stream c (suc n) = encrypt_block cpu cipher c ++ siv_stream (increment_siv_counter c) n

  pub length-siv_stream : (c : List ℕ) (n : ℕ) → length (siv_stream c n) ≡ n * 16
  unfolding siv_stream
  length-siv_stream c zero = omega arith
  length-siv_stream c (suc n) = omega (
    arith,
    length-append (encrypt_block cpu cipher c) (siv_stream (increment_siv_counter c) n),
    length-encrypt_block cpu cipher c,
    length-siv_stream (increment_siv_counter c) n,
  )

  pub siv_stream-add :
      (c : List ℕ) (m n k : ℕ)
      → m + n ≡ k
      → siv_stream c k ≡ siv_stream c m ++ siv_stream (siv_advance m c) n
  unfolding siv_stream siv_advance
  siv_stream-add c zero n k e = let e' : k ≡ n = omega arith in ap (siv_stream c) e'
  siv_stream-add c (suc m) n zero e = absurd (omega arith)
  siv_stream-add c (suc m) n (suc k) e =
      let c' = increment_siv_counter c in
      ap (◌++◌ (encrypt_block cpu cipher c)) (siv_stream-add c' m n k (omega arith))
      ∙ sym (append_assoc (encrypt_block cpu cipher c) (siv_stream c' m) _)

  -- A text under the first `n` blocks.
  abbrev pub siv_under : List ℕ → List ℕ → ℕ → List ℕ
  siv_under c xs n = xor_bytes xs (siv_stream c n)

  pub siv_under-append :
      (c xs ys : List ℕ) (m n k : ℕ)
      → length xs ≡ m * 16
      → m + n ≡ k
      → siv_under c (xs ++ ys) k ≡ siv_under c xs m ++ siv_under (siv_advance m c) ys n
  siv_under-append c xs ys m n k h e =
      ap (xor_bytes (xs ++ ys)) (siv_stream-add c m n k e)
      ∙ xor_bytes-append xs ys (siv_stream c m) (siv_stream (siv_advance m c) n)
          (h ∙ sym (length-siv_stream c m))
