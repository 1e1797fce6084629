-- ===== src/Gcm/Keystream.antt =====
-- The key stream of counter mode as SP 800-38D describes it: the encryptions of successive counter
-- blocks, one after another.
use hardware_rust_crypto.Prelude.{
  ℕ, zero, suc, ◌+◌, ◌*◌, ◌/◌, ◌≡◌, refl, sym, ap, ◌∙◌, List, [], ◌++◌, append_assoc, length,
  length-append, xor_bytes, xor_bytes-append, length-xor_bytes, IsBytes, IsBytes-append,
  IsBytes-xor_bytes, to_le_bytes-IsBytes, arith,
}
use hardware_rust_crypto.Cpu.{Cpu}
use hardware_rust_crypto.Aes.{Aes256, encrypt_block}
use hardware_rust_crypto.Gcm.Counter.{increment_counter}

-- The counter `n` blocks on.
unfoldable pub advance : ℕ → List ℕ → List ℕ
advance zero counter = counter
advance (suc n) counter = advance n (increment_counter counter)

-- How many blocks a message takes.
abbrev pub blocks_in : ℕ → ℕ
blocks_in len = (len + 15) / 16

pub advance-add :
    (m n k : ℕ) (counter : List ℕ) → m + n ≡ k → advance k counter ≡ advance n (advance m counter)
unfolding advance
advance-add zero n k c e = let e' : k ≡ n = omega arith in ap (λ t. advance t c) e'
advance-add (suc m) n zero c e = absurd (omega arith)
advance-add (suc m) n (suc k) c e = advance-add m n k (increment_counter c) (omega arith)

module _ (cpu : Cpu) (aes : Aes256) where
  unfoldable pub keystream : List ℕ → ℕ → List ℕ
  keystream counter zero = []
  keystream counter (suc n) =
      encrypt_block cpu aes counter ++ keystream (increment_counter counter) n

  pub length-encrypt_block : (block : List ℕ) → length (encrypt_block cpu aes block) ≡ 16
  unfolding encrypt_block
  length-encrypt_block block = refl

  encrypt_block-IsBytes : (block : List ℕ) → IsBytes (encrypt_block cpu aes block)
  unfolding encrypt_block
  encrypt_block-IsBytes block = to_le_bytes-IsBytes 16 _

  keystream-IsBytes : (counter : List ℕ) (n : ℕ) → IsBytes (keystream counter n)
  unfolding keystream
  keystream-IsBytes c zero = tt
  keystream-IsBytes c (suc n) =
      IsBytes-append (encrypt_block cpu aes c) (keystream (increment_counter c) n)
        (encrypt_block-IsBytes c) (keystream-IsBytes (increment_counter c) n)

  pub length-keystream : (counter : List ℕ) (n : ℕ) → length (keystream counter n) ≡ n * 16
  unfolding keystream
  length-keystream counter zero = omega arith
  length-keystream counter (suc n) = omega (
    arith,
    length-append (encrypt_block cpu aes counter) (keystream (increment_counter counter) n),
    length-encrypt_block counter,
    length-keystream (increment_counter counter) n,
  )

  pub keystream-add :
      (counter : List ℕ) (m n k : ℕ)
      → m + n ≡ k
      → keystream counter k ≡ keystream counter m ++ keystream (advance m counter) n
  unfolding keystream advance
  keystream-add c zero n k e = let e' : k ≡ n = omega arith in ap (keystream c) e'
  keystream-add c (suc m) n zero e = absurd (omega arith)
  keystream-add c (suc m) n (suc k) e =
      ap (◌++◌ (encrypt_block cpu aes c)) (keystream-add (increment_counter c) m n k (omega arith))
      ∙ sym (append_assoc (encrypt_block cpu aes c) (keystream (increment_counter c) m) _)

  -- A text under `n` blocks of key stream.
  abbrev pub under : List ℕ → List ℕ → ℕ → List ℕ
  under counter input n = xor_bytes input (keystream counter n)

  pub length-under :
      (counter input : List ℕ) (n : ℕ) → length (under counter input n) ≡ length input
  length-under counter input n = length-xor_bytes input (keystream counter n)

  -- Whole blocks first, and the rest from the counter behind them.
  pub under-append :
      (counter xs ys : List ℕ) (m n k : ℕ)
      → length xs ≡ m * 16
      → m + n ≡ k
      → under counter (xs ++ ys) k ≡ under counter xs m ++ under (advance m counter) ys n
  under-append c xs ys m n k h e =
      ap (xor_bytes (xs ++ ys)) (keystream-add c m n k e)
      ∙ xor_bytes-append xs ys (keystream c m) (keystream (advance m c) n)
          (h ∙ sym (length-keystream c m))

  pub under-IsBytes :
      (counter input : List ℕ) (n : ℕ) → IsBytes input → IsBytes (under counter input n)
  under-IsBytes c input n q = IsBytes-xor_bytes input (keystream c n) q (keystream-IsBytes c n)
