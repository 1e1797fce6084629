-- ===== src/Ghash/Bulk/Lanes.antt =====
-- One batch of a stitched loop, lane by lane: what is written is the input under the key stream,
-- and what enters GHASH are the byte-reversed blocks of the ciphertext.
use hardware_rust_crypto.Prelude.{
  ℕ, zero, suc, ◌*◌, ◌≡◌, refl, sym, ap, ap₂, ◌∙◌, Bool, true, false, List, [], ◌∷◌, ◌++◌, map,
  flatten, reverse, bit_xor, length, take, drop, runs, length-take, length-drop, take-append-drop,
  IsBytes, IsBytes-take, IsBytes-drop, to_le_bytes-from_le_bytes, to_le_bytes-bit_xor, xor_bytes,
  xor_bytes-append, xor_bytes_comm, arith,
}
use hardware_rust_crypto.Cpu.{Cpu, loadu, storeu, shuffle_epi8, bswap}
use hardware_rust_crypto.Aes.{Aes256, encrypt_block}
use hardware_rust_crypto.Gcm.Counter.{increment_counter}
use hardware_rust_crypto.Gcm.Keystream.{advance, keystream}
use hardware_rust_crypto.Ghash.Bulk.{Batch, counters, seal_lanes, open_lanes}

-- A block as GHASH takes it.
abbrev pub entered : List ℕ → ℕ
entered block = loadu (reverse block)

-- Which text is the ciphertext: what is written, or what is read.
abbrev pub ciphertext_of : Bool → List ℕ → List ℕ → List ℕ
ciphertext_of true read written = written
ciphertext_of false read written = read

abbrev pub LanesLaw : Bool → (List ℕ → List (List ℕ) → Batch) → Type 0
LanesLaw sealing lanes =
    (n : ℕ) (state batch : List ℕ)
    → length state ≡ n
    → length batch ≡ n * 16
    → IsBytes batch
    → let b = lanes state (runs n 16 batch) in
      (b.written ≡ xor_bytes batch (flatten (map storeu state)))
      × (b.hashed ≡ map entered (runs n 16 (ciphertext_of sealing batch b.written)))

storeu-loadu : (p : List ℕ) → length p ≡ 16 → IsBytes p → storeu (loadu p) ≡ p
unfolding storeu loadu
storeu-loadu p h q = to_le_bytes-from_le_bytes 16 p h q

length-storeu : (x : ℕ) → length (storeu x) ≡ 16
unfolding storeu
length-storeu x = refl

pub shuffle_epi8-bswap : (x : ℕ) → shuffle_epi8 x bswap ≡ entered (storeu x)
unfolding shuffle_epi8 storeu loadu
shuffle_epi8-bswap x = refl

-- One lane.
pub lane :
    (s : ℕ) (p : List ℕ)
    → length p ≡ 16
    → IsBytes p
    → storeu (bit_xor s (loadu p)) ≡ xor_bytes p (storeu s)
lane s p h q =
    wide
    ∙ ap (xor_bytes (storeu s)) (storeu-loadu p h q)
    ∙ xor_bytes_comm (storeu s) p (length-storeu s ∙ sym h)
  where
    wide : storeu (bit_xor s (loadu p)) ≡ xor_bytes (storeu s) (storeu (loadu p))
    wide = unfold storeu in to_le_bytes-bit_xor 16 s (loadu p)

first_run : (n : ℕ) (batch : List ℕ) → length batch ≡ suc n * 16 → length (take 16 batch) ≡ 16
first_run n batch h = omega (arith, length-take 16 batch)

-- The lanes' key stream over the first block and the others.
xor_lanes :
    (n s : ℕ) (batch rest out : List ℕ)
    → length batch ≡ suc n * 16
    → IsBytes batch
    → out ≡ xor_bytes (drop 16 batch) rest
    → storeu (bit_xor s (loadu (take 16 batch))) ++ out ≡ xor_bytes batch (storeu s ++ rest)
xor_lanes n s batch rest out h q ih =
    ap₂ ◌++◌ (lane s (take 16 batch) (first_run n batch h) (IsBytes-take 16 batch q)) ih
    ∙ sym (
        xor_bytes-append (take 16 batch) (drop 16 batch) (storeu s) rest
          (first_run n batch h ∙ sym (length-storeu s)))
    ∙ ap (λ t. xor_bytes t (storeu s ++ rest)) (take-append-drop 16 batch)

pub seal_lanes-LanesLaw : LanesLaw true seal_lanes
unfolding seal_lanes runs xor_bytes flatten
seal_lanes-LanesLaw zero [] [] hs hb q = (refl, refl)
seal_lanes-LanesLaw zero [] (x ∷ batch) hs hb q = absurd (omega arith)
seal_lanes-LanesLaw zero (s ∷ state) batch hs hb q = absurd (omega arith)
seal_lanes-LanesLaw (suc n) [] batch hs hb q = absurd (omega arith)
seal_lanes-LanesLaw (suc n) (s ∷ state) batch hs hb q =
    let ih =
      seal_lanes-LanesLaw n state (drop 16 batch) (omega arith)
        (omega (arith, length-drop 16 batch)) (IsBytes-drop 16 batch q) in
    (
      xor_lanes n s batch (flatten (map storeu state)) _ hb q ih.0,
      ap₂ ◌∷◌ (shuffle_epi8-bswap (bit_xor s (loadu (take 16 batch)))) ih.1,
    )

pub open_lanes-LanesLaw : LanesLaw false open_lanes
unfolding open_lanes runs xor_bytes flatten
open_lanes-LanesLaw zero [] [] hs hb q = (refl, refl)
open_lanes-LanesLaw zero [] (x ∷ batch) hs hb q = absurd (omega arith)
open_lanes-LanesLaw zero (s ∷ state) batch hs hb q = absurd (omega arith)
open_lanes-LanesLaw (suc n) [] batch hs hb q = absurd (omega arith)
open_lanes-LanesLaw (suc n) (s ∷ state) batch hs hb q =
    let first = take 16 batch in
    let ih =
      open_lanes-LanesLaw n state (drop 16 batch) (omega arith)
        (omega (arith, length-drop 16 batch)) (IsBytes-drop 16 batch q) in
    (
      xor_lanes n s batch (flatten (map storeu state)) _ hb q ih.0,
      ap₂ ◌∷◌
          (shuffle_epi8-bswap (loadu first)
            ∙ ap entered (storeu-loadu first (first_run n batch hb) (IsBytes-take 16 batch q)))
          ih.1,
    )

-- The counter blocks of a batch: where they end, how many they are, and the key stream they give.
pub counters_lem :
    (cpu : Cpu) (aes : Aes256) (n : ℕ) (counter : List ℕ)
    → ((counters n counter).1 ≡ advance n counter)
      × (length (counters n counter).0 ≡ n)
      × (flatten (map (encrypt_block cpu aes) (counters n counter).0) ≡ keystream cpu aes counter n)
unfolding counters advance keystream flatten
counters_lem cpu aes zero c = (refl, refl, refl)
counters_lem cpu aes (suc n) c =
    let ih = counters_lem cpu aes n (increment_counter c) in
    (ih.0, ap suc ih.1, ap (◌++◌ (encrypt_block cpu aes c)) ih.2)
