-- ===== src/Gcm/Seal/Serial.antt =====
-- `apply_ctr_serial` against the key stream.
use hardware_rust_crypto.Prelude.{
  ℕ, zero, suc, ◌+◌, ◌*◌, ◌/◌, ◌<◌, ◌≡◌, refl, sym, ap, ap₂, subst, ◌∙◌, List, [], ◌∷◌, ◌++◌,
  append-nil, append_assoc, flatten, length, drop, runs, leftover, chunks, EachLen, runs-EachLen,
  length-runs, flatten-runs, length-drop, length-flatten, xor_bytes, xor_bytes-append, arith,
}
use hardware_rust_crypto.Cpu.{Cpu}
use hardware_rust_crypto.Aes.{encrypt_block}
use hardware_rust_crypto.Gcm.Counter.{increment_counter}
use hardware_rust_crypto.Gcm.Keystream.{
  advance, keystream, blocks_in, length-encrypt_block, length-keystream, keystream-add, advance-add,
}
use hardware_rust_crypto.Gcm.Seal.{KeyState, Ctr, ctr_blocks, apply_ctr_serial}

Ctr-ext : {a b : Ctr} → a.counter ≡ b.counter → a.out ≡ b.out → a ≡ b
Ctr-ext p q = λ i. record { counter = p i; out = q i }

module _ (cpu : Cpu) (st : KeyState) where
  abbrev pub ctr_done : List ℕ → ℕ → List ℕ → Ctr
  ctr_done counter n input = record {
    counter = advance n counter;
    out = xor_bytes input (keystream cpu st.aes counter n);
  }

  ctr_blocks_full :
      (counter : List ℕ) (bs : List (List ℕ)) (n : ℕ)
      → length bs ≡ n
      → EachLen 16 bs
      → ctr_blocks cpu st counter bs ≡ ctr_done counter n (flatten bs)
  unfolding ctr_blocks advance keystream xor_bytes flatten
  ctr_blocks_full c [] zero e h = refl
  ctr_blocks_full c [] (suc n) e h = absurd (omega arith)
  ctr_blocks_full c (b ∷ bs) zero e h = absurd (omega arith)
  ctr_blocks_full c (b ∷ bs) (suc n) e h =
      let ks = encrypt_block cpu st.aes c in
      let ih = ctr_blocks_full (increment_counter c) bs n (omega arith) h.1 in
      Ctr-ext (ap (λ (t : Ctr). t.counter) ih) (
        ap (λ (t : Ctr). xor_bytes b ks ++ t.out) ih
        ∙ sym (
            xor_bytes-append b (flatten bs) ks (keystream cpu st.aes (increment_counter c) n)
              (h.0 ∙ sym (length-encrypt_block cpu st.aes c))))

  ctr_blocks-append :
      (counter : List ℕ) (bs cs : List (List ℕ)) (n : ℕ)
      → length bs ≡ n
      → ctr_blocks cpu st counter (bs ++ cs) ≡ (
          let rest = ctr_blocks cpu st (advance n counter) cs in
          record { counter = rest.counter; out = (ctr_blocks cpu st counter bs).out ++ rest.out })
  unfolding ctr_blocks advance
  ctr_blocks-append c [] cs zero e = refl
  ctr_blocks-append c [] cs (suc n) e = absurd (omega arith)
  ctr_blocks-append c (b ∷ bs) cs zero e = absurd (omega arith)
  ctr_blocks-append c (b ∷ bs) cs (suc n) e =
      let c' = increment_counter c in
      let first = xor_bytes b (encrypt_block cpu st.aes c) in
      let ih = ctr_blocks-append c' bs cs n (omega arith) in
      Ctr-ext (ap (λ (t : Ctr). t.counter) ih) (
        ap (λ (t : Ctr). first ++ t.out) ih
        ∙ sym (
            append_assoc first (ctr_blocks cpu st c' bs).out
              (ctr_blocks cpu st (advance n c') cs).out))

  -- The last chunk, full or not.
  ctr_blocks-leftover :
      (counter rest : List ℕ)
      → length rest < 16
      → ctr_blocks cpu st counter (leftover rest) ≡ ctr_done counter (blocks_in (length rest)) rest
  unfolding ctr_blocks advance keystream xor_bytes
  ctr_blocks-leftover c [] h = refl
  ctr_blocks-leftover c (x ∷ xs) h =
      let one : 1 ≡ blocks_in (suc (length xs)) = omega arith in
      let ks = encrypt_block cpu st.aes c in
      subst (λ n. ctr_blocks cpu st c ((x ∷ xs) ∷ []) ≡ ctr_done c n (x ∷ xs)) one
        (Ctr-ext refl
          (append-nil (xor_bytes (x ∷ xs) ks) ∙ ap (xor_bytes (x ∷ xs)) (sym (append-nil ks))))

  -- The block loop writes the message under the key stream from its counter, and leaves the
  -- counter behind the last block, also where that block is partial.
  pub apply_ctr_serial_lem :
      (counter input : List ℕ)
      → apply_ctr_serial cpu st counter input ≡ ctr_done counter (blocks_in (length input)) input
  unfolding apply_ctr_serial chunks
  apply_ctr_serial_lem c xs =
      let n = length xs / 16 in
      let full = runs n 16 xs in
      let rest = drop (n * 16) xs in
      let k = blocks_in (length rest) in
      let short : length rest < 16 = omega (arith, length-drop (n * 16) xs) in
      let total : n + k ≡ blocks_in (length xs) = omega (arith, length-drop (n * 16) xs) in
      let each : EachLen 16 full = runs-EachLen n 16 xs (omega arith) in
      let tail = ctr_blocks-leftover (advance n c) rest short in
      let body = ctr_blocks_full c full n (length-runs n 16 xs) each in
      let same : length (flatten full) ≡ length (keystream cpu st.aes c n) =
        length-flatten 16 n full (length-runs n 16 xs) each
        ∙ sym (length-keystream cpu st.aes c n) in
      ctr_blocks-append c full (leftover rest) n (length-runs n 16 xs)
      ∙ Ctr-ext
          (ap (λ (t : Ctr). t.counter) tail ∙ sym (advance-add n k (blocks_in (length xs)) c total))
          (ap₂ ◌++◌ (ap (λ (t : Ctr). t.out) body) (ap (λ (t : Ctr). t.out) tail)
            ∙ sym (
                xor_bytes-append (flatten full) rest (keystream cpu st.aes c n)
                  (keystream cpu st.aes (advance n c) k) same)
            ∙ ap₂ xor_bytes (flatten-runs n 16 (n * 16) xs refl)
                (sym (keystream-add cpu st.aes c n k (blocks_in (length xs)) total)))
