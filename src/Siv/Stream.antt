-- ===== src/Siv/Stream.antt =====
-- `ctr_apply` of src/aes_gcm/siv.rs against a key stream.
use hardware_rust_crypto.Prelude.{
  ℕ, zero, suc, ◌*◌, ◌/◌, ◌≤◌, ◌<◌, ◌≡◌, refl, sym, ap, ap₂, ◌∙◌, List, [], ◌∷◌, ◌++◌, append-nil,
  map, flatten, length, take, drop, runs, leftover, chunks, EachLen, runs-EachLen, length-runs,
  runs-append, flatten-runs, flatten-append_runs, length-append, length-take, length-drop,
  take-append-drop, xor_bytes, xor_bytes-append, xor_bytes_cancel, length-xor_bytes, arith,
}
use hardware_rust_crypto.Cpu.{Cpu}
use hardware_rust_crypto.Aes.{Aes256, encrypt_block}
use hardware_rust_crypto.Aes.Lanes.{encrypt8-eq-map}
use hardware_rust_crypto.Gcm.Keystream.{blocks_in, length-encrypt_block}
use hardware_rust_crypto.Gcm.Seal.{Ctr}
use hardware_rust_crypto.Siv.Message.{
  increment_siv_counter, siv_counters, xor_blocks, ctr_batches, ctr_singles, ctr_apply,
}
use hardware_rust_crypto.Siv.Keystream.{
  siv_advance, siv_advance-add, siv_stream, siv_under, siv_under-append,
}

-- All blocks full but the last, which is no longer.
abbrev Blocks : List (List ℕ) → Type 0
Blocks [] = Unit {0}
Blocks (b ∷ []) = length b ≤ 16
Blocks (b ∷ b' ∷ bs) = (length b ≡ 16) × Blocks (b' ∷ bs)

Blocks-append :
    (full : List (List ℕ)) (rest : List ℕ)
    → EachLen 16 full
    → length rest < 16
    → Blocks (full ++ leftover rest)
Blocks-append [] [] h k = tt
Blocks-append [] (x ∷ rest) h k = omega arith
Blocks-append (b ∷ []) [] h k = omega (arith, h.0)
Blocks-append (b ∷ []) (x ∷ rest) h k = (h.0, omega arith)
Blocks-append (b ∷ b' ∷ full) rest h k = (h.0, Blocks-append (b' ∷ full) rest h.1 k)

length-leftover : (ys : List ℕ) → length ys < 16 → length (leftover ys) ≡ blocks_in (length ys)
length-leftover [] h = refl
length-leftover (y ∷ ys) h = omega arith

module _ (cpu : Cpu) (cipher : Aes256) where
  ctr_singles_out :
      (c : List ℕ) (bs : List (List ℕ))
      → Blocks bs
      → (ctr_singles cpu cipher c bs).out ≡ siv_under cpu cipher c (flatten bs) (length bs)
  unfolding ctr_singles siv_stream xor_bytes flatten
  ctr_singles_out c [] h = refl
  ctr_singles_out c (b ∷ []) h =
      let ks = encrypt_block cpu cipher c in
      append-nil (xor_bytes b ks) ∙ ap₂ xor_bytes (sym (append-nil b)) (sym (append-nil ks))
  ctr_singles_out c (b ∷ b' ∷ bs) h =
      let ks = encrypt_block cpu cipher c in
      let c' = increment_siv_counter c in
      ap (◌++◌ (xor_bytes b ks)) (ctr_singles_out c' (b' ∷ bs) h.1)
      ∙ sym (
          xor_bytes-append b (flatten (b' ∷ bs)) ks (siv_stream cpu cipher c' (length (b' ∷ bs)))
            (h.0 ∙ sym (length-encrypt_block cpu cipher c)))

  ctr_singles_lem :
      (c xs : List ℕ)
      → (ctr_singles cpu cipher c (chunks 16 xs)).out
        ≡ siv_under cpu cipher c xs (blocks_in (length xs))
  unfolding chunks
  ctr_singles_lem c xs =
      let n = length xs / 16 in
      let full = runs n 16 xs in
      let rest = drop (n * 16) xs in
      let short : length rest < 16 = omega (arith, length-drop (n * 16) xs) in
      let whole : flatten (full ++ leftover rest) ≡ xs =
        flatten-append_runs full (leftover rest)
        ∙ ap (◌++◌ (flatten full)) (flatten-leftover rest)
        ∙ flatten-runs n 16 (n * 16) xs refl in
      let count : length (full ++ leftover rest) ≡ blocks_in (length xs) = omega (
        arith,
        length-append full (leftover rest),
        length-runs n 16 xs,
        length-leftover rest short,
        length-drop (n * 16) xs,
      ) in
      ctr_singles_out c (full ++ leftover rest)
        (Blocks-append full rest (runs-EachLen n 16 xs (omega arith)) short)
      ∙ ap₂ (siv_under cpu cipher c) whole count
    where
      flatten-leftover : (ys : List ℕ) → flatten (leftover ys) ≡ ys
      flatten-leftover [] = unfold flatten in refl
      flatten-leftover (y ∷ ys) = unfold flatten in append-nil (y ∷ ys)

  siv_counters_lem :
      (n : ℕ) (c : List ℕ)
      → ((siv_counters n c).1 ≡ siv_advance n c)
        × (length (siv_counters n c).0 ≡ n)
        × (flatten (map (encrypt_block cpu cipher) (siv_counters n c).0)
            ≡ siv_stream cpu cipher c n)
  unfolding siv_counters siv_advance siv_stream flatten
  siv_counters_lem zero c = (refl, refl, refl)
  siv_counters_lem (suc n) c =
      let ih = siv_counters_lem n (increment_siv_counter c) in
      (ih.0, ap suc ih.1, ap (◌++◌ (encrypt_block cpu cipher c)) ih.2)

  xor_blocks-runs :
      (counters : List (List ℕ)) (n : ℕ) (batch : List ℕ)
      → length counters ≡ n
      → length batch ≡ n * 16
      → xor_blocks (map (encrypt_block cpu cipher) counters) (runs n 16 batch)
        ≡ xor_bytes batch (flatten (map (encrypt_block cpu cipher) counters))
  unfolding xor_blocks runs flatten xor_bytes
  xor_blocks-runs [] zero [] e h = refl
  xor_blocks-runs [] zero (x ∷ batch) e h = absurd (omega arith)
  xor_blocks-runs [] (suc n) batch e h = absurd (omega arith)
  xor_blocks-runs (c ∷ cs) zero batch e h = absurd (omega arith)
  xor_blocks-runs (c ∷ cs) (suc n) batch e h =
      let ks = encrypt_block cpu cipher c in
      let more = flatten (map (encrypt_block cpu cipher) cs) in
      ap (◌++◌ (xor_bytes (take 16 batch) ks))
        (xor_blocks-runs cs n (drop 16 batch) (omega arith) (omega (arith, length-drop 16 batch)))
      ∙ sym (
          xor_bytes-append (take 16 batch) (drop 16 batch) ks more
            (omega (arith, length-take 16 batch, length-encrypt_block cpu cipher c)))
      ∙ ap (λ t. xor_bytes t (ks ++ more)) (take-append-drop 16 batch)

  ctr_batches_lem :
      (m : ℕ) (c xs : List ℕ)
      → length xs ≡ m * 128
      → ((ctr_batches cpu cipher c (runs m 128 xs)).counter ≡ siv_advance (m * 8) c)
        × ((ctr_batches cpu cipher c (runs m 128 xs)).out ≡ siv_under cpu cipher c xs (m * 8))
  unfolding ctr_batches runs xor_bytes siv_advance
  ctr_batches_lem zero c [] e = (refl, refl)
  ctr_batches_lem zero c (x ∷ xs) e = absurd (omega arith)
  ctr_batches_lem (suc m) c xs e =
      let first = take 128 xs in
      let rest = drop 128 xs in
      let counted = siv_counters_lem 8 c in
      let c' = (siv_counters 8 c).1 in
      let ih = ctr_batches_lem m c' rest (omega (arith, length-drop 128 xs)) in
      let first_len : length first ≡ 8 * 16 = omega (arith, length-take 128 xs) in
      (
        ih.0
            ∙ ap (siv_advance (m * 8)) counted.0
            ∙ sym (siv_advance-add 8 (m * 8) (suc m * 8) c (omega arith)),
        ap₂ ◌++◌
              (ap (λ ks. xor_blocks ks (runs 8 16 first))
                  (encrypt8-eq-map cpu cipher (siv_counters 8 c).0)
                ∙ xor_blocks-runs (siv_counters 8 c).0 8 first counted.1 first_len
                ∙ ap (xor_bytes first) counted.2)
              (ih.1 ∙ ap (λ d. siv_under cpu cipher d rest (m * 8)) counted.0)
            ∙ sym (
                siv_under-append cpu cipher c first rest 8 (m * 8) (suc m * 8) first_len
                  (omega arith))
            ∙ ap (λ t. siv_under cpu cipher c t (suc m * 8)) (take-append-drop 128 xs),
      )

  -- Counter mode of GCM-SIV, eight blocks at a time and then block by block, writes the text under
  -- the key stream of successive counter blocks, whatever its length.
  pub ctr_apply_lem :
      (c xs : List ℕ)
      → (ctr_apply cpu cipher c xs).out ≡ siv_under cpu cipher c xs (blocks_in (length xs))
  unfolding ctr_apply
  ctr_apply_lem c xs =
      let n = length xs / 128 in
      let region = take (n * 128) xs in
      let rest = drop (n * 128) xs in
      let len : length region ≡ n * 128 = omega (arith, length-take (n * 128) xs) in
      let bulk = ctr_batches_lem n c region len in
      let same : runs n 128 xs ≡ runs n 128 region =
        ap (runs n 128) (sym (take-append-drop (n * 128) xs))
        ∙ runs-append n 128 region rest (omega (arith, len)) in
      ap (λ (r : Ctr). r.out ++ (ctr_singles cpu cipher r.counter (chunks 16 rest)).out)
        (ap (ctr_batches cpu cipher c) same)
      ∙ ap₂ ◌++◌ bulk.1 (
          ap (λ d. (ctr_singles cpu cipher d (chunks 16 rest)).out) bulk.0
          ∙ ctr_singles_lem (siv_advance (n * 8) c) rest)
      ∙ sym (
          siv_under-append cpu cipher c region rest (n * 8) (blocks_in (length rest))
            (blocks_in (length xs)) (omega (arith, len)) (omega (arith, length-drop (n * 128) xs)))
      ∙ ap (λ t. siv_under cpu cipher c t (blocks_in (length xs))) (take-append-drop (n * 128) xs)

  -- Applied twice from one counter it gives the text back.
  pub ctr_apply-ctr_apply :
      (c xs : List ℕ) → (ctr_apply cpu cipher c (ctr_apply cpu cipher c xs).out).out ≡ xs
  ctr_apply-ctr_apply c xs =
      let n = blocks_in (length xs) in
      let once = ctr_apply_lem c xs in
      ap (λ t. (ctr_apply cpu cipher c t).out) once
      ∙ ctr_apply_lem c (siv_under cpu cipher c xs n)
      ∙ ap (λ t. siv_under cpu cipher c (siv_under cpu cipher c xs n) (blocks_in t))
          (length-xor_bytes xs (siv_stream cpu cipher c n))
      ∙ xor_bytes_cancel xs (siv_stream cpu cipher c n)
