-- ===== src/Ghash/Bulk/Stitch.antt =====
-- A stitched loop against its two passes done one after the other: counter mode over the whole
-- region, then GHASH over its ciphertext, eight blocks to a reduction.
use hardware_rust_crypto.Prelude.{
  ℕ, zero, suc, ◌*◌, ◌/◌, ◌≡◌, refl, sym, ap, ap₂, ◌∙◌, Bool, true, false, List, [], ◌∷◌, ◌++◌, map,
  foldl, flatten, reverse, append-nil, append_assoc, length, take, drop, runs, length-take,
  length-drop, take-append-drop, take-append, drop-append, IsBytes, IsBytes-take, IsBytes-drop,
  xor_bytes, if◌then◌else◌, arith,
}
use hardware_rust_crypto.Cpu.{Cpu, storeu}
use hardware_rust_crypto.Aes.{Aes256, interleaved}
use hardware_rust_crypto.Aes.Lanes.{interleaved-eq-map, length-interleaved}
use hardware_rust_crypto.Gcm.Keystream.{
  advance, keystream, under, under-append, length-under, advance-add,
}
use hardware_rust_crypto.Ghash.Backend.{Backend, ghash8_regs, update_blocks8}
use hardware_rust_crypto.Ghash.Hasher.{absorb_octet}
use hardware_rust_crypto.Ghash.Bulk.{
  Batch, Loop, Pass, counters, stitch, stitch_all, bulk_rounds, bulk,
}
use hardware_rust_crypto.Ghash.Bulk.Lanes.{LanesLaw, ciphertext_of, entered, counters_lem}

-- The accumulator once the batch that waits is hashed.
abbrev pub settle : List ℕ → Loop → ℕ
settle h s = if s.have_prev then ghash8_regs s.y h s.prev else s.y

abbrev pub with_y : List ℕ → ℕ → Backend
with_y h y = record { h_pows = h; y = y }

-- Eight blocks in registers, and the same blocks in memory.
octet_regs :
    (h : List ℕ) (y : ℕ) (octet : List ℕ)
    → with_y h (ghash8_regs y h (map entered (runs 8 16 octet)))
      ≡ absorb_octet reverse (with_y h y) octet
unfolding ghash8_regs absorb_octet update_blocks8
octet_regs h y octet = refl

pub Pass-ext : {a b : Pass} → a.backend ≡ b.backend → a.counter ≡ b.counter → a.out ≡ b.out → a ≡ b
Pass-ext p q r = λ i. record { backend = p i; counter = q i; out = r i }

-- The ciphertext of a region, cut after the first batch.
ciphertext_runs :
    (sealing : Bool) (k : ℕ) (input w₁ w₂ : List ℕ)
    → length w₁ ≡ 128
    → runs (suc k) 128 (ciphertext_of sealing input (w₁ ++ w₂))
      ≡ ciphertext_of sealing (take 128 input) w₁
        ∷ runs k 128 (ciphertext_of sealing (drop 128 input) w₂)
unfolding runs
ciphertext_runs true k input w₁ w₂ h =
    ap₂ ◌∷◌ (take-append 128 w₁ w₂ h) (ap (runs k 128) (drop-append 128 w₁ w₂ h))
ciphertext_runs false k input w₁ w₂ h = refl

-- The first batch and the others.
under_split :
    (cpu : Cpu) (aes : Aes256) (counter input : List ℕ) (k : ℕ)
    → length input ≡ suc k * 128
    → under cpu aes counter input (suc k * 8)
      ≡ under cpu aes counter (take 128 input) 8
        ++ under cpu aes (advance 8 counter) (drop 128 input) (k * 8)
under_split cpu aes c input k e =
    ap (λ t. under cpu aes c t (suc k * 8)) (sym (take-append-drop 128 input))
    ∙ under-append cpu aes c (take 128 input) (drop 128 input) 8 (k * 8) (suc k * 8)
        (omega (arith, length-take 128 input)) (omega arith)

module _ (cpu : Cpu) (aes : Aes256) (sealing : Bool) (lanes : List ℕ → List (List ℕ) → Batch)
    (law : LanesLaw sealing lanes) (h : List ℕ) where
  abbrev step : Loop → List ℕ → Loop
  step = stitch cpu lanes h aes.round_keys

  abbrev steps : Loop → List (List ℕ) → Loop
  steps = stitch_all cpu lanes h aes.round_keys

  stitch_lem :
      (s : Loop) (batch : List ℕ)
      → length batch ≡ 128
      → IsBytes batch
      → let w = under cpu aes s.counter batch 8 in
        ((step s batch).counter ≡ advance 8 s.counter)
        × ((step s batch).out ≡ s.out ++ w)
        × (with_y h (settle h (step s batch))
            ≡ absorb_octet reverse (with_y h (settle h s)) (ciphertext_of sealing batch w))
  unfolding stitch
  stitch_lem s batch hb q =
      let ctr = (counters 8 s.counter).0 in
      let c = counters_lem cpu aes 8 s.counter in
      let state = interleaved cpu aes.round_keys ctr in
      let stream : flatten (map storeu state) ≡ keystream cpu aes s.counter 8 =
        ap flatten (interleaved-eq-map cpu aes ctr) ∙ c.2 in
      let l = law 8 state batch (length-interleaved cpu aes.round_keys ctr ∙ c.1) hb q in
      let w : (lanes state (runs 8 16 batch)).written ≡ under cpu aes s.counter batch 8 =
        l.0 ∙ ap (xor_bytes batch) stream in
      (
        c.0,
        ap (◌++◌ s.out) w,
        ap (λ t. with_y h (ghash8_regs (settle h s) h t)) l.1
            ∙ octet_regs h (settle h s) _
            ∙ ap (λ t. absorb_octet reverse (with_y h (settle h s)) (ciphertext_of sealing batch t))
                w,
      )

  stitch_all_lem :
      (k : ℕ) (s : Loop) (input : List ℕ)
      → length input ≡ k * 128
      → IsBytes input
      → let w = under cpu aes s.counter input (k * 8) in
        let end = steps s (runs k 128 input) in
        (end.counter ≡ advance (k * 8) s.counter)
        × (end.out ≡ s.out ++ w)
        × (with_y h (settle h end)
            ≡ foldl
                (absorb_octet reverse)
                (with_y h (settle h s))
                (runs k 128 (ciphertext_of sealing input w)))
  unfolding stitch_all runs advance xor_bytes
  stitch_all_lem zero s [] e q = (refl, sym (append-nil s.out), refl)
  stitch_all_lem zero s (x ∷ input) e q = absurd (omega arith)
  stitch_all_lem (suc k) s input e q =
      let first = take 128 input in
      let rest = drop 128 input in
      let w₁ = under cpu aes s.counter first 8 in
      let w₂ = under cpu aes (advance 8 s.counter) rest (k * 8) in
      let hw : length w₁ ≡ 128 = length-under cpu aes s.counter first 8 ∙ first_len in
      let l = stitch_lem s first first_len (IsBytes-take 128 input q) in
      let ih =
        stitch_all_lem k (step s first) rest (omega (arith, length-drop 128 input))
          (IsBytes-drop 128 input q) in
      let same : under cpu aes (step s first).counter rest (k * 8) ≡ w₂ =
        ap (λ c. under cpu aes c rest (k * 8)) l.0 in
      let whole = under_split cpu aes s.counter input k e in
      (
        ih.0
            ∙ ap (advance (k * 8)) l.0
            ∙ sym (advance-add 8 (k * 8) (suc k * 8) s.counter (omega arith)),
        ih.1 ∙ ap₂ ◌++◌ l.1 same ∙ append_assoc s.out w₁ w₂ ∙ ap (◌++◌ s.out) (sym whole),
        ih.2
            ∙ ap₂ (foldl (absorb_octet reverse)) l.2
                (ap (λ t. runs k 128 (ciphertext_of sealing rest t)) same)
            ∙ ap (foldl (absorb_octet reverse) (with_y h (settle h s))) (
                sym (ciphertext_runs sealing k input w₁ w₂ hw)
                ∙ ap (λ t. runs (suc k) 128 (ciphertext_of sealing input t)) (sym whole)),
      )
    where
      first_len : length (take 128 input) ≡ 128
      first_len = omega (arith, length-take 128 input)

  -- After a batch there is one that waits.
  waits : (s : Loop) (b : List ℕ) (bs : List (List ℕ)) → (steps s (b ∷ bs)).have_prev ≡ true
  unfolding stitch_all stitch
  waits s b [] = refl
  waits s b (b' ∷ bs) = waits (step s b) b' bs

-- What the two passes leave behind.
abbrev pub two_passes : Cpu → Aes256 → Bool → Backend → List ℕ → List ℕ → ℕ → Pass
two_passes cpu aes sealing b counter input m =
    let w = under cpu aes counter input (m * 8) in
    record {
      backend = foldl (absorb_octet reverse) b (runs m 128 (ciphertext_of sealing input w));
      counter = advance (m * 8) counter;
      out = w;
    }

module _ (cpu : Cpu) (aes : Aes256) (sealing : Bool) (lanes : List ℕ → List (List ℕ) → Batch)
    (law : LanesLaw sealing lanes) where
  bulk_rounds_lem :
      (b : Backend) (counter input : List ℕ) (m : ℕ)
      → length input ≡ m * 128
      → IsBytes input
      → bulk_rounds cpu lanes b aes.round_keys counter input m
        ≡ two_passes cpu aes sealing b counter input m
  unfolding bulk_rounds runs advance xor_bytes
  bulk_rounds_lem b c [] zero e q = refl
  bulk_rounds_lem b c (x ∷ input) zero e q = absurd (omega arith)
  bulk_rounds_lem b c input (suc k) e q =
      let h = b.h_pows in
      let start : Loop = record {
        y = b.y;
        counter = c;
        prev = 0 ∷ 0 ∷ 0 ∷ 0 ∷ 0 ∷ 0 ∷ 0 ∷ 0 ∷ [];
        have_prev = false;
        out = [];
      } in
      let end = stitch_all cpu lanes h aes.round_keys start (runs (suc k) 128 input) in
      let l = stitch_all_lem cpu aes sealing lanes law h (suc k) start input e q in
      let last =
        waits cpu aes sealing lanes law h start (take 128 input) (runs k 128 (drop 128 input)) in
      Pass-ext
        (ap (λ t. with_y h (if t then ghash8_regs end.y h end.prev else end.y)) (sym last) ∙ l.2)
        l.0 l.1

  -- The pipelined loop over whole batches gives the output, the counter and the accumulator of the
  -- two passes.
  pub bulk_lem :
      (b : Backend) (counter input : List ℕ) (m : ℕ)
      → length input ≡ m * 128
      → IsBytes input
      → bulk cpu lanes b aes.round_keys counter input ≡ two_passes cpu aes sealing b counter input m
  unfolding bulk
  bulk_lem b c input m e q =
      let rounds : length input / 128 ≡ m = omega arith in
      ap (bulk_rounds cpu lanes b aes.round_keys c input) rounds ∙ bulk_rounds_lem b c input m e q
