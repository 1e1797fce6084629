-- ===== src/Gcm/Seal/Reference.antt =====
-- The fused passes of `KeyState` against AES-GCM as two passes: the text under the key stream from
-- the counter behind `J0`, then GHASH over AAD and ciphertext.
use hardware_rust_crypto.Prelude.{
  ℕ, zero, suc, ◌*◌, ◌/◌, ◌<◌, ◌≡◌, refl, sym, ap, ◌∙◌, Bool, true, false, List, [], ◌∷◌, ◌++◌,
  append-nil, append_assoc, reverse, length, take, drop, runs, nonempty, length-take, length-drop,
  take-append-drop, IsBytes, IsBytes-take, xor_bytes, length-append, if◌then◌else◌, arith,
}
use hardware_rust_crypto.Cpu.{Cpu}
use hardware_rust_crypto.Aes.{Aes256}
use hardware_rust_crypto.Gcm.Keystream.{advance, under, under-append, length-under, blocks_in}
use hardware_rust_crypto.Ghash.Backend.{Backend}
use hardware_rust_crypto.Ghash.Hasher.{Ghasher, absorb_padded, absorb_padded_by}
use hardware_rust_crypto.Ghash.Hasher.Sections.{
  absorb_padded_by-append, absorb_padded_by_short, absorb_padded_by_partial, absorb_padded_by-nil,
  below_octets,
}
use hardware_rust_crypto.Ghash.Bulk.{Pass, seal_in_place_tail_blocks}
use hardware_rust_crypto.Ghash.Bulk.Lanes.{ciphertext_of}
use hardware_rust_crypto.Ghash.Bulk.Stitch.{two_passes}
use hardware_rust_crypto.Ghash.Bulk.Tail.{tail_lem}
use hardware_rust_crypto.Gcm.Seal.{
  KeyState, Ctr, bulk_unless_empty, seal_tail, seal_in_place_tail, open_tail,
}
use hardware_rust_crypto.Gcm.Seal.Serial.{apply_ctr_serial_lem}

-- The hasher over a whole ciphertext, and the text that the pass writes.
abbrev pub hashed_and_written : Cpu → Aes256 → Bool → Backend → List ℕ → List ℕ → Ghasher × List ℕ
hashed_and_written cpu aes sealing b counter input =
    let w = under cpu aes counter input (blocks_in (length input)) in
    (record { backend = absorb_padded_by reverse b (ciphertext_of sealing input w) }, w)

module _ (cpu : Cpu) (st : KeyState) where
  -- What a tail leaves behind, after a pass that has written `pass.out`.
  abbrev pub tail_done : Bool → Pass → List ℕ → Ghasher × List ℕ
  tail_done sealing pass tail =
      let r = hashed_and_written cpu st.aes sealing pass.backend pass.counter tail in
      (r.0, pass.out ++ r.1)

  pub seal_tail_lem :
      (pass : Pass) (tail : List ℕ) → seal_tail cpu st pass tail ≡ tail_done true pass tail
  unfolding seal_tail absorb_padded xor_bytes
  seal_tail_lem pass [] = λ i. (
    record { backend = sym (absorb_padded_by-nil reverse pass.backend) i },
    sym (append-nil pass.out) i,
  )
  seal_tail_lem pass (x ∷ tail) =
      ap (λ (t : Ctr). (absorb_padded (record { backend = pass.backend }) t.out, pass.out ++ t.out))
        (apply_ctr_serial_lem cpu st pass.counter (x ∷ tail))

  pub open_tail_lem :
      (pass : Pass) (tail : List ℕ) → open_tail cpu st pass tail ≡ tail_done false pass tail
  unfolding open_tail absorb_padded xor_bytes
  open_tail_lem pass [] = λ i. (
    record { backend = sym (absorb_padded_by-nil reverse pass.backend) i },
    sym (append-nil pass.out) i,
  )
  open_tail_lem pass (x ∷ tail) =
      ap
        (λ (t : Ctr).
          (absorb_padded (record { backend = pass.backend }) (x ∷ tail), pass.out ++ t.out))
        (apply_ctr_serial_lem cpu st pass.counter (x ∷ tail))

-- The ciphertext of a text in two parts.
ciphertext_of-append :
    (sealing : Bool) (xs ys ws vs : List ℕ)
    → ciphertext_of sealing (xs ++ ys) (ws ++ vs)
      ≡ ciphertext_of sealing xs ws ++ ciphertext_of sealing ys vs
ciphertext_of-append true xs ys ws vs = refl
ciphertext_of-append false xs ys ws vs = refl

length-ciphertext_of :
    (sealing : Bool) (xs ws : List ℕ) {n : ℕ}
    → length xs ≡ n
    → length ws ≡ length xs
    → length (ciphertext_of sealing xs ws) ≡ n
length-ciphertext_of true xs ws p q = q ∙ p
length-ciphertext_of false xs ws p q = p

module _ (cpu : Cpu) (st : KeyState) (sealing : Bool) (b : Backend) (counter : List ℕ) where
  -- A region of whole batches and what comes after it.
  region_then_tail :
      (m : ℕ) (region tail : List ℕ)
      → length region ≡ m * 128
      → tail_done cpu st sealing (two_passes cpu st.aes sealing b counter region m) tail
        ≡ hashed_and_written cpu st.aes sealing b counter (region ++ tail)
  region_then_tail m region tail e =
      let n = blocks_in (length tail) in
      let w₁ = under cpu st.aes counter region (m * 8) in
      let w₂ = under cpu st.aes (advance (m * 8) counter) tail n in
      let c₁ = ciphertext_of sealing region w₁ in
      let whole : under cpu st.aes counter (region ++ tail) (blocks_in (length (region ++ tail)))
          ≡ w₁ ++ w₂ =
        under-append cpu st.aes counter region tail (m * 8) n _ (omega arith)
          (omega (arith, length-append region tail)) in
      let hash = sym (
        ap (absorb_padded_by reverse b) (
          ap (ciphertext_of sealing (region ++ tail)) whole
          ∙ ciphertext_of-append sealing region tail w₁ w₂)
        ∙ absorb_padded_by-append reverse b m c₁ (ciphertext_of sealing tail w₂) (
            length-ciphertext_of sealing region w₁ e
              (length-under cpu st.aes counter region (m * 8)))) in
      λ i. (record { backend = hash i }, sym whole i)

  -- The bulk pass, or its omission on an empty region.
  bulk_unless_empty_lem :
      (run : List ℕ → Pass) (m : ℕ) (region : List ℕ)
      → length region ≡ m * 128
      → run region ≡ two_passes cpu st.aes sealing b counter region m
      → bulk_unless_empty cpu st run (record { backend = b }) counter region
        ≡ two_passes cpu st.aes sealing b counter region m
  unfolding bulk_unless_empty runs advance xor_bytes
  bulk_unless_empty_lem run zero [] e law =
      elim sealing
        as (λ s.
          record { backend = b; counter = counter; out = [] }
          ≡ two_passes cpu st.aes s b counter [] 0) [ true ↦ refl | false ↦ refl ]
  bulk_unless_empty_lem run (suc m) [] e law = absurd (omega arith)
  bulk_unless_empty_lem run m (x ∷ region) e law = law

-- The bulk part of a message.
abbrev pub bulk_part : List ℕ → List ℕ
bulk_part input = take (length input / (8 * 16) * (8 * 16)) input

abbrev pub tail_part : List ℕ → List ℕ
tail_part input = drop (length input / (8 * 16) * (8 * 16)) input

length-bulk_part : (input : List ℕ) → length (bulk_part input) ≡ length input / 128 * 128
length-bulk_part input = omega (arith, length-take (length input / 128 * 128) input)

module _ (cpu : Cpu) (st : KeyState) (b : Backend) (counter : List ℕ) where
  -- Each fused pass, from a counter and a backend that has taken the AAD.
  pub fused_lem :
      (sealing : Bool) (run : List ℕ → Pass) (finish : Pass → List ℕ → Ghasher × List ℕ)
      (input : List ℕ)
      → IsBytes input
      → ((m : ℕ) (region : List ℕ)
          → length region ≡ m * 128
          → IsBytes region
          → run region ≡ two_passes cpu st.aes sealing b counter region m)
      → ((pass : Pass)
          → finish pass (tail_part input) ≡ tail_done cpu st sealing pass (tail_part input))
      → finish
          (bulk_unless_empty cpu st run (record { backend = b }) counter (bulk_part input))
          (tail_part input)
        ≡ hashed_and_written cpu st.aes sealing b counter input
  fused_lem sealing run finish input q law ends =
      let m = length input / 128 in
      let region = bulk_part input in
      let e = length-bulk_part input in
      ap (λ t. finish t (tail_part input))
        (bulk_unless_empty_lem cpu st sealing b counter run m region e
          (law m region e (IsBytes-take (m * 128) input q)))
      ∙ ends (two_passes cpu st.aes sealing b counter region m)
      ∙ region_then_tail cpu st sealing b counter m region (tail_part input) e
      ∙ ap (hashed_and_written cpu st.aes sealing b counter) (take-append-drop (m * 128) input)

module _ (cpu : Cpu) (st : KeyState) where
  -- A pass after the full blocks of a tail.
  abbrev pub blocks_done : Pass → List ℕ → ℕ → Pass
  blocks_done pass blocks f =
      let w = under cpu st.aes pass.counter blocks f in
      record {
        backend = below_octets reverse pass.backend w;
        counter = advance f pass.counter;
        out = pass.out ++ w;
      }

  blocks_unless_empty :
      (pass joined : Pass) (blocks : List ℕ) (f : ℕ)
      → length blocks ≡ f * 16
      → joined ≡ blocks_done pass blocks f
      → (if nonempty blocks then joined else pass) ≡ blocks_done pass blocks f
  unfolding runs advance xor_bytes
  blocks_unless_empty pass joined [] zero e law = λ i. record {
    backend = pass.backend;
    counter = pass.counter;
    out = sym (append-nil pass.out) i;
  }
  blocks_unless_empty pass joined [] (suc f) e law = absurd (omega arith)
  blocks_unless_empty pass joined (x ∷ blocks) f e law = law

  -- The full blocks and the partial one together.
  blocks_then_part :
      (pass : Pass) (blocks part : List ℕ) (f : ℕ)
      → length blocks ≡ f * 16
      → f < 8
      → length part < 16
      → tail_done cpu st true (blocks_done pass blocks f) part
        ≡ tail_done cpu st true pass (blocks ++ part)
  blocks_then_part pass blocks part f e small short =
      let n = blocks_in (length part) in
      let w₁ = under cpu st.aes pass.counter blocks f in
      let w₂ = under cpu st.aes (advance f pass.counter) part n in
      let len₁ : length w₁ ≡ f * 16 = length-under cpu st.aes pass.counter blocks f ∙ e in
      let len₂ : length w₂ < 16 =
        omega (arith, length-under cpu st.aes (advance f pass.counter) part n) in
      let whole : under cpu st.aes pass.counter (blocks ++ part)
            (blocks_in (length (blocks ++ part)))
          ≡ w₁ ++ w₂ =
        under-append cpu st.aes pass.counter blocks part f n _ e
          (omega (arith, length-append blocks part)) in
      let hash =
        absorb_padded_by_partial reverse (below_octets reverse pass.backend w₁) w₂ len₂
        ∙ sym (absorb_padded_by_short reverse pass.backend f w₁ w₂ len₁ small len₂)
        ∙ ap (absorb_padded_by reverse pass.backend) (sym whole) in
      let out = append_assoc pass.out w₁ w₂ ∙ ap (◌++◌ pass.out) (sym whole) in
      λ i. (record { backend = hash i }, out i)

  -- The stitched tail of the in-place pass and the serial tail agree.
  pub seal_in_place_tail_lem :
      (pass : Pass) (tail : List ℕ)
      → length tail < 128
      → IsBytes tail
      → seal_in_place_tail cpu st pass tail ≡ tail_done cpu st true pass tail
  unfolding seal_in_place_tail absorb_padded xor_bytes
  seal_in_place_tail_lem pass [] h q = λ i. (
    record { backend = sym (absorb_padded_by-nil reverse pass.backend) i },
    sym (append-nil pass.out) i,
  )
  seal_in_place_tail_lem pass (x ∷ xs) h q =
      let tail = x ∷ xs in
      let f = length tail / 16 in
      let blocks = take (f * 16) tail in
      let part = drop (f * 16) tail in
      let e : length blocks ≡ f * 16 = omega (arith, length-take (f * 16) tail) in
      let ran = seal_in_place_tail_blocks cpu pass.backend st.aes.round_keys pass.counter blocks in
      let stitched =
        tail_lem cpu st.aes pass.backend pass.counter blocks f e (IsBytes-take (f * 16) tail q) in
      ap (λ t. seal_tail cpu st t part)
        (blocks_unless_empty pass
          (record { backend = ran.backend; counter = ran.counter; out = pass.out ++ ran.out })
          blocks f e
          (ap
            (λ (t : Pass). record {
              backend = t.backend;
              counter = t.counter;
              out = pass.out ++ t.out;
            })
            stitched))
      ∙ seal_tail_lem cpu st (blocks_done pass blocks f) part
      ∙ blocks_then_part pass blocks part f e (omega arith)
          (omega (arith, length-drop (f * 16) tail))
      ∙ ap (tail_done cpu st true pass) (take-append-drop (f * 16) tail)
