-- ===== src/Ghash/Bulk/Tail.antt =====
-- The stitched tail of `seal_in_place`: quads, then single blocks, against the two passes.
use hardware_rust_crypto.Prelude.{
  ℕ, zero, suc, ◌*◌, ◌/◌, ◌≡◌, refl, sym, ap, ap₂, ◌∙◌, List, [], ◌∷◌, ◌++◌, map, foldl, flatten,
  reverse, append-nil, append_assoc, bit_xor, get_or, length, take, drop, runs, length-take,
  length-drop, take-append-drop, take-append, drop-append, runs-append, IsBytes, IsBytes-take,
  IsBytes-drop, xor_bytes, arith,
}
use hardware_rust_crypto.Cpu.{Cpu, loadu, storeu}
use hardware_rust_crypto.Aes.{Aes256, interleaved, encrypt_block}
use hardware_rust_crypto.Aes.Lanes.{interleaved-eq-map, length-interleaved}
use hardware_rust_crypto.Gcm.Keystream.{
  advance, keystream, under, under-append, length-under, advance-add,
}
use hardware_rust_crypto.Ghash.Backend.{
  Backend, ghash1_reg, ghash4_regs, update_block, update_blocks4,
}
use hardware_rust_crypto.Ghash.Hasher.{absorb_quad, absorb_one}
use hardware_rust_crypto.Ghash.Hasher.Sections.{below_octets, below_octets_parts}
use hardware_rust_crypto.Ghash.Bulk.{
  Pass, counters, seal_lanes, tail_quad, tail_one, seal_in_place_tail_blocks,
}
use hardware_rust_crypto.Ghash.Bulk.Lanes.{
  seal_lanes-LanesLaw, entered, counters_lem, lane, shuffle_epi8-bswap,
}
use hardware_rust_crypto.Ghash.Bulk.Stitch.{Pass-ext}

module _ (cpu : Cpu) (aes : Aes256) where
  -- A run of `n` blocks written under the key stream, its ciphertext absorbed by `absorb`.
  abbrev pub sealed_run : (Backend → List ℕ → Backend) → ℕ → Pass → List ℕ → Pass
  sealed_run absorb n s chunk =
      let w = under cpu aes s.counter chunk n in
      record { backend = absorb s.backend w; counter = advance n s.counter; out = s.out ++ w }

  -- The same for all runs of a region.
  abbrev pub sealed_runs : (Backend → List ℕ → Backend) → ℕ → ℕ → Pass → List ℕ → Pass
  sealed_runs absorb n k s input =
      let w = under cpu aes s.counter input (k * n) in
      record {
        backend = foldl absorb s.backend (runs k (n * 16) w);
        counter = advance (k * n) s.counter;
        out = s.out ++ w;
      }

  module _ (step : Pass → List ℕ → Pass) (absorb : Backend → List ℕ → Backend) (n : ℕ)
      (law : (s : Pass) (chunk : List ℕ)
        → length chunk ≡ n * 16
        → IsBytes chunk
        → step s chunk ≡ sealed_run absorb n s chunk) where
    foldl-sealed :
        (k : ℕ) (s : Pass) (input : List ℕ)
        → length input ≡ k * (n * 16)
        → IsBytes input
        → foldl step s (runs k (n * 16) input) ≡ sealed_runs absorb n k s input
    unfolding runs advance xor_bytes
    foldl-sealed zero s [] e q =
        let none_left : 0 ≡ zero * n = omega arith in
        Pass-ext refl (ap (λ t. advance t s.counter) none_left) (sym (append-nil s.out))
    foldl-sealed zero s (x ∷ input) e q = absurd (omega arith)
    foldl-sealed (suc k) s input e q =
        let m = n * 16 in
        let first = take m input in
        let rest = drop m input in
        let s' = sealed_run absorb n s first in
        let w₁ = under cpu aes s.counter first n in
        let w₂ = under cpu aes (advance n s.counter) rest (k * n) in
        let first_len : length first ≡ m = omega (arith, length-take m input) in
        let hw : length w₁ ≡ m = length-under cpu aes s.counter first n ∙ first_len in
        let whole : under cpu aes s.counter input (suc k * n) ≡ w₁ ++ w₂ =
          ap (λ t. under cpu aes s.counter t (suc k * n)) (sym (take-append-drop m input))
          ∙ under-append cpu aes s.counter first rest n (k * n) (suc k * n) first_len
              (omega arith) in
        ap (λ t. foldl step t (runs k m rest)) (law s first first_len (IsBytes-take m input q))
        ∙ foldl-sealed k s' rest (omega (arith, length-drop m input)) (IsBytes-drop m input q)
        ∙ Pass-ext
            (ap₂ (λ a b. foldl absorb (absorb s.backend a) (runs k m b))
                (sym (take-append m w₁ w₂ hw)) (sym (drop-append m w₁ w₂ hw))
              ∙ ap (λ t. foldl absorb s.backend (runs (suc k) m t)) (sym whole))
            (sym (advance-add n (k * n) (suc k * n) s.counter (omega arith)))
            (append_assoc s.out w₁ w₂ ∙ ap (◌++◌ s.out) (sym whole))

  quad_regs :
      (b : Backend) (quad : List ℕ)
      → record b { y = ghash4_regs b.y b.h_pows (map entered (runs 4 16 quad)) }
        ≡ absorb_quad reverse b quad
  unfolding ghash4_regs absorb_quad update_blocks4
  quad_regs b quad = refl

  tail_quad_lem :
      (s : Pass) (chunk : List ℕ)
      → length chunk ≡ 64
      → IsBytes chunk
      → tail_quad cpu aes.round_keys s chunk ≡ sealed_run (absorb_quad reverse) 4 s chunk
  unfolding tail_quad
  tail_quad_lem s chunk hb q =
      let ctr = (counters 4 s.counter).0 in
      let c = counters_lem cpu aes 4 s.counter in
      let state = interleaved cpu aes.round_keys ctr in
      let stream : flatten (map storeu state) ≡ keystream cpu aes s.counter 4 =
        ap flatten (interleaved-eq-map cpu aes ctr) ∙ c.2 in
      let l =
        seal_lanes-LanesLaw 4 state chunk (length-interleaved cpu aes.round_keys ctr ∙ c.1) hb q in
      let w : (seal_lanes state (runs 4 16 chunk)).written ≡ under cpu aes s.counter chunk 4 =
        l.0 ∙ ap (xor_bytes chunk) stream in
      Pass-ext
        (ap (λ t. record s.backend { y = ghash4_regs s.backend.y s.backend.h_pows t }) l.1
          ∙ quad_regs s.backend _
          ∙ ap (absorb_quad reverse s.backend) w)
        c.0 (ap (◌++◌ s.out) w)

  tail_one_lem :
      (s : Pass) (chunk : List ℕ)
      → length chunk ≡ 16
      → IsBytes chunk
      → tail_one cpu aes.round_keys s chunk ≡ sealed_run (absorb_one reverse) 1 s chunk
  unfolding tail_one advance keystream
  tail_one_lem s chunk hb q =
      let state = get_or (interleaved cpu aes.round_keys (s.counter ∷ [])) 0 0 in
      let c = bit_xor state (loadu chunk) in
      let w : storeu c ≡ under cpu aes s.counter chunk 1 =
        lane state chunk hb q
        ∙ ap (xor_bytes chunk)
            (one_lane s.counter ∙ sym (append-nil (encrypt_block cpu aes s.counter))) in
      Pass-ext
        (ap (λ t. record s.backend { y = ghash1_reg s.backend.y (get_or s.backend.h_pows 0 0) t })
            (shuffle_epi8-bswap c)
          ∙ one_reg s.backend (storeu c)
          ∙ ap (absorb_one reverse s.backend) w)
        refl (ap (◌++◌ s.out) w)
    where
      one_lane :
          (counter : List ℕ)
          → storeu (get_or (interleaved cpu aes.round_keys (counter ∷ [])) 0 0)
            ≡ encrypt_block cpu aes counter
      one_lane counter = unfold interleaved encrypt_block in refl

      one_reg :
          (b : Backend) (block : List ℕ)
          → record b { y = ghash1_reg b.y (get_or b.h_pows 0 0) (entered block) }
            ≡ absorb_one reverse b block
      one_reg b block = unfold ghash1_reg absorb_one update_block in refl

  -- For `f` full blocks of bytes the stitched tail writes them under the key stream, leaves the
  -- counter `f` increments on, and absorbs the ciphertext in quads and then single blocks.
  pub tail_lem :
      (b : Backend) (counter input : List ℕ) (f : ℕ)
      → length input ≡ f * 16
      → IsBytes input
      → seal_in_place_tail_blocks cpu b aes.round_keys counter input ≡ (
          let w = under cpu aes counter input f in
          record { backend = below_octets reverse b w; counter = advance f counter; out = w })
  unfolding seal_in_place_tail_blocks
  tail_lem b counter input f e q =
      let k = length input / 64 in
      let m = k * 64 in
      let quads = take m input in
      let rest = drop m input in
      let j = length rest / 16 in
      let w = under cpu aes counter input f in
      let w₁ = under cpu aes counter quads (k * 4) in
      let c₂ = advance (k * 4) counter in
      let w₂ = under cpu aes c₂ rest (j * 1) in
      let b₁ = foldl (absorb_quad reverse) b (runs k 64 w₁) in
      let start : Pass = record { backend = b; counter = counter; out = [] } in
      let middle : Pass = record { backend = b₁; counter = c₂; out = w₁ } in
      let quads_len : length quads ≡ k * 64 = omega (arith, length-take m input) in
      let rest_len : length rest ≡ j * 16 = omega (arith, length-drop m input) in
      let split : w ≡ w₁ ++ w₂ =
        ap (λ t. under cpu aes counter t f) (sym (take-append-drop m input))
        ∙ under-append cpu aes counter quads rest (k * 4) (j * 1) f (omega arith)
            (omega (arith, length-drop m input)) in
      let regions : runs k 64 input ≡ runs k 64 quads =
        ap (runs k 64) (sym (take-append-drop m input))
        ∙ runs-append k 64 quads rest (omega (arith, quads_len)) in
      ap (λ s. foldl (tail_one cpu aes.round_keys) s (runs j 16 rest))
        (ap (foldl (tail_quad cpu aes.round_keys) start) regions
          ∙ foldl-sealed (tail_quad cpu aes.round_keys) (absorb_quad reverse) 4 tail_quad_lem k
              start quads quads_len (IsBytes-take m input q))
      ∙ foldl-sealed (tail_one cpu aes.round_keys) (absorb_one reverse) 1 tail_one_lem j middle rest
          rest_len (IsBytes-drop m input q)
      ∙ Pass-ext
          (sym (
              below_octets_parts reverse b k j w₁ w₂
                (length-under cpu aes counter quads (k * 4) ∙ quads_len)
                (length-under cpu aes c₂ rest (j * 1) ∙ rest_len)
                (omega (arith, length-drop m input)))
            ∙ ap (below_octets reverse b) (sym split))
          (sym (advance-add (k * 4) (j * 1) f counter (omega (arith, length-drop m input))))
          (sym split)
