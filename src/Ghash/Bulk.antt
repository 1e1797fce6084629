-- ===== src/Ghash/Bulk.antt =====
-- The stitched loops of `mod imp` for x86 in src/aes_gcm/ghash.rs: counter mode and GHASH in one
-- pass, with the hash of a batch one round behind its encryption.
pub mod Lanes
pub mod Stitch
pub mod Tail
use hardware_rust_crypto.Prelude.{
  ℕ, zero, suc, ◌*◌, ◌/◌, Bool, true, false, List, [], ◌∷◌, ◌++◌, bit_xor, length, runs, drop,
  get_or, foldl, if◌then◌else◌,
}
use hardware_rust_crypto.Cpu.{Cpu, loadu, storeu, shuffle_epi8, bswap}
use hardware_rust_crypto.Aes.{RoundKeys, interleaved}
use hardware_rust_crypto.Ghash.Backend.{Backend, ghash1_reg, ghash4_regs, ghash8_regs}
use hardware_rust_crypto.Gcm.Counter.{increment_counter}

-- The next `n` counter blocks, and the counter behind them.
unfoldable pub counters : ℕ → List ℕ → List (List ℕ) × List ℕ
counters zero counter = ([], counter)
counters (suc n) counter =
    let (blocks, counter') = counters n (increment_counter counter) in (counter ∷ blocks, counter')

-- A batch written out, and what of it enters GHASH.
pub record Batch : Type 0 where
  pub written : List ℕ
  pub hashed : List ℕ

-- The lanes `c = state[i] ^ p`, stored, with a byte-reversed copy kept.
unfoldable pub seal_lanes : List ℕ → List (List ℕ) → Batch
unfolding loadu storeu shuffle_epi8
seal_lanes [] blocks = record { written = []; hashed = [] }
seal_lanes (s ∷ state) [] = record { written = []; hashed = [] }
seal_lanes (s ∷ state) (p ∷ blocks) =
    let c = bit_xor s (loadu p) in
    let rest = seal_lanes state blocks in
    record { written = storeu c ++ rest.written; hashed = shuffle_epi8 c bswap ∷ rest.hashed }

-- The lanes of decryption: GHASH takes what is read.
unfoldable pub open_lanes : List ℕ → List (List ℕ) → Batch
unfolding loadu storeu shuffle_epi8
open_lanes [] blocks = record { written = []; hashed = [] }
open_lanes (s ∷ state) [] = record { written = []; hashed = [] }
open_lanes (s ∷ state) (p ∷ blocks) =
    let c = loadu p in
    let rest = open_lanes state blocks in
    record {
      written = storeu (bit_xor s c) ++ rest.written;
      hashed = shuffle_epi8 c bswap ∷ rest.hashed;
    }

-- What a loop leaves behind: the backend, the counter and the bytes written.
pub record Pass : Type 0 where
  pub backend : Backend
  pub counter : List ℕ
  pub out : List ℕ

-- The variables of a stitched loop.
pub record Loop : Type 0 where
  pub y : ℕ
  pub counter : List ℕ
  pub prev : List ℕ
  pub have_prev : Bool
  pub out : List ℕ

module _ (cpu : Cpu) (lanes : List ℕ → List (List ℕ) → Batch) (h_pows : List ℕ)
    (keys : RoundKeys) where
  -- One round of the loop on a 128-byte batch.
  unfoldable pub stitch : Loop → List ℕ → Loop
  unfolding counters interleaved ghash8_regs runs
  stitch s batch =
      let (ctr, counter') = counters 8 s.counter in
      let state = interleaved cpu keys ctr in
      let y' = if s.have_prev then ghash8_regs s.y h_pows s.prev else s.y in
      let b = lanes state (runs 8 16 batch) in
      record {
        y = y';
        counter = counter';
        prev = b.hashed;
        have_prev = true;
        out = s.out ++ b.written;
      }

  unfoldable pub stitch_all : Loop → List (List ℕ) → Loop
  stitch_all s [] = s
  stitch_all s (batch ∷ batches) = stitch_all (stitch s batch) batches

module _ (cpu : Cpu) (lanes : List ℕ → List (List ℕ) → Batch) where
  -- By the number of batches: the early return on none; else the loop, and the epilogue that
  -- hashes the last batch.
  unfoldable pub bulk_rounds : Backend → RoundKeys → List ℕ → List ℕ → ℕ → Pass
  unfolding stitch_all ghash8_regs runs
  bulk_rounds b keys counter input zero = record { backend = b; counter = counter; out = [] }
  bulk_rounds b keys counter input (suc n) =
      let start : Loop = record {
        y = b.y;
        counter = counter;
        prev = 0 ∷ 0 ∷ 0 ∷ 0 ∷ 0 ∷ 0 ∷ 0 ∷ 0 ∷ [];
        have_prev = false;
        out = [];
      } in
      let end = stitch_all cpu lanes b.h_pows keys start (runs (suc n) 128 input) in
      record {
        backend = record b { y = ghash8_regs end.y b.h_pows end.prev };
        counter = end.counter;
        out = end.out;
      }

  unfoldable pub bulk : Backend → RoundKeys → List ℕ → List ℕ → Pass
  unfolding bulk_rounds
  bulk b keys counter input = bulk_rounds b keys counter input (length input / 128)

module _ (cpu : Cpu) where
  unfoldable pub seal_bulk : Backend → RoundKeys → List ℕ → List ℕ → Pass
  unfolding bulk seal_lanes
  seal_bulk b keys counter plaintext = bulk cpu seal_lanes b keys counter plaintext

  unfoldable pub seal_in_place_bulk : Backend → RoundKeys → List ℕ → List ℕ → Pass
  unfolding bulk seal_lanes
  seal_in_place_bulk b keys counter input = bulk cpu seal_lanes b keys counter input

  unfoldable pub open_bulk : Backend → RoundKeys → List ℕ → List ℕ → Pass
  unfolding bulk open_lanes
  open_bulk b keys counter ciphertext = bulk cpu open_lanes b keys counter ciphertext

  unfoldable pub open_in_place_bulk : Backend → RoundKeys → List ℕ → List ℕ → Pass
  unfolding bulk open_lanes
  open_in_place_bulk b keys counter input = bulk cpu open_lanes b keys counter input

module _ (cpu : Cpu) (keys : RoundKeys) where
  -- Four blocks of the tail, hashed with one reduction.
  unfoldable pub tail_quad : Pass → List ℕ → Pass
  unfolding counters interleaved seal_lanes ghash4_regs runs
  tail_quad s chunk =
      let (ctr, counter') = counters 4 s.counter in
      let b = seal_lanes (interleaved cpu keys ctr) (runs 4 16 chunk) in
      record {
        backend = record s.backend { y = ghash4_regs s.backend.y s.backend.h_pows b.hashed };
        counter = counter';
        out = s.out ++ b.written;
      }

  -- One block of the tail. The one chain of rounds is the interleaved one with one lane.
  unfoldable pub tail_one : Pass → List ℕ → Pass
  unfolding interleaved loadu storeu shuffle_epi8 ghash1_reg
  tail_one s chunk =
      let state = get_or (interleaved cpu keys (s.counter ∷ [])) 0 0 in
      let c = bit_xor state (loadu chunk) in
      record {
        backend = record s.backend {
          y = ghash1_reg s.backend.y (get_or s.backend.h_pows 0 0) (shuffle_epi8 c bswap);
        };
        counter = increment_counter s.counter;
        out = s.out ++ storeu c;
      }

unfoldable pub seal_in_place_tail_blocks : Cpu → Backend → RoundKeys → List ℕ → List ℕ → Pass
unfolding tail_quad tail_one runs
seal_in_place_tail_blocks cpu b keys counter input =
    let quads = length input / 64 in
    let s₁ : Pass =
      foldl (tail_quad cpu keys) (record { backend = b; counter = counter; out = [] })
        (runs quads 64 input) in
    let rest = drop (quads * 64) input in
    foldl (tail_one cpu keys) s₁ (runs (length rest / 16) 16 rest)
