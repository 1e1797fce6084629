-- ===== src/Random/Entropy.antt =====
-- src/random/entropy.rs on x86_64 with the feature `cpu-rng-reseed`: draws from RDSEED and their
-- screening. What successive `_rdseed64_step` answer is a list; past its end none is ready.
use hardware_rust_crypto.Prelude.{
  ℕ, zero, suc, ◌/◌, Bool, true, false, ◌&&◌, ◌||◌, not, List, [], ◌∷◌, ◌++◌, Option, none, some,
  length, take, runs, chunks, flatten, ◌==◌, if◌then◌else◌, to_le_bytes,
}
use hardware_rust_crypto.Gcm.Crates.{Crates}
pub mod Screen

abbrev pub retries : ℕ
retries = 16

-- The answers of the instruction that are still to come.
abbrev pub Answers : Type 0
Answers = List (Option ℕ)

-- The retry loop: the word of the first answer that is ready, if it comes in time.
unfoldable pub next_word : ℕ → Answers → Answers × Option ℕ
next_word zero answers = (answers, none)
next_word (suc n) [] = ([], none)
next_word (suc n) (none ∷ answers) = next_word n answers
next_word (suc n) (some value ∷ answers) = (answers, some value)

pub record Drawn : Type 0 where
  pub answers : Answers
  pub out : List ℕ
  pub filled : Bool

abbrev pub write_word : List ℕ → ℕ → Drawn → Drawn
write_word chunk value rest = record rest {
  out = take (length chunk) (to_le_bytes 8 value) ++ rest.out;
}

-- The loop over the chunks: a chunk whose word does not come stays as it is, and so do those
-- behind it.
unfoldable pub fill_chunks : List (List ℕ) → Answers → Drawn
unfolding next_word flatten to_le_bytes
fill_chunks [] answers = record { answers = answers; out = []; filled = true }
fill_chunks (chunk ∷ rest) answers =
    let drawn = next_word retries answers in
    elim drawn.1 as (λ _. Drawn) [
      | none ↦ record { answers = drawn.0; out = flatten (chunk ∷ rest); filled = false }
      | some value ↦ write_word chunk value (fill_chunks rest drawn.0)
    ]

unfoldable pub fill_rdseed : List ℕ → Answers → Drawn
unfolding fill_chunks chunks
fill_rdseed out answers = fill_chunks (chunks 8 out) answers

unfoldable pub fill : Bool → List ℕ → Answers → Drawn
unfolding fill_rdseed
fill available out answers =
    if not available
    then record { answers = answers; out = out; filled = false }
    else fill_rdseed out answers

-- `==` of two byte slices.
unfoldable pub same_bytes : List ℕ → List ℕ → Bool
same_bytes [] [] = true
same_bytes [] (y ∷ ys) = false
same_bytes (x ∷ xs) [] = false
same_bytes (x ∷ xs) (y ∷ ys) = x == y && same_bytes xs ys

-- The inner loop of `stuck_output`, over the words behind the outer one.
unfoldable pub repeated_in : List ℕ → List (List ℕ) → Bool
unfolding same_bytes
repeated_in word [] = false
repeated_in word (w ∷ ws) = same_bytes w word || repeated_in word ws

unfoldable pub stuck_words : List (List ℕ) → Bool
unfolding repeated_in
stuck_words [] = false
stuck_words (word ∷ ws) = repeated_in word ws || stuck_words ws

-- The words are at the offsets 0, 8, .. that lie whole in the buffer.
unfoldable pub stuck_output : List ℕ → Bool
unfolding stuck_words runs
stuck_output buf = stuck_words (runs (length buf / 8) 8 buf)

unfoldable pub cpu_rng_fill : Crates → Bool → List ℕ → Answers → Drawn
unfolding fill stuck_output
cpu_rng_fill crates available out answers =
    let drawn = fill available out answers in
    if drawn.filled && not (stuck_output drawn.out)
    then drawn
    else record drawn { out = crates.zeroize_slice drawn.out; filled = false }
