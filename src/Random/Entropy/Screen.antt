-- ===== src/Random/Entropy/Screen.antt =====
-- What `cpu_rng_fill` of src/random/entropy.rs lets through.
use hardware_rust_crypto.Prelude.{
  ℕ, zero, suc, ◌*◌, ◌/◌, ◌≤◌, ◌<◌, ◌≡◌, refl, sym, ap, ◌∙◌, ◌⊎◌, inl, inr, Bool, true, false, ◌||◌,
  List, [], ◌∷◌, ◌++◌, append-nil, length, take, drop, replicate, runs, leftover, chunks, flatten,
  flatten-runs, flatten-append_runs, length-append, length-take, length-drop, length-replicate,
  length-runs, drop-drop, get_or, ==_iff, Bool-cases, Option-cases, to_le_bytes, length-to_le_bytes,
  arith, ◌≢◌,
}
use hardware_rust_crypto.Gcm.Crates.{Crates, Documented}
use hardware_rust_crypto.Random.Entropy.{
  retries, Answers, next_word, Drawn, fill_chunks, fill_rdseed, fill, same_bytes, repeated_in,
  stuck_words, stuck_output, cpu_rng_fill,
}

-- The 64-bit word number `i` of a buffer.
abbrev pub word : ℕ → List ℕ → List ℕ
word i buf = take 8 (drop (i * 8) buf)

same_bytes_refl : (xs : List ℕ) → same_bytes xs xs ≡ true
unfolding same_bytes
same_bytes_refl [] = refl
same_bytes_refl (x ∷ xs) = rw ((==_iff x x).1 refl) (same_bytes_refl xs)

or_true : (a : Bool) → (a || true) ≡ true
or_true true = refl
or_true false = refl

repeated_in-later :
    (w : List ℕ) (ws : List (List ℕ)) (j : ℕ)
    → j < length ws
    → w ≡ get_or ws j []
    → repeated_in w ws ≡ true
unfolding repeated_in
repeated_in-later w [] j h e = absurd (omega arith)
repeated_in-later w (v ∷ ws) zero h e =
    ap (λ t. same_bytes v t || repeated_in w ws) e
    ∙ ap (λ t. t || repeated_in w ws) (same_bytes_refl v)
repeated_in-later w (v ∷ ws) (suc j) h e =
    ap (λ t. same_bytes v w || t) (repeated_in-later w ws j (omega arith) e)
    ∙ or_true (same_bytes v w)

stuck_words-equal :
    (ws : List (List ℕ)) (i j : ℕ)
    → i < j
    → j < length ws
    → get_or ws i [] ≡ get_or ws j []
    → stuck_words ws ≡ true
unfolding stuck_words
stuck_words-equal [] i j ij h e = absurd (omega arith)
stuck_words-equal (w ∷ ws) i zero ij h e = absurd (omega arith)
stuck_words-equal (w ∷ ws) zero (suc j) ij h e =
    ap (λ t. t || stuck_words ws) (repeated_in-later w ws j (omega arith) e)
stuck_words-equal (w ∷ ws) (suc i) (suc j) ij h e =
    ap (λ t. repeated_in w ws || t) (stuck_words-equal ws i j (omega arith) (omega arith) e)
    ∙ or_true (repeated_in w ws)

get_or-runs : (k i : ℕ) (xs : List ℕ) → i < k → get_or (runs k 8 xs) i [] ≡ word i xs
unfolding runs
get_or-runs zero i xs h = absurd (omega arith)
get_or-runs (suc k) zero xs h = let e : 0 ≡ 0 * 8 = omega arith in ap (λ n. take 8 (drop n xs)) e
get_or-runs (suc k) (suc i) xs h =
    get_or-runs k i (drop 8 xs) (omega arith)
    ∙ ap (take 8) (drop-drop 8 (i * 8) (suc i * 8) xs (omega arith))

-- Two equal words are seen, wherever they stand.
pub stuck_output-equal :
    (buf : List ℕ) (i j : ℕ)
    → i < j
    → j < length buf / 8
    → word i buf ≡ word j buf
    → stuck_output buf ≡ true
unfolding stuck_output
stuck_output-equal buf i j ij h e =
    let n = length buf / 8 in
    let ws = runs n 8 buf in
    stuck_words-equal ws i j ij (omega (arith, h, length-runs n 8 buf))
      (get_or-runs n i buf (omega arith) ∙ e ∙ sym (get_or-runs n j buf h))

flatten-leftover : (xs : List ℕ) → flatten (leftover xs) ≡ xs
unfolding flatten
flatten-leftover [] = refl
flatten-leftover (x ∷ xs) = append-nil (x ∷ xs)

flatten-chunks : (n : ℕ) (xs : List ℕ) → flatten (chunks n xs) ≡ xs
unfolding chunks
flatten-chunks n xs =
    let k = length xs / n in
    flatten-append_runs (runs k n xs) (leftover (drop (k * n) xs))
    ∙ ap (◌++◌ (flatten (runs k n xs))) (flatten-leftover (drop (k * n) xs))
    ∙ flatten-runs k n (k * n) xs refl

-- Chunks of at most eight bytes.
abbrev Short : List (List ℕ) → Type 0
Short [] = Unit {0}
Short (c ∷ cs) = (length c ≤ 8) × Short cs

length-fill_chunks :
    (cs : List (List ℕ)) (answers : Answers)
    → Short cs
    → length (fill_chunks cs answers).out ≡ length (flatten cs)
unfolding fill_chunks flatten
length-fill_chunks [] answers h = refl
length-fill_chunks (c ∷ cs) answers h =
    let drawn = next_word retries answers in
    elim (Option-cases drawn.1) [
      | inl e ↦ rw e refl
      | inr (v, e) ↦ rw e (
          omega (
            arith,
            h.0,
            length-append (take (length c) (to_le_bytes 8 v)) (fill_chunks cs drawn.0).out,
            length-append c (flatten cs),
            length-take (length c) (to_le_bytes 8 v),
            length-to_le_bytes 8 v,
            length-fill_chunks cs drawn.0 h.1,
          ))
    ]

runs-Short : (k : ℕ) (xs : List ℕ) (rest : List (List ℕ)) → Short rest → Short (runs k 8 xs ++ rest)
unfolding runs
runs-Short zero xs rest h = h
runs-Short (suc k) xs rest h = (omega (arith, length-take 8 xs), runs-Short k (drop 8 xs) rest h)

leftover-Short : (xs : List ℕ) → length xs ≤ 8 → Short (leftover xs)
leftover-Short [] h = tt
leftover-Short (x ∷ xs) h = (h, tt)

chunks-Short : (xs : List ℕ) → Short (chunks 8 xs)
unfolding chunks
chunks-Short xs =
    let k = length xs / 8 in
    runs-Short k xs (leftover (drop (k * 8) xs))
      (leftover-Short (drop (k * 8) xs) (omega (arith, length-drop (k * 8) xs)))

-- A draw keeps the length, finished or not.
length-fill :
    (available : Bool) (out : List ℕ) (answers : Answers)
    → length (fill available out answers).out ≡ length out
unfolding fill fill_rdseed
length-fill false out answers = refl
length-fill true out answers =
    length-fill_chunks (chunks 8 out) answers (chunks-Short out) ∙ ap length (flatten-chunks 8 out)

-- Accepted with different words at two places, or rejected and wiped.
abbrev pub Screened : ℕ → ℕ → ℕ → Drawn → Type 0
Screened i j len d =
    (length d.out ≡ len)
    × (((d.filled ≡ true) × (word i d.out ≢ word j d.out))
        ⊎ ((d.filled ≡ false) × (d.out ≡ replicate len 0)))

-- Whatever the instruction answers, a draw has the length that was asked for. Either it is
-- accepted, and two of its 64-bit words at different places are different; or it is rejected, and
-- all of it is zeros.
pub cpu_rng_fill-Screened :
    (crates : Crates) (available : Bool) (out : List ℕ) (answers : Answers) (i j : ℕ)
    → Documented crates
    → i < j
    → j < length out / 8
    → Screened i j (length out) (cpu_rng_fill crates available out answers)
unfolding cpu_rng_fill
cpu_rng_fill-Screened crates available out answers i j doc ij h =
    let drawn = fill available out answers in
    let sized = length-fill available out answers in
    let wiped = doc.zeroize_slice_fills drawn.out ∙ ap (λ n. replicate n 0) sized in
    let rejected : Screened i j (length out)
        (record drawn { out = crates.zeroize_slice drawn.out; filled = false }) =
      (ap length wiped ∙ length-replicate (length out) 0, inr (refl, wiped)) in
    elim (Bool-cases drawn.filled) [
      | inr e ↦ rw e rejected
      | inl e ↦ elim (Bool-cases (stuck_output drawn.out)) [
        | inl s ↦ rw (e, s) rejected
        | inr s ↦
            rw (e, s)
              (
                sized,
                inl (
                  e,
                  λ same.
                      let seen =
                        stuck_output-equal drawn.out i j ij (omega (arith, h, sized)) same in
                      cc,
                ),
              )
      ]
    ]
