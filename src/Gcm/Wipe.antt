-- ===== src/Gcm/Wipe.antt =====
-- `volatile_wipe` of src/aes_gcm/mod.rs over the bytes from a pointer on.
use hardware_rust_crypto.Prelude.{
  ℕ, zero, suc, ◌+◌, ◌-◌, ◌%◌, ◌≤◌, ◌<◌, ◌≡◌, refl, sym, ap, ap₂, ◌∙◌, Bool-cases, inl, inr,
  length-replicate, take-append, drop-append_add, drop-drop, append_assoc, List, [], ◌∷◌, ◌++◌,
  length, take, drop, replicate, leb, leb→le, ◌==◌, if◌then◌else◌, arith,
}

-- A write over the bytes from `offset` on.
abbrev pub write_at : ℕ → List ℕ → List ℕ → List ℕ
write_at offset bytes memory = take offset memory ++ (bytes ++ drop (offset + length bytes) memory)

-- Memory after a loop of stores, and the offset that it reached.
pub record Wiped : Type 0 where
  pub memory : List ℕ
  pub offset : ℕ

-- `while offset + 16 <= len`, a store of a 128-bit zero and `offset += 16`, on fuel: a round
-- advances the offset, so `len` rounds are enough.
unfoldable pub wide_stores : ℕ → ℕ → Wiped → Wiped
wide_stores zero len w = w
wide_stores (suc fuel) len w =
    let stored : Wiped = record {
      memory = write_at w.offset (replicate 16 0) w.memory;
      offset = w.offset + 16;
    } in
    let rest = wide_stores fuel len stored in if leb (w.offset + 16) len then rest else w

-- `for offset in offset..len`: as many rounds as the range has numbers.
unfoldable pub byte_stores : ℕ → ℕ → List ℕ → List ℕ
byte_stores zero offset memory = memory
byte_stores (suc n) offset memory = byte_stores n (offset + 1) (write_at offset (0 ∷ []) memory)

-- A wipe of `len` bytes from the pointer on; `memory` may go on behind them.
unfoldable pub volatile_wipe : ℕ → ℕ → List ℕ → List ℕ
unfolding wide_stores byte_stores
volatile_wipe addr len memory =
    let start : Wiped = record { memory = memory; offset = 0 } in
    let wide = if addr % 16 == 0 then wide_stores len len start else start in
    byte_stores (len - wide.offset) wide.offset wide.memory

-- Memory whose first `n` bytes are zeros.
abbrev pub zeroed : ℕ → List ℕ → List ℕ
zeroed n memory = replicate n 0 ++ drop n memory

replicate-add :
    (a b c : ℕ) → a + b ≡ c → ◌≡◌ {A = List ℕ} (replicate a 0 ++ replicate b 0) (replicate c 0)
replicate-add zero b c e = let e' : b ≡ c = omega arith in ap (λ n. replicate n 0) e'
replicate-add (suc a) b zero e = absurd (omega arith)
replicate-add (suc a) b (suc c) e = ap (◌∷◌ 0) (replicate-add a b c (omega arith))

-- Zeros written behind zeros.
write_at-zeroed :
    (offset n end : ℕ) (memory : List ℕ)
    → offset + n ≡ end
    → write_at offset (replicate n 0) (zeroed offset memory) ≡ zeroed end memory
write_at-zeroed offset n end memory e =
    let zeros : List ℕ = replicate offset 0 in
    let len : length zeros ≡ offset = length-replicate {A = ℕ} offset 0 in
    let len' : length (replicate {A = ℕ} n 0) ≡ n = length-replicate {A = ℕ} n 0 in
    ap₂ ◌++◌ (take-append offset zeros (drop offset memory) len) (
      ap (◌++◌ (replicate n 0)) (
        drop-append_add offset n (offset + length (replicate {A = ℕ} n 0)) zeros
          (drop offset memory) len (omega (arith, len'))
        ∙ drop-drop offset n end memory e))
    ∙ sym (append_assoc zeros (replicate n 0) (drop end memory))
    ∙ ap (λ z. z ++ drop end memory) (replicate-add offset n end e)

-- Zeros up to an offset, with the rest untouched.
abbrev wiped_to : ℕ → List ℕ → Wiped
wiped_to offset memory = record { memory = zeroed offset memory; offset = offset }

-- The wide loop wipes what it passes, stays within `len`, and with `len` as fuel it is its own
-- test that ends it.
wide_stores-zeroed :
    (fuel len offset : ℕ) (memory : List ℕ)
    → len ≤ offset + fuel
    → offset ≤ len
    → (end : ℕ) × (wide_stores fuel len (wiped_to offset memory) ≡ wiped_to end memory)
      × (end ≤ len)
      × (len < end + 16)
unfolding wide_stores
wide_stores-zeroed zero len offset memory enough h = (offset, refl, h, omega arith)
wide_stores-zeroed (suc fuel) len offset memory enough h =
    elim (Bool-cases (leb (offset + 16) len)) [
      | inl e ↦
          let room : offset + 16 ≤ len = leb→le (offset + 16) len e in
          let stored = write_at-zeroed offset 16 (offset + 16) memory refl in
          let rest = wide_stores-zeroed fuel len (offset + 16) memory (omega arith) room in
          let step : Wiped → Wiped = wide_stores fuel len in
          let at : List ℕ → Wiped = λ m. record { memory = m; offset = offset + 16 } in
          (rest.0, rw e (ap (λ m. step (at m)) stored ∙ rest.1), rest.2, rest.3)
      | inr e ↦ (offset, rw e refl, h, ground arith)
    ]

byte_stores-zeroed :
    (n offset end : ℕ) (memory : List ℕ)
    → offset + n ≡ end
    → byte_stores n offset (zeroed offset memory) ≡ zeroed end memory
unfolding byte_stores
byte_stores-zeroed zero offset end memory e =
    let e' : offset ≡ end = omega arith in ap (λ n. zeroed n memory) e'
byte_stores-zeroed (suc n) offset end memory e =
    ap (byte_stores n (offset + 1)) (write_at-zeroed offset 1 (offset + 1) memory refl)
    ∙ byte_stores-zeroed n (offset + 1) end memory (omega arith)

-- The last bytes, one at a time, behind a front of zeros.
finish_lem :
    (len end : ℕ) (memory : List ℕ) (w : Wiped)
    → w ≡ wiped_to end memory
    → end ≤ len
    → byte_stores (len - w.offset) w.offset w.memory ≡ zeroed len memory
finish_lem len end memory w e h =
    ap (λ (x : Wiped). byte_stores (len - x.offset) x.offset x.memory) e
    ∙ byte_stores-zeroed (len - end) end len memory (omega arith)

-- At every address and length the wipe zeroes exactly the bytes asked for: the first `len` bytes
-- are zeros, whichever store width the address allows, and those behind them are as they were.
pub volatile_wipe_lem :
    (addr len : ℕ) (memory : List ℕ)
    → len ≤ length memory
    → volatile_wipe addr len memory ≡ replicate len 0 ++ drop len memory
unfolding volatile_wipe
volatile_wipe_lem addr len memory room =
    let start : Wiped = record { memory = memory; offset = 0 } in
    let run = wide_stores-zeroed len len 0 memory (omega arith) (omega arith) in
    elim (Bool-cases (addr % 16 == 0)) [
      | inl e ↦ rw e (finish_lem len run.0 memory (wide_stores len len start) run.1 run.2)
      | inr e ↦ rw e (finish_lem len 0 memory start refl (omega arith))
    ]
