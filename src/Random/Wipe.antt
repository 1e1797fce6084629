-- ===== src/Random/Wipe.antt =====
-- `volatile_zero` of src/random/aes_ctr.rs, which `Backend::drop` calls on the round keys: the
-- bytes behind a pointer, and the address that decides how wide the stores are.
use hardware_rust_crypto.Prelude.{
  ℕ, zero, suc, ◌+◌, ◌-◌, ◌%◌, ◌≤◌, ◌<◌, ◌≡◌, refl, sym, ap, ◌∙◌, List, [], ◌∷◌, ◌++◌, map, flatten,
  length, take, replicate, runs, splice, length-splice, take-splice, length-replicate,
  replicate-append, take_all, leb, leb→le, ◌==◌, if◌then◌else◌, Bool-cases, inl, inr, from_le_bytes,
  to_le_bytes, arith,
}
use hardware_rust_crypto.Cpu.{loadu, storeu}
use hardware_rust_crypto.Aes.{RoundKeys, middle, of_array}
use hardware_rust_crypto.Random.Backend.{Backend}

-- One store of `width` zero bytes at an offset.
abbrev pub store_zeros : ℕ → ℕ → List ℕ → List ℕ
store_zeros width offset bytes = splice offset width (replicate width 0) bytes

-- Memory after a loop of stores, and the offset that it reached.
pub record Wiped : Type 0 where
  pub bytes : List ℕ
  pub offset : ℕ

-- `while offset + width <= len`, on fuel: a round advances the offset by `width`, so the length
-- is enough.
unfoldable pub wide_stores : ℕ → ℕ → Wiped → Wiped
wide_stores zero width w = w
wide_stores (suc fuel) width w =
    let stored : Wiped = record {
      bytes = store_zeros width w.offset w.bytes;
      offset = w.offset + width;
    } in
    let rest = wide_stores fuel width stored in
    if leb (w.offset + width) (length w.bytes) then rest else w

-- `for offset in offset..len`, a byte at a time.
unfoldable pub byte_stores : ℕ → Wiped → List ℕ
byte_stores zero w = w.bytes
byte_stores (suc count) w =
    byte_stores count (record { bytes = store_zeros 1 w.offset w.bytes; offset = w.offset + 1 })

unfoldable pub volatile_zero : ℕ → List ℕ → List ℕ
unfolding wide_stores byte_stores
volatile_zero addr bytes =
    let start : Wiped = record { bytes = bytes; offset = 0 } in
    let wide : Wiped =
      if addr % 16 == 0
      then wide_stores (length bytes) 16 start
      else if addr % 8 == 0
      then wide_stores (length bytes) 8 start
      else start in
    byte_stores (length bytes - wide.offset) wide

-- The round keys as the memory that holds them.
unfoldable pub memory_of : RoundKeys → List ℕ
unfolding storeu to_le_bytes flatten
memory_of keys = flatten (map storeu (keys.k0 ∷ (middle keys ++ (keys.k14 ∷ []))))

unfoldable pub of_memory : List ℕ → RoundKeys
unfolding loadu runs from_le_bytes
of_memory bytes = of_array (map loadu (runs 15 16 bytes))

-- `Backend::drop` on x86_64, for round keys at an address: what is left of the backend.
unfoldable pub drop_backend : ℕ → Backend → Backend
unfolding volatile_zero memory_of of_memory
drop_backend addr b = record {
  counter = 0;
  round_keys = of_memory (volatile_zero addr (memory_of b.round_keys));
}

-- The memory up to the offset is zeros.
abbrev IsWiped : ℕ → Wiped → Type 0
IsWiped len w =
    (length w.bytes ≡ len) × (w.offset ≤ len) × (take w.offset w.bytes ≡ replicate w.offset 0)

stored-IsWiped :
    (width len : ℕ) (w : Wiped)
    → w.offset + width ≤ len
    → IsWiped len w
    → IsWiped len (record { bytes = store_zeros width w.offset w.bytes; offset = w.offset + width })
stored-IsWiped width len w room h =
    let zeros : List ℕ = replicate width 0 in
    let fits : w.offset + width ≤ length w.bytes = omega (arith, room, h) in
    let sized = length-replicate width 0 in
    (
      length-splice w.offset width zeros w.bytes fits sized ∙ h.0,
      room,
      take-splice w.offset width zeros w.bytes fits sized
          ∙ ap (λ t. t ++ zeros) h.2
          ∙ replicate-append w.offset width 0,
    )

-- The wide loop: it wipes what it passes, and with the length as fuel it ends by its own test.
wide_stores-IsWiped :
    (fuel width len : ℕ) (w : Wiped)
    → 1 ≤ width
    → len ≤ w.offset + fuel
    → IsWiped len w
    → IsWiped len (wide_stores fuel width w) × (len < (wide_stores fuel width w).offset + width)
unfolding wide_stores
wide_stores-IsWiped zero width len w pos enough h = (h, omega (arith, pos, enough))
wide_stores-IsWiped (suc fuel) width len w pos enough h =
    elim (Bool-cases (leb (w.offset + width) (length w.bytes))) [
      | inl e ↦
          let room : w.offset + width ≤ len =
            omega (arith, leb→le (w.offset + width) (length w.bytes) e, h) in
          let next : Wiped = record {
            bytes = store_zeros width w.offset w.bytes;
            offset = w.offset + width;
          } in
          rw e (
            wide_stores-IsWiped fuel width len next pos (omega (arith, pos, enough))
              (stored-IsWiped width len w room h))
      | inr e ↦ rw e (h, ground (arith, h))
    ]

byte_stores-zeros :
    (count len : ℕ) (w : Wiped)
    → w.offset + count ≡ len
    → IsWiped len w
    → byte_stores count w ≡ replicate len 0
unfolding byte_stores
byte_stores-zeros zero len w e h =
    let all : w.offset ≡ len = omega arith in
    sym (take_all w.offset w.bytes (omega (arith, h))) ∙ h.2 ∙ ap (λ n. replicate n 0) all
byte_stores-zeros (suc count) len w e h =
    byte_stores-zeros count len
      (record { bytes = store_zeros 1 w.offset w.bytes; offset = w.offset + 1 }) (omega arith)
      (stored-IsWiped 1 len w (omega arith) h)

-- At every address, whatever its alignment lets the stores be, each byte of the object is zero
-- afterwards and none is written outside of it.
pub volatile_zero-zeros :
    (addr : ℕ) (bytes : List ℕ) → volatile_zero addr bytes ≡ replicate (length bytes) 0
unfolding volatile_zero
volatile_zero-zeros addr bytes =
    let len = length bytes in
    let start : Wiped = record { bytes = bytes; offset = 0 } in
    let finish = λ (w : Wiped) (h : IsWiped len w).
      byte_stores-zeros (len - w.offset) len w (omega (arith, h)) h in
    let started : IsWiped len start = (refl, omega arith, refl) in
    let wide = λ (width : ℕ) (pos : 1 ≤ width).
      (wide_stores-IsWiped len width len start pos (omega arith) started).0 in
    elim (Bool-cases (addr % 16 == 0)) [
      | inl e ↦ rw e (finish (wide_stores len 16 start) (wide 16 (omega arith)))
      | inr e ↦ elim (Bool-cases (addr % 8 == 0)) [
        | inl e₁ ↦ rw (e, e₁) (finish (wide_stores len 8 start) (wide 8 (omega arith)))
        | inr e₁ ↦ rw (e, e₁) (finish start started)
      ]
    ]

length-memory_of : (keys : RoundKeys) → length (memory_of keys) ≡ 240
unfolding memory_of
length-memory_of keys = refl

of_memory-zeros : of_memory (replicate 240 0) ≡ of_array (replicate 15 0)
unfolding of_memory
of_memory-zeros = refl

-- A dropped backend holds neither counter nor key: all of it is zero, at every address.
pub drop_backend-zeros :
    (addr : ℕ) (b : Backend)
    → drop_backend addr b ≡ record { counter = 0; round_keys = of_array (replicate 15 0) }
unfolding drop_backend
drop_backend-zeros addr b =
    ap (λ (keys : RoundKeys). record { counter = 0; round_keys = keys })
      (ap of_memory (
          volatile_zero-zeros addr (memory_of b.round_keys)
          ∙ ap (λ n. replicate n 0) (length-memory_of b.round_keys))
        ∙ of_memory-zeros)
