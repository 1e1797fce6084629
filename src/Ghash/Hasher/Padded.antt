-- ===== src/Ghash/Hasher/Padded.antt =====
-- A whole section of src/aes_gcm/ghash.rs, its padded rest included, and the keyed backend that
-- `new` makes.
use hardware_rust_crypto.Prelude.{
  ℕ, ◌-◌, ◌*◌, ◌/◌, ◌%◌, ◌≤◌, ◌≡◌, refl, sym, ap, ap₂, ◌∙◌, true, List, [], ◌∷◌, ◌++◌, append-nil,
  map, foldl, length, take, drop, replicate, runs, leftover, chunks, some, length-take, length-drop,
  length-append, length-replicate, IsBytes, IsBytes-take, IsBytes-drop, IsBytes-append,
  IsBytes-replicate, EachLen, runs-EachLen, foldl-append, arith,
}
use hardware_rust_crypto.Cpu.{Cpu, loadu}
use hardware_rust_crypto.Ghash.Backend.{Backend, update_block, hardware_available, new}
use hardware_rust_crypto.Ghash.Backend.Batches.{
  AllBlocks, IsKeyed, after_serial-IsKeyed, update_block-after_serial,
}
use hardware_rust_crypto.Ghash.Key.{powers}
use hardware_rust_crypto.Ghash.Hasher.{absorb_padded_by, absorb_blocks_by, close_section, padded}
use hardware_rust_crypto.Ghash.Hasher.Serial.{fed, fed-append, runs-take}
use hardware_rust_crypto.Ghash.Hasher.Reference.{
  map-append, KeepsBlocks, entered, runs_entered, absorb_blocks_by-fed,
}

-- The section in blocks, the last one padded.
abbrev pub section_blocks : List ℕ → List (List ℕ)
section_blocks bytes = map padded (chunks 16 bytes)

padded_full : (bs : List (List ℕ)) → EachLen 16 bs → map padded bs ≡ bs
padded_full [] h = refl
padded_full (b ∷ bs) h =
    let e : 16 - length b ≡ 0 = omega (arith, h.0) in
    ap₂ ◌∷◌ (ap (λ n. b ++ replicate n 0) e ∙ append-nil b) (padded_full bs h.1)

padded-IsBlock :
    (c : List ℕ) → length c ≤ 16 → IsBytes c → (length (padded c) ≡ 16) × IsBytes (padded c)
padded-IsBlock c h p = (
  omega (
    arith,
    h,
    length-append c (replicate (16 - length c) 0),
    length-replicate {A = ℕ} (16 - length c) 0,
  ),
  IsBytes-append c (replicate (16 - length c) 0) p (IsBytes-replicate (16 - length c)),
)

module _ (enter : List ℕ → List ℕ) (keeps : KeepsBlocks enter) (key : List ℕ) where
  close_section-fed :
      (b : Backend) (keyed : IsKeyed key b) (rest : List ℕ)
      → close_section enter b rest ≡ fed key b keyed (map enter (map padded (leftover rest)))
  unfolding close_section
  close_section-fed b keyed [] = refl
  close_section-fed b keyed (x ∷ rest) =
      update_block-after_serial key b keyed (enter (padded (x ∷ rest)))

  -- Blocks one after another, by the one-block update.
  serially :
      (bs : List (List ℕ)) (b : Backend) (keyed : IsKeyed key b)
      → AllBlocks bs
      → foldl update_block b bs ≡ fed key b keyed bs
  serially [] b keyed h = refl
  serially (x ∷ bs) b keyed h =
      let one : AllBlocks (x ∷ []) = (h.0, h.1, tt) in
      let keyed₁ = after_serial-IsKeyed key b keyed (x ∷ []) one in
      ap (λ t. foldl update_block t bs) (update_block-after_serial key b keyed x)
      ∙ serially bs (fed key b keyed (x ∷ [])) keyed₁ h.2
      ∙ fed-append key b keyed (x ∷ []) bs one

  leftover-AllBlocks :
      (rest : List ℕ) → length rest ≤ 16 → IsBytes rest → AllBlocks (map padded (leftover rest))
  leftover-AllBlocks [] h p = tt
  leftover-AllBlocks (x ∷ rest) h p = let ok = padded-IsBlock (x ∷ rest) h p in (ok.0, ok.1, tt)

  -- For a backend that holds the powers of a key, a section of bytes that is absorbed in batches
  -- of eight, four and one block and a padded rest gives what the one-block update gives of its
  -- blocks of 16 bytes, the last one padded with zeros, one after another.
  pub absorb_padded_by-serial :
      (b : Backend) (bytes : List ℕ)
      → IsKeyed key b
      → IsBytes bytes
      → absorb_padded_by enter b bytes ≡ foldl update_block b (map enter (section_blocks bytes))
  unfolding absorb_padded_by chunks
  absorb_padded_by-serial b bytes keyed p =
      let len = length bytes in
      let k = len / 16 in
      let full = len - len % 16 in
      let front = take full bytes in
      let rest = drop (k * 16) bytes in
      let pr = IsBytes-drop (k * 16) bytes p in
      let lr = length-drop (k * 16) bytes in
      let first = map enter (runs k 16 bytes) in
      let ok₁ = runs_entered enter keeps key k bytes (omega arith) p in
      let b₁ = fed key b keyed first in
      let keyed₁ = after_serial-IsKeyed key b keyed first ok₁ in
      let last = map enter (map padded (leftover rest)) in
      let ok₂ =
        entered enter keeps (map padded (leftover rest))
          (leftover-AllBlocks rest (omega (arith, lr)) pr) in
      let same_cut : full ≡ k * 16 = omega arith in
      let count : length front / 16 ≡ k = omega (arith, length-take full bytes) in
      let start : absorb_blocks_by enter b front ≡ b₁ =
        absorb_blocks_by-fed enter keeps key b keyed front (IsBytes-take full bytes p)
        ∙ ap (λ n. fed key b keyed (map enter (runs n 16 front))) count
        ∙ ap (λ t. fed key b keyed (map enter t))
            (runs-take k 16 full bytes (sym same_cut) (omega arith)) in
      let blocks : first ++ last ≡ map enter (section_blocks bytes) =
        sym (map-append enter (runs k 16 bytes) (map padded (leftover rest)))
        ∙ ap (map enter) (
            ap (λ t. t ++ map padded (leftover rest))
              (sym (padded_full (runs k 16 bytes) (runs-EachLen k 16 bytes (omega arith))))
            ∙ sym (map-append padded (runs k 16 bytes) (leftover rest))) in
      ap₂ (close_section enter) start (ap (λ n. drop n bytes) same_cut)
      ∙ close_section-fed b₁ keyed₁ rest
      ∙ sym (serially last b₁ keyed₁ ok₂)
      ∙ ap (λ t. foldl update_block t last) (sym (serially first b keyed ok₁))
      ∙ sym (foldl-append update_block b first last)
      ∙ ap (foldl update_block b) blocks

-- What `new` makes of the powers of a key holds them.
pub new-IsKeyed :
    (cpu : Cpu) (key : List ℕ)
    → hardware_available cpu ≡ true
    → length key ≡ 16
    → IsBytes key
    → (b : Backend) × (new cpu (powers key) ≡ some b) × IsKeyed key b
unfolding new
new-IsKeyed cpu key ready sized bytes = (
  record { h_pows = map loadu (powers key); y = 0 },
  rw ready refl,
  record { sized = sized; bytes = bytes; held = refl; fits = omega arith },
)
