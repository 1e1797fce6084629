-- ===== src/Aes/Lanes.antt =====
-- `encrypt8` of src/aes_gcm/aes.rs against `encrypt_block`: interleaving changes no lane.
use hardware_rust_crypto.Prelude.{ℕ, suc, ◌≡◌, refl, ap, List, [], ◌∷◌, map, length}
use hardware_rust_crypto.Cpu.{Cpu, storeu}
use hardware_rust_crypto.Aes.{Aes256, RoundKeys, interleaved, encrypt8, encrypt_block}

module _ (cpu : Cpu) (aes : Aes256) where
  pub interleaved-eq-map :
      (blocks : List (List ℕ))
      → map storeu (interleaved cpu aes.round_keys blocks) ≡ map (encrypt_block cpu aes) blocks
  unfolding interleaved encrypt_block
  interleaved-eq-map [] = refl
  interleaved-eq-map (b ∷ bs) = ap (◌∷◌ (encrypt_block cpu aes b)) (interleaved-eq-map bs)

  -- Interleaved encryption of any number of blocks gives each block its own encryption, in place.
  pub encrypt8-eq-map :
      (blocks : List (List ℕ)) → encrypt8 cpu aes blocks ≡ map (encrypt_block cpu aes) blocks
  unfolding encrypt8
  encrypt8-eq-map blocks = interleaved-eq-map blocks

pub length-interleaved :
    (cpu : Cpu) (keys : RoundKeys) (blocks : List (List ℕ))
    → length (interleaved cpu keys blocks) ≡ length blocks
unfolding interleaved
length-interleaved cpu keys [] = refl
length-interleaved cpu keys (b ∷ bs) = ap suc (length-interleaved cpu keys bs)
