-- ===== src/Examples/Field.antt =====
-- The theorems on the field of GHASH and POLYVAL at concrete blocks.
use hardware_rust_crypto.Prelude.{
  ℕ, ◌*◌, ◌≡◌, refl, ◌∙◌, List, map, foldl, replicate, reverse, IsBytes, IsBytes-reverse,
  length-reverse, arith,
}
use hardware_rust_crypto.Cpu.{loadu}
use hardware_rust_crypto.Poly.Product.{◌⊗◌}
use hardware_rust_crypto.Poly.Montgomery.{IsResidue}
use hardware_rust_crypto.Ghash.Backend.{Backend, mul, update_block}
use hardware_rust_crypto.Ghash.Backend.Batches.{IsKeyed, loadu-lt, powers-pow_list}
use hardware_rust_crypto.Ghash.Backend.Aggregate.{pow_list}
use hardware_rust_crypto.Ghash.Backend.Field.{mul-IsResidue, mulx-IsResidue}
use hardware_rust_crypto.Ghash.Key.{mulx, powers}
use hardware_rust_crypto.Ghash.Hasher.{absorb_padded_by}
use hardware_rust_crypto.Ghash.Hasher.Reference.{KeepsBlocks}
use hardware_rust_crypto.Ghash.Hasher.Padded.{section_blocks, absorb_padded_by-serial}
use hardware_rust_crypto.Examples.Fixtures.{text, text-IsBytes, replicate-IsBytes}

abbrev key : List ℕ
key = replicate 16 200

abbrev block : List ℕ
block = replicate 16 3

key-IsBytes : IsBytes key
key-IsBytes = replicate-IsBytes 16 200 (omega arith)

block-IsBytes : IsBytes block
block-IsBytes = replicate-IsBytes 16 3 (omega arith)

mul-IsResidue_example : IsResidue 128 (loadu key ⊗ loadu block) (loadu (mul key block))
mul-IsResidue_example = mul-IsResidue key block refl key-IsBytes refl block-IsBytes

mulx-IsResidue_example : IsResidue 0 (2 * loadu key) (loadu (mulx key))
mulx-IsResidue_example = mulx-IsResidue key refl key-IsBytes

powers-pow_list_example :
    map loadu (powers key) ≡ pow_list (loadu key) (loadu-lt key refl key-IsBytes)
powers-pow_list_example = powers-pow_list key refl key-IsBytes

abbrev backend : Backend
backend = record { h_pows = map loadu (powers key); y = 0 }

backend-IsKeyed : IsKeyed key backend
backend-IsKeyed = record { sized = refl; bytes = key-IsBytes; held = refl; fits = omega arith }

reverse-KeepsBlocks : KeepsBlocks reverse
reverse-KeepsBlocks c e p = (length-reverse c ∙ e, IsBytes-reverse c p)

absorb_padded_by-serial_example :
    absorb_padded_by reverse backend text
    ≡ foldl update_block backend (map reverse (section_blocks text))
absorb_padded_by-serial_example =
    absorb_padded_by-serial reverse reverse-KeepsBlocks key backend text backend-IsKeyed
      text-IsBytes
