-- ===== src/Examples/Siv.antt =====
-- The theorems on AES-GCM-SIV at the fixtures.
use hardware_rust_crypto.Prelude.{ℕ, ◌+◌, ◌≡◌, refl, true, List, some, length, replicate, arith}
use hardware_rust_crypto.Gcm.Error.{Error, ok, err}
use hardware_rust_crypto.Siv.Message.{ctr_apply, siv_seal, siv_open}
use hardware_rust_crypto.Siv.Keystream.{siv_under}
use hardware_rust_crypto.Siv.Stream.{ctr_apply_lem}
use hardware_rust_crypto.Siv.Total.{siv_open-siv_seal_total}
use hardware_rust_crypto.Siv.KeyState.{encrypt_to}
use hardware_rust_crypto.Siv.KeyState.Refused.{SivRefusal, siv_encrypt_to-refused}
use hardware_rust_crypto.Gcm.Nonce.{nonce_value}
use hardware_rust_crypto.Siv.Authentic.{siv_seal-siv_open}
use hardware_rust_crypto.Siv.Handle.{Handle, step_gen, next_nonce, encrypt, decrypt}
use hardware_rust_crypto.Siv.Handle.Fresh.{siv_handle-decrypt-encrypt}
use hardware_rust_crypto.Examples.Nonces.{gen, platform}
use hardware_rust_crypto.Examples.Fixtures.{
  cpu, ready, aes_ready, state, siv_state, nonce, aad, text, crates, documented,
}

siv_encrypt_to-refused_example :
    encrypt_to crates cpu siv_state nonce aad text (replicate 100 1)
    ≡ (replicate 100 1, err Error.output_too_small)
siv_encrypt_to-refused_example =
    siv_encrypt_to-refused crates cpu siv_state nonce aad text (replicate 100 1)
      Error.output_too_small (SivRefusal.no_room refl (omega arith) (omega arith) (omega arith))

siv_open-siv_seal_total_example :
    (tag : List ℕ) × ((siv_seal cpu state.aes nonce aad text).tag ≡ some tag)
    × (length tag ≡ 16)
    × (siv_open cpu crates state.aes nonce aad (siv_seal cpu state.aes nonce aad text).buffer tag
        ≡ (text, true))
siv_open-siv_seal_total_example =
    siv_open-siv_seal_total cpu ready crates state.aes nonce aad text documented aes_ready
      (omega arith) (omega arith)

ctr_apply_lem_example :
    (ctr_apply cpu state.aes (replicate 16 1) text).out
    ≡ siv_under cpu state.aes (replicate 16 1) text 11
ctr_apply_lem_example = ctr_apply_lem cpu state.aes (replicate 16 1) text

abbrev sealing :
    (tag : List ℕ) × ((siv_seal cpu state.aes nonce aad text).tag ≡ some tag)
    × (length tag ≡ 16)
    × (siv_open cpu crates state.aes nonce aad (siv_seal cpu state.aes nonce aad text).buffer tag
        ≡ (text, true))
sealing =
    siv_open-siv_seal_total cpu ready crates state.aes nonce aad text documented aes_ready
      (omega arith) (omega arith)

siv_seal-siv_open_example :
    siv_seal cpu state.aes nonce aad text
    ≡ record { buffer = (siv_seal cpu state.aes nonce aad text).buffer; tag = some sealing.0 }
siv_seal-siv_open_example =
    siv_seal-siv_open crates cpu state.aes nonce aad (siv_seal cpu state.aes nonce aad text).buffer
      sealing.0 text documented sealing.3

abbrev handle : Handle
handle = record { state = siv_state; nonce_gen = some gen }

given : (next_nonce platform handle.nonce_gen).1 ≡ ok (nonce_value 12345 9)
unfolding next_nonce step_gen
given = refl

siv_handle-decrypt-encrypt_example :
    (sealed : List ℕ) × ((encrypt crates cpu platform handle aad text).1 ≡ ok sealed)
    × (length sealed ≡ length text + 28)
    × (decrypt crates cpu (encrypt crates cpu platform handle aad text).0 aad sealed ≡ ok text)
siv_handle-decrypt-encrypt_example =
    siv_handle-decrypt-encrypt crates cpu platform handle (nonce_value 12345 9) aad text documented
      aes_ready ready given (omega arith) (omega arith)
