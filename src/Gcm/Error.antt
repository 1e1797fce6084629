-- ===== src/Gcm/Error.antt =====
-- `Error` of src/aes_gcm/mod.rs, the results that carry it, and calls that also write a buffer of
-- the caller: such a call maps the buffer to the buffer it leaves and its result. The checks
-- of lengths stand here too. `usize` has 64 bits.
use hardware_rust_crypto.Prelude.{
  ℕ, ◌+◌, ◌-◌, ◌*◌, ◌/◌, ◌^◌, Bool, true, ◌||◌, List, Option, none, some, length, ltb, leb, ◌==◌,
  if◌then◌else◌,
}
use hardware_rust_crypto.Gcm.Counter.{nonce_size}

pub data Error : Type 0 where
  invalid_key_length invalid_nonce_length encrypt decrypt : Error
  ciphertext_too_short unsupported_cpu : Error
  key_state_storage_too_small key_state_storage_misaligned : Error
  input_too_large output_too_small os_entropy : Error

pub data Result {ℓ} (A : Type ℓ) : Type ℓ where
  ok : A → Result A
  err : Error → Result A

-- A call that may write the buffer that it is given.
abbrev pub Writes : Type 0 → Type 0
Writes A = List ℕ → List ℕ × Result A

abbrev pub continue : {A B : Type 0} → (A → Writes B) → List ℕ → Result A → List ℕ × Result B
continue f out (ok a) = f a out
continue f out (err e) = (out, err e)

infixl 5 ◌>>=◌ ◌>>◌
abbrev pub ◌>>=◌ : {A B : Type 0} → Writes A → (A → Writes B) → Writes B
◌>>=◌ m f out = let r = m out in continue f r.0 r.1

abbrev pub ◌>>◌ : {B : Type 0} → Writes (Unit {0}) → Writes B → Writes B
m >> k = m >>= λ _. k

-- A step that writes nothing.
abbrev pub pure : {A : Type 0} → Result A → Writes A
pure r out = (out, r)

abbrev pub or_error {ℓ} : {A : Type ℓ} → Option A → Error → Result A
or_error none e = err e
or_error (some a) e = ok a

-- `Result` alone: `e?` in a call that writes nothing.
abbrev pub and_then {ℓ κ} : {A : Type ℓ} {B : Type κ} → Result A → (A → Result B) → Result B
and_then (ok a) f = f a
and_then (err e) f = err e

-- `usize::checked_add`.
unfoldable pub checked_add : ℕ → ℕ → Option ℕ
checked_add a b = if ltb (a + b) (2 ^ 64) then some (a + b) else none

unfoldable pub nonce_from_slice : List ℕ → Result (List ℕ)
nonce_from_slice nonce = if length nonce == nonce_size then ok nonce else err invalid_nonce_length

-- `(u32::MAX - 1) * 16` and `u64::MAX / 8`.
abbrev pub max_gcm_data_len : ℕ
max_gcm_data_len = (2 ^ 32 - 1 - 1) * 16

abbrev pub max_ghash_input_len : ℕ
max_ghash_input_len = (2 ^ 64 - 1) / 8

unfoldable pub len_exceeds_u64_limit : ℕ → ℕ → Bool
len_exceeds_u64_limit len limit = if leb (2 ^ 64) len then true else ltb limit len

unfoldable pub validate_gcm_lengths : ℕ → ℕ → Result (Unit {0})
unfolding len_exceeds_u64_limit
validate_gcm_lengths aad_len data_len =
    if len_exceeds_u64_limit data_len max_gcm_data_len
      || (len_exceeds_u64_limit aad_len max_ghash_input_len
          || len_exceeds_u64_limit data_len max_ghash_input_len)
    then err input_too_large
    else ok tt
