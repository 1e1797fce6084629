-- ===== src/Gcm/Crates.antt =====
-- What the crates `subtle` and `zeroize` give src/aes_gcm/mod.rs, and `constant_time_eq`.
use hardware_rust_crypto.Prelude.{ℕ, ◌≡◌, Bool, true, List, [], length, replicate}

pub record Crates : Type 0 where
  -- `ct_eq` of two byte slices, as a `bool`.
  pub ct_eq : List ℕ → List ℕ → Bool
  -- `zeroize` of a slice and of a vector.
  pub zeroize_slice : List ℕ → List ℕ
  pub zeroize_vec : List ℕ → List ℕ

-- What their documentation says: `ct_eq` holds of equal slices only and of all of them; a slice is
-- filled with zeros; a vector is cleared as well.
pub record Documented (crates : Crates) : Type 0 where
  pub ct_eq_refl : (xs : List ℕ) → crates.ct_eq xs xs ≡ true
  pub ct_eq_sound : (xs ys : List ℕ) → crates.ct_eq xs ys ≡ true → xs ≡ ys
  pub zeroize_slice_fills : (xs : List ℕ) → crates.zeroize_slice xs ≡ replicate (length xs) 0
  pub zeroize_vec_clears : (xs : List ℕ) → crates.zeroize_vec xs ≡ []

unfoldable pub constant_time_eq : Crates → List ℕ → List ℕ → Bool
constant_time_eq crates expected actual = crates.ct_eq expected actual
