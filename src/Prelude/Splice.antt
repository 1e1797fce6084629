-- ===== src/Prelude/Splice.antt =====
-- A write into the middle of a list: `t` entries behind the first `p` give way to others.
use Prim.Native.Nat.{ℕ, zero, suc, ◌+◌, ◌≤◌}
use mathlib.Core.Path.{◌≡◌, refl, sym, ap, ◌∙◌}
use mathlib.Core.List.{List, ◌∷◌, ◌++◌, append_assoc}
use native.Mathlib.Omega.{arith}
use hardware_rust_crypto.Prelude.Lists.{
  length, take, drop, length-append, length-take, length-drop, take-append, drop-append,
  take-append-drop, drop-drop, replicate,
}

module _ {ℓ} {A : Type ℓ} where
  abbrev pub splice : ℕ → ℕ → List A → List A → List A
  splice p t zs xs = take p xs ++ (zs ++ drop (p + t) xs)

  module _ (p t : ℕ) (zs xs : List A) (fits : p + t ≤ length xs) (same : length zs ≡ t) where
    pub length-splice : length (splice p t zs xs) ≡ length xs
    length-splice = omega (
      arith,
      fits,
      same,
      length-append (take p xs) (zs ++ drop (p + t) xs),
      length-append zs (drop (p + t) xs),
      length-take p xs,
      length-drop (p + t) xs,
    )

    written-length : length (take p xs ++ zs) ≡ p + t
    written-length = omega (arith, fits, same, length-append (take p xs) zs, length-take p xs)

    pub take-splice : take (p + t) (splice p t zs xs) ≡ take p xs ++ zs
    take-splice =
        ap (take (p + t)) (sym (append_assoc (take p xs) zs (drop (p + t) xs)))
        ∙ take-append (p + t) (take p xs ++ zs) (drop (p + t) xs) written-length

    -- What lies behind the write stays.
    pub drop-splice : drop (p + t) (splice p t zs xs) ≡ drop (p + t) xs
    drop-splice =
        ap (drop (p + t)) (sym (append_assoc (take p xs) zs (drop (p + t) xs)))
        ∙ drop-append (p + t) (take p xs ++ zs) (drop (p + t) xs) written-length

  -- A list from `p` on, in two parts.
  pub take-append-drop_from :
      (p t : ℕ) (xs : List A) → take t (drop p xs) ++ drop (p + t) xs ≡ drop p xs
  take-append-drop_from p t xs =
      ap (◌++◌ (take t (drop p xs))) (sym (drop-drop p t (p + t) xs refl))
      ∙ take-append-drop t (drop p xs)

  pub replicate-append : (m n : ℕ) (a : A) → replicate m a ++ replicate n a ≡ replicate (m + n) a
  replicate-append zero n a = let e : n ≡ zero + n = omega arith in ap (λ k. replicate k a) e
  replicate-append (suc m) n a =
      let e : suc (m + n) ≡ suc m + n = omega arith in
      ap (◌∷◌ a) (replicate-append m n a) ∙ ap (λ k. replicate k a) e
