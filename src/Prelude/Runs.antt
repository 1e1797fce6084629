-- ===== src/Prelude/Runs.antt =====
-- Lists cut into runs of one length: how many there are, what they keep, and runs of a list in
-- two parts.
use mathlib.Core.Path.{◌≡◌, refl, ap, ap₂, sym, ◌∙◌}
use mathlib.Core.List.{List, [], ◌∷◌, ◌++◌, flatten, append_assoc, foldl}
use Prim.Native.Nat.{ℕ, zero, suc, ◌+◌, ◌*◌, ◌≤◌}
use native.Mathlib.Omega.{arith}
use hardware_rust_crypto.Prelude.Lists.{
  length, take, drop, runs, length-append, length-take, length-drop, take-append-drop, drop-drop,
}

module _ {ℓ} {A : Type ℓ} where
  pub length-runs : (k n : ℕ) (xs : List A) → length (runs k n xs) ≡ k
  unfolding runs
  length-runs zero n xs = refl
  length-runs (suc k) n xs = ap suc (length-runs k n (drop n xs))

  -- Runs in two parts.
  pub runs-add :
      (a b c n : ℕ) (xs : List A)
      → a + b ≡ c
      → runs c n xs ≡ runs a n xs ++ runs b n (drop (a * n) xs)
  unfolding runs
  runs-add zero b c n xs e =
      let e₁ : c ≡ b = omega arith in
      let e₂ : zero * n ≡ 0 = omega arith in
      ap (λ k. runs k n xs) e₁ ∙ ap (λ k. runs b n (drop k xs)) (sym e₂)
  runs-add (suc a) b zero n xs e = absurd (omega arith)
  runs-add (suc a) b (suc c) n xs e =
      let e₁ : n + a * n ≡ suc a * n = omega arith in
      ap (◌∷◌ (take n xs)) (
        runs-add a b c n (drop n xs) (omega arith)
        ∙ ap (λ t. runs a n (drop n xs) ++ runs b n t) (drop-drop n (a * n) (suc a * n) xs e₁))

  -- The runs and what they leave are the list.
  pub flatten-runs : (k n m : ℕ) (xs : List A) → k * n ≡ m → flatten (runs k n xs) ++ drop m xs ≡ xs
  unfolding runs flatten
  flatten-runs zero n zero xs e = refl
  flatten-runs zero n (suc m) xs e = absurd (omega arith)
  flatten-runs (suc k) n m xs e =
      let e' : n + k * n ≡ m = omega arith in
      append_assoc (take n xs) (flatten (runs k n (drop n xs))) (drop m xs)
      ∙ ap (λ t. take n xs ++ (flatten (runs k n (drop n xs)) ++ t))
          (sym (drop-drop n (k * n) m xs e'))
      ∙ ap (◌++◌ (take n xs)) (flatten-runs k n (k * n) (drop n xs) refl)
      ∙ take-append-drop n xs

  -- Every entry has length `n`.
  abbrev pub EachLen : ℕ → List (List A) → Type 0
  EachLen n [] = Unit {0}
  EachLen n (b ∷ bs) = (length b ≡ n) × EachLen n bs

  pub runs-EachLen : (k n : ℕ) (xs : List A) → k * n ≤ length xs → EachLen n (runs k n xs)
  unfolding runs
  runs-EachLen zero n xs h = tt
  runs-EachLen (suc k) n xs h = (
    omega (arith, length-take n xs),
    runs-EachLen k n (drop n xs) (omega (arith, length-drop n xs)),
  )

  pub length-flatten :
      (n k : ℕ) (bs : List (List A)) → length bs ≡ k → EachLen n bs → length (flatten bs) ≡ k * n
  unfolding flatten
  length-flatten n k [] e h = let e' : k ≡ 0 = omega arith in rw e' (omega arith)
  length-flatten n zero (b ∷ bs) e h = absurd (omega arith)
  length-flatten n (suc k) (b ∷ bs) e h =
      omega (arith, length-append b (flatten bs), length-flatten n k bs (omega arith) h.1, h.0)

  pub flatten-append_runs : (xs ys : List (List A)) → flatten (xs ++ ys) ≡ flatten xs ++ flatten ys
  unfolding flatten
  flatten-append_runs [] ys = refl
  flatten-append_runs (x ∷ xs) ys =
      ap (◌++◌ x) (flatten-append_runs xs ys) ∙ sym (append_assoc x (flatten xs) (flatten ys))

module _ {ℓ} {A : Type ℓ} where
  pub take-append_le : (n : ℕ) (xs ys : List A) → n ≤ length xs → take n (xs ++ ys) ≡ take n xs
  take-append_le zero xs ys h = refl
  take-append_le (suc n) [] ys h = absurd (omega arith)
  take-append_le (suc n) (x ∷ xs) ys h = ap (◌∷◌ x) (take-append_le n xs ys (omega arith))

  pub drop-append_le :
      (n : ℕ) (xs ys : List A) → n ≤ length xs → drop n (xs ++ ys) ≡ drop n xs ++ ys
  drop-append_le zero xs ys h = refl
  drop-append_le (suc n) [] ys h = absurd (omega arith)
  drop-append_le (suc n) (x ∷ xs) ys h = drop-append_le n xs ys (omega arith)

  -- Cutting past the first part cuts the second.
  pub take-append_add :
      (n m k : ℕ) (xs ys : List A) → length xs ≡ n → n + m ≡ k → take k (xs ++ ys) ≡ xs ++ take m ys
  take-append_add zero m k [] ys h e = let e' : k ≡ m = omega arith in ap (λ t. take t ys) e'
  take-append_add zero m k (x ∷ xs) ys h e = absurd (omega arith)
  take-append_add (suc n) m k [] ys h e = absurd (omega arith)
  take-append_add (suc n) m zero (x ∷ xs) ys h e = absurd (omega arith)
  take-append_add (suc n) m (suc k) (x ∷ xs) ys h e =
      ap (◌∷◌ x) (take-append_add n m k xs ys (omega arith) (omega arith))

  pub drop-append_add :
      (n m k : ℕ) (xs ys : List A) → length xs ≡ n → n + m ≡ k → drop k (xs ++ ys) ≡ drop m ys
  drop-append_add zero m k [] ys h e = let e' : k ≡ m = omega arith in ap (λ t. drop t ys) e'
  drop-append_add zero m k (x ∷ xs) ys h e = absurd (omega arith)
  drop-append_add (suc n) m k [] ys h e = absurd (omega arith)
  drop-append_add (suc n) m zero (x ∷ xs) ys h e = absurd (omega arith)
  drop-append_add (suc n) m (suc k) (x ∷ xs) ys h e =
      drop-append_add n m k xs ys (omega arith) (omega arith)

  -- Runs that lie in the first part.
  pub runs-append :
      (k n : ℕ) (xs ys : List A) → k * n ≤ length xs → runs k n (xs ++ ys) ≡ runs k n xs
  unfolding runs
  runs-append zero n xs ys h = refl
  runs-append (suc k) n xs ys h = ap₂ ◌∷◌ (take-append_le n xs ys (omega arith)) (
      ap (runs k n) (drop-append_le n xs ys (omega arith))
      ∙ runs-append k n (drop n xs) ys (omega (arith, length-drop n xs)))

  -- Runs over both parts, the first being whole.
  pub runs-append_add :
      (a b c n : ℕ) (xs ys : List A)
      → length xs ≡ a * n
      → a + b ≡ c
      → runs c n (xs ++ ys) ≡ runs a n xs ++ runs b n ys
  runs-append_add a b c n xs ys h e =
      let here : a * n ≤ length xs = omega arith in
      runs-add a b c n (xs ++ ys) e
      ∙ ap₂ ◌++◌ (runs-append a n xs ys here)
          (ap (runs b n) (drop-append_add (a * n) 0 (a * n) xs ys h (omega arith)))

module _ {ℓ κ} {A : Type ℓ} {B : Type κ} (f : B → A → B) where
  pub foldl-append : (b : B) (xs ys : List A) → foldl f b (xs ++ ys) ≡ foldl f (foldl f b xs) ys
  foldl-append b [] ys = refl
  foldl-append b (x ∷ xs) ys = foldl-append (f b x) xs ys
