-- ===== src/Prelude/Slices.antt =====
-- Cutting lists into pieces and putting them together again.
use Prim.Native.Nat.{ℕ, zero, suc, ◌+◌, ◌≤◌}
use mathlib.Core.Path.{◌≡◌, refl, ap}
use mathlib.Core.List.{List, [], ◌∷◌, ◌++◌}
use mathlib.Core.Option.{some}
use native.Mathlib.Omega.{arith}
use libre_drive.Prelude.Lists.{length, get_elem?, take, drop}

module _ {ℓ} {A : Type ℓ} where
  pub take-all : (n : ℕ) (xs : List A) → length xs ≤ n → take n xs ≡ xs
  take-all zero [] h = refl
  take-all zero (x ∷ xs) h = absurd (omega arith)
  take-all (suc n) [] h = refl
  take-all (suc n) (x ∷ xs) h = ap (◌∷◌ x) (take-all n xs (omega arith))

  pub drop-all : (n : ℕ) (xs : List A) → length xs ≤ n → drop n xs ≡ []
  drop-all zero [] h = refl
  drop-all zero (x ∷ xs) h = absurd (omega arith)
  drop-all (suc n) [] h = refl
  drop-all (suc n) (x ∷ xs) h = drop-all n xs (omega arith)

  pub take-append_left : (n : ℕ) (xs ys : List A) → n ≤ length xs → take n (xs ++ ys) ≡ take n xs
  take-append_left zero xs ys h = refl
  take-append_left (suc n) [] ys h = absurd (omega arith)
  take-append_left (suc n) (x ∷ xs) ys h = ap (◌∷◌ x) (take-append_left n xs ys (omega arith))

  -- A prefix whose length is given by an equation.
  pub take-append :
      (n : ℕ) (xs ys : List A) (k : ℕ) → n ≡ length xs + k → take n (xs ++ ys) ≡ xs ++ take k ys
  take-append n [] ys k e = ap (λ m. take m ys) (omega arith)
  take-append zero (x ∷ xs) ys k e = absurd (omega arith)
  take-append (suc n) (x ∷ xs) ys k e = ap (◌∷◌ x) (take-append n xs ys k (omega arith))

  pub drop-append :
      (n : ℕ) (xs ys : List A) (k : ℕ) → n ≡ length xs + k → drop n (xs ++ ys) ≡ drop k ys
  drop-append n [] ys k e = ap (λ m. drop m ys) (omega arith)
  drop-append zero (x ∷ xs) ys k e = absurd (omega arith)
  drop-append (suc n) (x ∷ xs) ys k e = drop-append n xs ys k (omega arith)

  pub drop-drop : (m n k : ℕ) (xs : List A) → k ≡ m + n → drop n (drop m xs) ≡ drop k xs
  drop-drop zero n k xs e = ap (λ j. drop j xs) (omega arith)
  drop-drop (suc m) zero zero [] e = refl
  drop-drop (suc m) (suc n) zero [] e = refl
  drop-drop (suc m) zero (suc k) [] e = refl
  drop-drop (suc m) (suc n) (suc k) [] e = refl
  drop-drop (suc m) n zero (x ∷ xs) e = absurd (omega arith)
  drop-drop (suc m) n (suc k) (x ∷ xs) e = drop-drop m n k xs (omega arith)

  pub get_elem?-drop :
      (i : ℕ) (xs : List A) {x : A} {rest : List A} → drop i xs ≡ x ∷ rest → get_elem? xs i ≡ some x
  get_elem?-drop zero [] e = ground arith
  get_elem?-drop zero (y ∷ xs) e = ground arith
  get_elem?-drop (suc i) [] e = ground arith
  get_elem?-drop (suc i) (y ∷ xs) e = get_elem?-drop i xs e
