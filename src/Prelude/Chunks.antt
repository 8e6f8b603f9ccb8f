-- ===== src/Prelude/Chunks.antt =====
-- `slice::chunks` of the standard library: consecutive pieces of `n` members, the last one shorter.
use Prim.Native.Nat.{ℕ, zero, suc, ◌+◌, ◌-◌, ◌*◌, ◌≤◌, ◌<◌}
use mathlib.Core.Path.{◌≡◌, refl, ap, ◌∙◌}
use mathlib.Core.List.{List, [], ◌∷◌, ◌++◌}
use native.Mathlib.Omega.{arith}
use native.Mathlib.Decide.{dec_lt}
use libre_drive.Prelude.Lists.{
  All, length, take, drop, flatten, take-append-drop, length-take, length-drop,
}

-- One more piece, of a length divided with rounding up.
round_up_step :
    (n l m q : ℕ)
    → m ≡ l - n
    → m ≤ n * q
    → n * q < m + n
    → 0 < n
    → 0 < l
    → (l ≤ n * suc q) × (n * suc q < l + n)
round_up_step n l m zero e a b h k = (omega arith, omega arith)
round_up_step n l m (suc q) e a b h k = elim (dec_lt n l) [
  | yes p ↦ (omega arith, omega arith)
  | no p ↦ absurd (grind arith)
]

module _ {ℓ} {A : Type ℓ} where
  -- With fuel: each round takes at least one member if `n` is not 0.
  abbrev chunks_from : ℕ → ℕ → List A → List (List A)
  chunks_from zero n xs = []
  chunks_from (suc fuel) n [] = []
  chunks_from (suc fuel) n (x ∷ xs) = take n (x ∷ xs) ∷ chunks_from fuel n (drop n (x ∷ xs))

  -- The length is fuel enough. (The callers reject `n = 0`, at which `chunks` panics.)
  unfoldable pub chunks : ℕ → List A → List (List A)
  chunks n xs = chunks_from (length xs) n xs

  flatten-chunks_from :
      (fuel n : ℕ) (xs : List A) → 0 < n → length xs ≤ fuel → flatten (chunks_from fuel n xs) ≡ xs
  flatten-chunks_from zero n [] h le = refl
  flatten-chunks_from zero n (x ∷ xs) h le = absurd (omega arith)
  flatten-chunks_from (suc fuel) n [] h le = refl
  flatten-chunks_from (suc fuel) n (x ∷ xs) h le =
      ap (◌++◌ (take n (x ∷ xs)))
        (flatten-chunks_from fuel n (drop n (x ∷ xs)) h (omega (arith, length-drop n (x ∷ xs))))
      ∙ take-append-drop n (x ∷ xs)

  -- The pieces are the whole.
  pub flatten-chunks : (n : ℕ) (xs : List A) → 0 < n → flatten (chunks n xs) ≡ xs
  unfolding chunks
  flatten-chunks n xs h = flatten-chunks_from (length xs) n xs h (omega arith)

  chunks_from-bounded :
      (fuel n : ℕ) (xs : List A)
      → 0 < n
      → All (λ c. (0 < length c) × (length c ≤ n)) (chunks_from fuel n xs)
  chunks_from-bounded zero n xs h = tt
  chunks_from-bounded (suc fuel) n [] h = tt
  chunks_from-bounded (suc fuel) n (x ∷ xs) h = (
    (omega (arith, length-take n (x ∷ xs)), omega (arith, length-take n (x ∷ xs))),
    chunks_from-bounded fuel n (drop n (x ∷ xs)) h,
  )

  -- No piece is empty or longer than `n`.
  pub chunks-bounded :
      (n : ℕ) (xs : List A) → 0 < n → All (λ c. (0 < length c) × (length c ≤ n)) (chunks n xs)
  unfolding chunks
  chunks-bounded n xs h = chunks_from-bounded (length xs) n xs h

  length-chunks_from :
      (fuel n : ℕ) (xs : List A)
      → 0 < n
      → length xs ≤ fuel
      → (length xs ≤ n * length (chunks_from fuel n xs))
        × (n * length (chunks_from fuel n xs) < length xs + n)
  length-chunks_from zero n [] h le = (omega arith, omega arith)
  length-chunks_from zero n (x ∷ xs) h le = absurd (omega arith)
  length-chunks_from (suc fuel) n [] h le = (omega arith, omega arith)
  length-chunks_from (suc fuel) n (x ∷ xs) h le =
      let ih =
        length-chunks_from fuel n (drop n (x ∷ xs)) h (omega (arith, length-drop n (x ∷ xs))) in
      let d = length-drop n (x ∷ xs) in
      round_up_step n (suc (length xs)) (length (drop n (x ∷ xs)))
        (length (chunks_from fuel n (drop n (x ∷ xs)))) d ih.0 ih.1 h (omega arith)

  -- The number of pieces is the length over `n`, rounded up.
  pub length-chunks :
      (n : ℕ) (xs : List A)
      → 0 < n
      → (length xs ≤ n * length (chunks n xs)) × (n * length (chunks n xs) < length xs + n)
  unfolding chunks
  length-chunks n xs h = length-chunks_from (length xs) n xs h (omega arith)
