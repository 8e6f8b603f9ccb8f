-- ===== src/Crypto/Hashing/Merkle/Rounds.antt =====
-- hashing.rs: how many rounds the loop of `compute_root` takes.
use libre_drive.Prelude.{
  ℕ, zero, suc, ◌^◌, ◌≤◌, ◌<◌, ◌≡◌, refl, sym, ◌∙◌, some, List, [], ◌∷◌, arith, length,
}
use native.Mathlib.Nat.{pow-suc}
use libre_drive.Crypto.Hashing.Library.{HashLib}
use libre_drive.Crypto.Hashing.{ContentHash}
use libre_drive.Crypto.Hashing.Merkle.{next_level, levels, compute_root}
use libre_drive.Crypto.Hashing.Merkle.Root.{
  length-next_level, compute_root-total, compute_root-eq-levels,
}

module _ (lib : HashLib) where
  levels-rounds :
      (n : ℕ) (l : List ContentHash)
      → 0 < length l
      → length l ≤ 2 ^ n
      → (x : ContentHash) × (levels lib n l ≡ some x)
  unfolding levels
  levels-rounds n [] h k = absurd (omega arith)
  levels-rounds n (a ∷ []) h k = (a, refl)
  levels-rounds zero (a ∷ b ∷ rest) h k = absurd (omega arith)
  levels-rounds (suc n) (a ∷ b ∷ rest) h k =
      let halved = length-next_level lib (a ∷ b ∷ rest) in
      let doubled = pow-suc 2 n in
      levels-rounds n (next_level lib (a ∷ b ∷ rest)) (omega arith) (omega arith)

  -- `compute_root` returns a root for every list of leaves. Of one leaf or more, the loop finds it within
  -- n rounds for every n with at most 2^n leaves.
  pub compute_root-rounds :
      (l : List ContentHash)
      → (x : ContentHash) × (compute_root lib l ≡ some x)
        × ((n : ℕ) → 0 < length l → length l ≤ 2 ^ n → levels lib n l ≡ some x)
  compute_root-rounds l =
      let (x, e) = compute_root-total lib l in
      (
        x,
        e,
        λ n some_leaf few.
            let (y, f) = levels-rounds n l some_leaf few in
            f ∙ sym (compute_root-eq-levels lib n l f) ∙ e,
      )
