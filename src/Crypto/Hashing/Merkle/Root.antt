-- ===== src/Crypto/Hashing/Merkle/Root.antt =====
-- hashing.rs: `compute_root` ends, and the root is that of a tree with the largest full tree on its
-- left.
use libre_drive.Prelude.{
  ℕ, zero, suc, ◌+◌, ◌*◌, ◌/◌, ◌^◌, ◌≤◌, ◌<◌, ◌≡◌, refl, sym, ap, ◌∙◌, some, List, [], ◌∷◌, ◌++◌,
  arith, length, length-append,
}
use native.Mathlib.Nat.{pow-suc}
use libre_drive.Crypto.Hashing.Library.{HashLib}
use libre_drive.Crypto.Hashing.{ContentHash, hash}
use libre_drive.Crypto.Hashing.Merkle.{combine, next_level, levels, compute_root}

module _ (lib : HashLib) where
  pub length-next_level : (l : List ContentHash) → length (next_level lib l) ≡ (length l + 1) / 2
  unfolding next_level
  length-next_level [] = omega arith
  length-next_level (a ∷ []) = omega arith
  length-next_level (a ∷ b ∷ rest) = omega (arith, length-next_level rest)

  levels-total :
      (fuel : ℕ) (l : List ContentHash)
      → 0 < length l
      → length l ≤ suc fuel
      → (x : ContentHash) × (levels lib fuel l ≡ some x)
  unfolding levels
  levels-total fuel [] h k = absurd (omega arith)
  levels-total fuel (a ∷ []) h k = (a, refl)
  levels-total zero (a ∷ b ∷ rest) h k = absurd (omega arith)
  levels-total (suc fuel) (a ∷ b ∷ rest) h k =
      let n = length-next_level (a ∷ b ∷ rest) in
      levels-total fuel (next_level lib (a ∷ b ∷ rest)) (omega arith) (omega arith)

  -- `compute_root` always returns: the loop ends within as many rounds as there are leaves.
  pub compute_root-total :
      (l : List ContentHash) → (x : ContentHash) × (compute_root lib l ≡ some x)
  unfolding compute_root
  compute_root-total [] = (hash lib [], refl)
  compute_root-total (a ∷ []) = (a, refl)
  compute_root-total (a ∷ b ∷ rest) =
      levels-total (length (a ∷ b ∷ rest)) (a ∷ b ∷ rest) (omega arith) (omega arith)

  -- More fuel does not change a root.
  levels_mono :
      (f g : ℕ) (l : List ContentHash) {x : ContentHash}
      → levels lib f l ≡ some x
      → f ≤ g
      → levels lib g l ≡ some x
  unfolding levels
  levels_mono f g [] e h = cc
  levels_mono f g (a ∷ []) e h = e
  levels_mono zero g (a ∷ b ∷ rest) e h = cc
  levels_mono (suc f) zero (a ∷ b ∷ rest) e h = absurd (omega arith)
  levels_mono (suc f) (suc g) (a ∷ b ∷ rest) e h = levels_mono f g _ e (omega arith)

  pub compute_root-eq-levels :
      (f : ℕ) (l : List ContentHash) {x : ContentHash}
      → levels lib f l ≡ some x
      → compute_root lib l ≡ some x
  unfolding compute_root levels
  compute_root-eq-levels f [] e = cc
  compute_root-eq-levels f (a ∷ []) e = e
  compute_root-eq-levels f (a ∷ b ∷ rest) {x} e =
      let l = a ∷ b ∷ rest in
      let (y, t) = levels-total (length l) l (omega arith) (omega arith) in
      let same : some y ≡ some x =
        sym (levels_mono (length l) (f + length l) l t (omega arith))
        ∙ levels_mono f (f + length l) l e (omega arith) in
      t ∙ same

  pub levels-compute_root :
      (l : List ContentHash) {x : ContentHash}
      → 0 < length l
      → compute_root lib l ≡ some x
      → levels lib (length l) l ≡ some x
  unfolding compute_root levels
  levels-compute_root [] h e = absurd (omega arith)
  levels-compute_root (a ∷ []) h e = e
  levels-compute_root (a ∷ b ∷ rest) h e = e

  -- An even number of nodes is paired without those behind them.
  next_level-append :
      (m : ℕ) (l r : List ContentHash)
      → length l ≡ 2 * m
      → next_level lib (l ++ r) ≡ next_level lib l ++ next_level lib r
  unfolding next_level
  next_level-append m [] r e = refl
  next_level-append m (a ∷ []) r e = absurd (omega arith)
  next_level-append zero (a ∷ b ∷ l) r e = absurd (omega arith)
  next_level-append (suc m) (a ∷ b ∷ l) r e =
      ap (◌∷◌ (combine lib a b)) (next_level-append m l r (omega arith))

  -- One round down, where there is more than one node.
  pub levels-next :
      (f : ℕ) (l : List ContentHash) {x : ContentHash}
      → levels lib f l ≡ some x
      → (g : ℕ) × (levels lib g (next_level lib l) ≡ some x)
  unfolding levels next_level
  levels-next f [] e = cc
  levels-next f (a ∷ []) e = (f, e)
  levels-next zero (a ∷ b ∷ rest) e = cc
  levels-next (suc f) (a ∷ b ∷ rest) e = (f, e)

  levels-up :
      (f : ℕ) (l : List ContentHash) {x : ContentHash}
      → 1 < length l
      → levels lib f (next_level lib l) ≡ some x
      → levels lib (suc f) l ≡ some x
  unfolding levels
  levels-up f [] h e = absurd (omega arith)
  levels-up f (a ∷ []) h e = absurd (omega arith)
  levels-up f (a ∷ b ∷ rest) h e = e

  levels-split :
      (k f g : ℕ) (l r : List ContentHash) (x y : ContentHash)
      → length l ≡ 2 ^ k
      → 0 < length r
      → length r ≤ 2 ^ k
      → levels lib f l ≡ some x
      → levels lib g r ≡ some y
      → (h : ℕ) × (levels lib h (l ++ r) ≡ some (combine lib x y))
  levels-split zero f g l r x y e p q el er = base l r e p q el er
    where
      base :
          (l r : List ContentHash)
          → length l ≡ 1
          → 0 < length r
          → length r ≤ 1
          → levels lib f l ≡ some x
          → levels lib g r ≡ some y
          → (h : ℕ) × (levels lib h (l ++ r) ≡ some (combine lib x y))
      base [] r e p q el er = absurd (omega arith)
      base (a ∷ b ∷ l) r e p q el er = absurd (omega arith)
      base (a ∷ []) [] e p q el er = absurd (omega arith)
      base (a ∷ []) (b ∷ c ∷ r) e p q el er = absurd (omega arith)
      base (a ∷ []) (b ∷ []) e p q el er = (1, unfold levels next_level in cc)
  levels-split (suc k) f g l r x y e p q el er =
      let two : 2 ^ suc k ≡ 2 * 2 ^ k = omega (arith, pow-suc 2 k) in
      let (f', el') = levels-next f l el in
      let (g', er') = levels-next g r er in
      let nl = length-next_level l in
      let nr = length-next_level r in
      let (h, eh) =
        levels-split k f' g' (next_level lib l) (next_level lib r) x y (omega arith) (omega arith)
          (omega arith) el' er' in
      let la = length-append l r in
      (
        suc h,
        levels-up h (l ++ r) (omega arith) (rw (next_level-append (2 ^ k) l r (omega arith)) eh),
      )

  -- The tree over 2^k leaves followed by at least one and at most 2^k more is the node over the two
  -- trees: its root is the hash of their roots.
  pub compute_root-append :
      (k : ℕ) (l r : List ContentHash) (x y : ContentHash)
      → length l ≡ 2 ^ k
      → 0 < length r
      → length r ≤ 2 ^ k
      → compute_root lib l ≡ some x
      → compute_root lib r ≡ some y
      → compute_root lib (l ++ r) ≡ some (combine lib x y)
  compute_root-append k l r x y e p q el er =
      let (h, eh) =
        levels-split k (length l) (length r) l r x y e p q (levels-compute_root l (omega arith) el)
          (levels-compute_root r p er) in
      compute_root-eq-levels h (l ++ r) eh
