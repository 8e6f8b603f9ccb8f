-- ===== src/Storage/Erasure/Code.antt =====
-- What erasure.rs uses of the crate reed_solomon_erasure, over GF(2^8).
use libre_drive.Prelude.{
  ℕ, suc, ◌+◌, ◌≤◌, ◌<◌, ◌≡◌, ◌⊎◌, Bool, Option, none, some, List, [], ◌∷◌, ◌++◌, map, All, length,
}
use libre_drive.Prelude.Result.{Result, ok}
use libre_drive.Prelude.Text.{Bytes, Str}

-- A codec for the given numbers of data and parity shards. `encode` is given all shards and returns
-- them with the parity shards filled in.
pub record ReedSolomon : Type 0 where
  pub create : ℕ → ℕ → Result Str (Unit {0})
  pub encode : ℕ → ℕ → List Bytes → Result Str (List Bytes)
  pub reconstruct : ℕ → ℕ → List (Option Bytes) → Result Str (List (Option Bytes))
  pub verify : ℕ → ℕ → List Bytes → Result Str Bool

-- The shards that are left of a list of shards.
abbrev pub LeftOf : {A : Type 0} → List (Option A) → List A → Type 0
LeftOf [] [] = Unit
LeftOf [] (x ∷ xs) = ⊥
LeftOf (o ∷ os) [] = ⊥
LeftOf (o ∷ os) (x ∷ xs) = ((o ≡ none) ⊎ (o ≡ some x)) × LeftOf os xs

-- shards.filter(is_some).count()
abbrev pub present : List (Option Bytes) → ℕ
present [] = 0
present (none ∷ os) = present os
present (some x ∷ os) = suc (present os)

-- The documented behaviour, for one pair of shard numbers: the codec exists, and then there are
-- between 1 and 255 data shards, at least one parity shard, and at most 256 in all; `encode` accepts
-- shards of one length above 0, and keeps the data shards and the lengths; `reconstruct` restores an
-- encoded list from any `d` of its shards.
pub record IsCode (rs : ReedSolomon) (d p : ℕ) : Type 0 where
  pub creates : rs.create d p ≡ ok tt
  pub some_data : 0 < d
  pub some_parity : 0 < p
  pub not_too_many : d + p ≤ 256
  pub encodes :
      (n : ℕ) (blocks parity : List Bytes)
      → 0 < n
      → length blocks ≡ d
      → length parity ≡ p
      → All (λ x. length x ≡ n) blocks
      → All (λ x. length x ≡ n) parity
      → (filled : List Bytes) × (rs.encode d p (blocks ++ parity) ≡ ok (blocks ++ filled))
        × (length filled ≡ p)
        × All (λ x. length x ≡ n) filled
  pub reconstructs :
      (shards encoded : List Bytes) (left : List (Option Bytes))
      → rs.encode d p shards ≡ ok encoded
      → LeftOf left encoded
      → d ≤ present left
      → rs.reconstruct d p left ≡ ok (map some encoded)
