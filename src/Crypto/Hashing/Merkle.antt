-- ===== src/Crypto/Hashing/Merkle.antt =====
-- hashing.rs: `MerkleTree`.
use libre_drive.Prelude.{
  ℕ, zero, suc, ◌+◌, Bool, false, Option, none, some, List, [], ◌∷◌, ◌++◌, map, length, get_elem?,
}
use libre_drive.Prelude.Text.{Bytes}
pub mod Root
pub mod Verify
pub mod Clash
pub mod Binding
pub mod Rounds
use libre_drive.Crypto.Hashing.Library.{HashLib}
use libre_drive.Crypto.Hashing.{ContentHash, hash, hash_eq}

pub record MerkleTree : Type 0 where
  pub root : ContentHash
  pub leaves : List ContentHash

-- The hash of two nodes: of their bytes, one behind the other.
unfoldable pub combine : HashLib → ContentHash → ContentHash → ContentHash
combine lib a b = hash lib (a.raw ++ b.raw)

-- One round of `compute_root`, over `chunks(2)`: an odd last node is promoted.
unfoldable pub next_level : HashLib → List ContentHash → List ContentHash
next_level lib [] = []
next_level lib (a ∷ []) = a ∷ []
next_level lib (a ∷ b ∷ rest) = combine lib a b ∷ next_level lib rest

-- `while current_level.len() > 1`, on fuel, and `current_level[0]`. `none` means that the fuel ran out.
unfoldable pub levels : HashLib → ℕ → List ContentHash → Option ContentHash
levels lib fuel [] = none
levels lib fuel (a ∷ []) = some a
levels lib zero (a ∷ b ∷ rest) = none
levels lib (suc fuel) (a ∷ b ∷ rest) = levels lib fuel (next_level lib (a ∷ b ∷ rest))

-- `MerkleTree::compute_root`; the number of leaves is fuel enough.
unfoldable pub compute_root : HashLib → List ContentHash → Option ContentHash
compute_root lib [] = some (hash lib [])
compute_root lib (a ∷ []) = some a
compute_root lib (a ∷ b ∷ rest) = levels lib (length (a ∷ b ∷ rest)) (a ∷ b ∷ rest)

-- `MerkleTree::build`
unfoldable pub build : HashLib → List Bytes → Option MerkleTree
build lib pieces =
    let leaves = map (hash lib) pieces in
    elim (compute_root lib leaves) [
      | none ↦ none
      | some root ↦ some (record { root = root; leaves = leaves })
    ]

-- `MerkleTree::verify_chunk`; an index out of range is rejected.
unfoldable pub verify_chunk : HashLib → MerkleTree → Bytes → ℕ → Bool
verify_chunk lib t chunk index = elim (get_elem? t.leaves index) [
  | none ↦ false
  | some leaf ↦ hash_eq (hash lib chunk) leaf
]

-- `MerkleTree::leaf_count`
abbrev pub leaf_count : MerkleTree → ℕ
leaf_count t = length t.leaves
