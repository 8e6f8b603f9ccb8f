-- ===== src/Tests/Trees.antt =====
-- hashing.rs: Merkle trees at concrete inputs.
use libre_drive.Prelude.{
  ◌^◌, ◌≤◌, ◌<◌, length, ℕ, ◌≡◌, refl, ◌⊎◌, some, List, [], ◌∷◌, ◌++◌, arith, replicate,
}
use libre_drive.Prelude.Text.{Bytes}
use libre_drive.Crypto.Hashing.{ContentHash, hash}
use libre_drive.Crypto.Hashing.Merkle.{MerkleTree, combine, next_level, levels, compute_root, build}
use libre_drive.Crypto.Hashing.Merkle.Binding.{
  hashed_by_build, build-binds, compute_root-next_level,
}
use libre_drive.Crypto.Hashing.Merkle.Rounds.{compute_root-rounds}
use libre_drive.Crypto.Hashing.Merkle.Clash.{Clash}
use libre_drive.Tests.Parts.{plain_hashes, plain_hashes-IsHashLib}

-- The small hash reads 32 bytes, so that these two differ where it does not look.
abbrev ones : Bytes
ones = replicate 32 7 ++ 1 ∷ []

abbrev twos : Bytes
twos = replicate 32 7 ++ 2 ∷ []

abbrev some_tree : MerkleTree
some_tree = record {
  root = record { raw = replicate 32 7 };
  leaves = record { raw = replicate 32 7 } ∷ record { raw = 3 ∷ replicate 31 48 } ∷ [];
}

ones_tree : build plain_hashes (ones ∷ (3 ∷ []) ∷ []) ≡ some some_tree
unfolding build compute_root levels next_level combine hash
ones_tree = refl

twos_tree : build plain_hashes (twos ∷ (3 ∷ []) ∷ []) ≡ some some_tree
unfolding build compute_root levels next_level combine hash
twos_tree = refl

build-binds_example :
    (ones ∷ (3 ∷ []) ∷ [] ≡ twos ∷ (3 ∷ []) ∷ [])
    ⊎ Clash plain_hashes
        (hashed_by_build plain_hashes plain_hashes-IsHashLib (ones ∷ (3 ∷ []) ∷ []))
        (hashed_by_build plain_hashes plain_hashes-IsHashLib (twos ∷ (3 ∷ []) ∷ []))
build-binds_example =
    build-binds plain_hashes plain_hashes-IsHashLib (ones ∷ (3 ∷ []) ∷ []) (twos ∷ (3 ∷ []) ∷ [])
      some_tree some_tree refl ones_tree twos_tree refl

abbrev three_leaves : List ContentHash
three_leaves =
    record { raw = replicate 32 7 }
    ∷ record { raw = replicate 32 8 }
    ∷ record { raw = replicate 32 9 }
    ∷ []

compute_root-next_level_example :
    compute_root plain_hashes (next_level plain_hashes three_leaves)
    ≡ compute_root plain_hashes three_leaves
compute_root-next_level_example = compute_root-next_level plain_hashes three_leaves (omega arith)

compute_root-rounds_example :
    (x : ContentHash) × (compute_root plain_hashes three_leaves ≡ some x)
    × ((n : ℕ)
        → 0 < length three_leaves
        → length three_leaves ≤ 2 ^ n
        → levels plain_hashes n three_leaves ≡ some x)
compute_root-rounds_example = compute_root-rounds plain_hashes three_leaves
