-- ===== src/Crypto/Hashing/Merkle/Verify.antt =====
-- hashing.rs: which chunks a tree accepts.
use libre_drive.Prelude.{
  ℕ, zero, suc, ◌≡◌, refl, ap, ◌∙◌, ◌↔◌, inl, inr, true, Option, none, some, List, [], ◌∷◌, map,
  arith, Option-cases, length, get_elem?, length-map,
}
use libre_drive.Prelude.Text.{Bytes, str_eq_iff}
use libre_drive.Crypto.Hashing.Library.{HashLib}
use libre_drive.Crypto.Hashing.{ContentHash, hash, hash_eq}
use libre_drive.Crypto.Hashing.Merkle.{MerkleTree, build, verify_chunk, leaf_count}
use libre_drive.Crypto.Hashing.Merkle.Root.{compute_root-total}

module _ (lib : HashLib) where
  map_leaf : Option Bytes → Option ContentHash
  map_leaf none = none
  map_leaf (some x) = some (hash lib x)

  get-leaves :
      (i : ℕ) (pieces : List Bytes)
      → get_elem? (map (hash lib) pieces) i ≡ map_leaf (get_elem? pieces i)
  unfolding map_leaf
  get-leaves i [] = refl
  get-leaves zero (x ∷ pieces) = refl
  get-leaves (suc i) (x ∷ pieces) = get-leaves i pieces

  module _ (pieces : List Bytes) (root : ContentHash) where
    built : MerkleTree
    built = record { root = root; leaves = map (hash lib) pieces }

    verify_chunk-built :
        (i : ℕ) (chunk : Bytes)
        → (verify_chunk lib built chunk i ≡ true) ↔ (
            (piece : Bytes) × (get_elem? pieces i ≡ some piece)
            × (lib.blake3 chunk ≡ lib.blake3 piece))
    unfolding verify_chunk hash_eq hash built map_leaf
    verify_chunk-built i chunk = elim (Option-cases (get_elem? pieces i)) [
      | inl missing ↦
          let l = get-leaves i pieces ∙ ap map_leaf missing in
          ((λ accepted. absurd (ground (arith, l))), λ (piece, there, _). absurd (ground arith))
      | inr (piece, there) ↦
          let l = get-leaves i pieces ∙ ap map_leaf there in
          let same = str_eq_iff (lib.blake3 chunk) (lib.blake3 piece) in
          (
            (λ accepted. (piece, there, same.0 (ground (arith, l)))),
            λ (other, at, eq).
                let e : piece ≡ other = ground arith in
                ground (arith, l, str_eq_iff (lib.blake3 chunk) (lib.blake3 piece)),
          )
    ]

  -- `build` always returns a tree, with a leaf for each chunk, and `verify_chunk` accepts data at an
  -- index exactly if there is a chunk at that index and the data has the chunk's hash.
  pub verify_chunk-build :
      (pieces : List Bytes)
      → (t : MerkleTree) × (build lib pieces ≡ some t)
        × (leaf_count t ≡ length pieces)
        × ((i : ℕ) (chunk : Bytes)
            → (verify_chunk lib t chunk i ≡ true) ↔ (
                (piece : Bytes) × (get_elem? pieces i ≡ some piece)
                × (lib.blake3 chunk ≡ lib.blake3 piece)))
  unfolding build built
  verify_chunk-build pieces =
      let (root, e) = compute_root-total lib (map (hash lib) pieces) in
      (
        built pieces root,
        rw (e, build),
        length-map pieces (hash lib),
        verify_chunk-built pieces root,
      )
