-- ===== src/Crypto/Hashing/Merkle/Binding.antt =====
-- hashing.rs: two Merkle trees with the same root.
use libre_drive.Prelude.{
  ℕ, zero, suc, ◌<◌, ◌≡◌, refl, sym, ap, ◌∙◌, subst, ◌⊎◌, inl, inr, some, List, [], ◌∷◌, ◌++◌, map,
  arith, All, length, length-map,
}
use libre_drive.Prelude.Text.{Bytes}
use libre_drive.Prelude.Dict.{total}
use mathlib.Core.Path.{ap₂}
use libre_drive.Crypto.Hashing.Library.{HashLib, IsHashLib}
use libre_drive.Crypto.Hashing.{ContentHash, hash}
use libre_drive.Crypto.Hashing.Merkle.{MerkleTree, combine, next_level, levels, compute_root, build}
use libre_drive.Crypto.Hashing.Merkle.Root.{
  length-next_level, compute_root-total, levels-compute_root, compute_root-eq-levels, levels-next,
}
use libre_drive.Crypto.Hashing.Merkle.Clash.{
  append-injective, Clash, Clash-next, same_or_Clash, Clash-append_left, Clash-append_right,
}

module _ (lib : HashLib) (laws : IsHashLib lib) where
  -- What one round of `compute_root` hashes
  abbrev pub pairs : List ContentHash → List Bytes
  pairs [] = []
  pairs (a ∷ []) = []
  pairs (a ∷ b ∷ rest) = (a.raw ++ b.raw) ∷ pairs rest

  -- What `compute_root` hashes
  unfoldable pub hashed : ℕ → List ContentHash → List Bytes
  hashed fuel [] = []
  hashed fuel (a ∷ []) = []
  hashed zero (a ∷ b ∷ rest) = []
  hashed (suc fuel) (a ∷ b ∷ rest) =
      pairs (a ∷ b ∷ rest) ++ hashed fuel (next_level lib (a ∷ b ∷ rest))

  -- What `MerkleTree::build` hashes
  abbrev pub hashed_by_build : List Bytes → List Bytes
  hashed_by_build pieces = pieces ++ hashed (length pieces) (map (hash lib) pieces)

  abbrev AreHashes : List ContentHash → Type 0
  AreHashes = All (λ h. length h.raw ≡ 32)

  AreHashes-next_level : (l : List ContentHash) → AreHashes l → AreHashes (next_level lib l)
  unfolding next_level combine hash
  AreHashes-next_level [] h = tt
  AreHashes-next_level (a ∷ []) h = h
  AreHashes-next_level (a ∷ b ∷ rest) h =
      (laws.length-blake3 (a.raw ++ b.raw), AreHashes-next_level rest h.1.1)

  combine-injective :
      (a b c d : ContentHash) (xs ys : List Bytes)
      → length a.raw ≡ 32
      → length c.raw ≡ 32
      → combine lib a b ≡ combine lib c d
      → ((a ≡ c) × (b ≡ d)) ⊎ Clash lib ((a.raw ++ b.raw) ∷ xs) ((c.raw ++ d.raw) ∷ ys)
  unfolding combine hash
  combine-injective a b c d xs ys h k e =
      elim (same_or_Clash lib (a.raw ++ b.raw) (c.raw ++ d.raw) xs ys (ap (λ t. t.raw) e)) [
        | inl same ↦
            let (first, second) = append-injective a.raw c.raw b.raw d.raw (h ∙ sym k) same in
            inl (ap (λ r. record { raw = r }) first, ap (λ r. record { raw = r }) second)
        | inr clash ↦ inr clash
      ]

  next_level-binds :
      (l m : List ContentHash)
      → length l ≡ length m
      → AreHashes l
      → AreHashes m
      → next_level lib l ≡ next_level lib m
      → (l ≡ m) ⊎ Clash lib (pairs l) (pairs m)
  unfolding next_level
  next_level-binds [] [] n h k e = inl refl
  next_level-binds [] (c ∷ m) n h k e = absurd (omega arith)
  next_level-binds (a ∷ l) [] n h k e = absurd (omega arith)
  next_level-binds (a ∷ []) (c ∷ []) n h k e = inl e
  next_level-binds (a ∷ []) (c ∷ d ∷ m) n h k e = absurd (omega arith)
  next_level-binds (a ∷ b ∷ l) (c ∷ []) n h k e = absurd (omega arith)
  next_level-binds (a ∷ b ∷ l) (c ∷ d ∷ m) n h k e =
      let first : combine lib a b ≡ combine lib c d = cc in
      let rest : next_level lib l ≡ next_level lib m = cc in
      elim (combine-injective a b c d (pairs l) (pairs m) h.0 k.0 first) [
        | inr clash ↦ inr clash
        | inl (s, t) ↦ elim (next_level-binds l m (omega arith) h.1.1 k.1.1 rest) [
          | inr clash ↦ inr (Clash-next lib (a.raw ++ b.raw) (c.raw ++ d.raw) clash)
          | inl u ↦ inl (cc)
        ]
      ]

  levels-binds :
      (fuel : ℕ) (l m : List ContentHash) {x : ContentHash}
      → length l ≡ length m
      → AreHashes l
      → AreHashes m
      → levels lib fuel l ≡ some x
      → levels lib fuel m ≡ some x
      → (l ≡ m) ⊎ Clash lib (hashed fuel l) (hashed fuel m)
  unfolding levels hashed
  levels-binds fuel [] m n h k e f = cc
  levels-binds fuel (a ∷ l) [] n h k e f = absurd (omega arith)
  levels-binds fuel (a ∷ []) (c ∷ []) n h k e f =
      let same : a ≡ c = cc in inl (ap (λ t. t ∷ []) same)
  levels-binds fuel (a ∷ []) (c ∷ d ∷ m) n h k e f = absurd (omega arith)
  levels-binds fuel (a ∷ b ∷ l) (c ∷ []) n h k e f = absurd (omega arith)
  levels-binds zero (a ∷ b ∷ l) (c ∷ d ∷ m) n h k e f = cc
  levels-binds (suc fuel) (a ∷ b ∷ l) (c ∷ d ∷ m) n h k e f =
      let l' = a ∷ b ∷ l in
      let m' = c ∷ d ∷ m in
      elim (levels-binds fuel (next_level lib l') (next_level lib m')
        (omega (arith, length-next_level lib l', length-next_level lib m'))
        (AreHashes-next_level l' h) (AreHashes-next_level m' k) e f) [
          | inr clash ↦ inr (Clash-append_right lib (pairs l') (pairs m') _ _ clash)
          | inl same ↦ elim (next_level-binds l' m' n h k same) [
            | inl s ↦ inl s
            | inr clash ↦ inr (Clash-append_left lib (pairs l') (pairs m') _ _ clash)
          ]
        ]

  leaves-bind :
      (ps qs : List Bytes) → map (hash lib) ps ≡ map (hash lib) qs → (ps ≡ qs) ⊎ Clash lib ps qs
  unfolding hash
  leaves-bind [] [] e = inl refl
  leaves-bind [] (q ∷ qs) e = cc
  leaves-bind (p ∷ ps) [] e = cc
  leaves-bind (p ∷ ps) (q ∷ qs) e =
      let first : hash lib p ≡ hash lib q = cc in
      let rest : map (hash lib) ps ≡ map (hash lib) qs = cc in
      elim (same_or_Clash lib p q ps qs (ap (λ t. t.raw) first)) [
        | inr clash ↦ inr clash
        | inl s ↦ elim (leaves-bind ps qs rest) [
          | inr clash ↦ inr (Clash-next lib p q clash)
          | inl t ↦ inl (ap₂ (λ x xs. x ∷ xs) s t)
        ]
      ]

  AreHashes-leaves : (ps : List Bytes) → AreHashes (map (hash lib) ps)
  unfolding hash
  AreHashes-leaves [] = tt
  AreHashes-leaves (p ∷ ps) = (laws.length-blake3 p, AreHashes-leaves ps)

  built : List Bytes → ContentHash → MerkleTree
  built ps root = record { root = root; leaves = map (hash lib) ps }

  build-root :
      (ps : List Bytes) (root : ContentHash)
      → compute_root lib (map (hash lib) ps) ≡ some root
      → build lib ps ≡ some (built ps root)
  unfolding build built
  build-root ps root e = rw (e, build)

  root-build :
      (ps : List Bytes) (t : MerkleTree)
      → build lib ps ≡ some t
      → compute_root lib (map (hash lib) ps) ≡ some t.root
  unfolding built
  root-build ps t e =
      let (root, total) = compute_root-total lib (map (hash lib) ps) in
      let made : some (built ps root) ≡ some t = sym (build-root ps root total) ∙ e in
      let same : built ps root ≡ t = cc in total ∙ ap (λ b. some (b.root)) same

  -- Two lists of equally many chunks whose trees have the same root are the same, or two different
  -- inputs are at hand, among those that were hashed for the one and for the other tree, with the same
  -- BLAKE3 hash.
  pub build-binds :
      (ps qs : List Bytes) (t u : MerkleTree)
      → length ps ≡ length qs
      → build lib ps ≡ some t
      → build lib qs ≡ some u
      → t.root ≡ u.root
      → (ps ≡ qs) ⊎ Clash lib (hashed_by_build ps) (hashed_by_build qs)
  build-binds [] [] t u n e f same = inl refl
  build-binds [] (q ∷ qs) t u n e f same = absurd (omega arith)
  build-binds (p ∷ ps) [] t u n e f same = absurd (omega arith)
  build-binds (p ∷ ps) (q ∷ qs) t u n e f same =
      let l = map (hash lib) (p ∷ ps) in
      let m = map (hash lib) (q ∷ qs) in
      let nl = length-map (p ∷ ps) (hash lib) in
      let nm = length-map (q ∷ qs) (hash lib) in
      let el = levels-compute_root lib l (omega (arith, nl)) (root-build (p ∷ ps) t e) in
      let em = levels-compute_root lib m (omega (arith, nm)) (root-build (q ∷ qs) u f) in
      elim (levels-binds (length (p ∷ ps)) l m (nl ∙ n ∙ sym nm) (AreHashes-leaves (p ∷ ps))
        (AreHashes-leaves (q ∷ qs)) (subst (λ k. levels lib k l ≡ some t.root) nl el)
        (subst (λ k. levels lib k m ≡ some t.root) (nm ∙ sym n) (em ∙ ap some (sym same)))) [
          | inr clash ↦ inr (
              Clash-append_right lib (p ∷ ps) (q ∷ qs) _ _
                (subst (λ k. Clash lib (hashed (length (p ∷ ps)) l) (hashed k m)) n clash))
          | inl s ↦ elim (leaves-bind (p ∷ ps) (q ∷ qs) s) [
            | inl r ↦ inl r
            | inr clash ↦ inr (Clash-append_left lib (p ∷ ps) (q ∷ qs) _ _ clash)
          ]
        ]

-- The nodes above the leaves of a tree, taken as leaves, have the same root: leaves and inner nodes are
-- hashed alike, so a root does not settle how many leaves there are.
pub compute_root-next_level :
    (lib : HashLib) (l : List ContentHash)
    → 1 < length l
    → compute_root lib (next_level lib l) ≡ compute_root lib l
compute_root-next_level lib l many =
    let (x, e) = compute_root-total lib l in
    let (g, f) = levels-next lib (length l) l (levels-compute_root lib l (omega arith) e) in
    compute_root-eq-levels lib g (next_level lib l) f ∙ sym e
