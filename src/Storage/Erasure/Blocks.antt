-- ===== src/Storage/Erasure/Blocks.antt =====
-- erasure.rs: the data shards hold the data, and zeros behind it.
use libre_drive.Prelude.{
  ℕ, zero, suc, ◌+◌, ◌-◌, ◌*◌, ◌^◌, ◌≤◌, ◌<◌, min, ◌≡◌, refl, sym, ap, ◌∙◌, inl, inr, List, [], ◌∷◌,
  ◌++◌, append-nil, append_assoc, arith, ltb, ltb→lt, Bool-cases, All, length, take, drop,
  replicate, flatten, length-append, take-append-drop, length-take, length-drop, length-replicate,
  take-all, drop-all, take-append, drop-drop,
}
use libre_drive.Prelude.Text.{Bytes}
use libre_drive.Prelude.Word.{add_u64, sub_u64, add_u64-eq, sub_u64-eq}
use mathlib.Core.Path.{ap₂}
use libre_drive.Storage.Erasure.{
  ErasureConfig, calculate_shard_size, resize, data_shard, data_shards_from,
}

-- The data cut into `rounds` blocks of `n` bytes, the last ones filled with zeros.
abbrev pub blocks : ℕ → ℕ → Bytes → List Bytes
blocks zero n xs = []
blocks (suc rounds) n xs = resize xs n ∷ blocks rounds n (drop n xs)

-- Both branches of the loop's body are a `resize` of what lies behind the start.
data_shard-eq-resize : (xs : Bytes) (n i : ℕ) → data_shard xs n i ≡ resize (drop (i * n) xs) n
unfolding data_shard
data_shard-eq-resize xs n i = elim (Bool-cases (ltb (i * n) (length xs))) [
  | inl inside ↦
      let lt = ltb→lt (i * n) (length xs) inside in
      let k = min (i * n + n) (length xs) - i * n in
      let d = length-drop (i * n) xs in
      let t = length-take k (drop (i * n) xs) in
      rw inside (
        ap₂ ◌++◌ (same_take k (drop (i * n) xs) n (omega arith))
          (ap (λ m. replicate m 0) (omega arith)))
  | inr outside ↦
      let empty : drop (i * n) xs ≡ [] = drop-all (i * n) xs (ground arith) in rw (outside, empty)
]
  where
    same_take :
        (k : ℕ) (ys : Bytes) (n : ℕ) → k ≡ min n (length ys) → take n (take k ys) ≡ take n ys
    same_take k ys zero e = refl
    same_take zero [] (suc n) e = refl
    same_take (suc k) [] (suc n) e = refl
    same_take zero (y ∷ ys) (suc n) e = absurd (omega arith)
    same_take (suc k) (y ∷ ys) (suc n) e = ap (◌∷◌ y) (same_take k ys n (omega arith))

-- The loop of `encode` makes the blocks.
pub data_shards_from-eq-blocks :
    (xs : Bytes) (n rounds i : ℕ)
    → data_shards_from xs n rounds i ≡ blocks rounds n (drop (i * n) xs)
unfolding data_shards_from
data_shards_from-eq-blocks xs n zero i = refl
data_shards_from-eq-blocks xs n (suc rounds) i = ap₂ ◌∷◌ (data_shard-eq-resize xs n i) (
    data_shards_from-eq-blocks xs n rounds (i + 1)
    ∙ ap (blocks rounds n) (sym (drop-drop (i * n) n ((i + 1) * n) xs (omega arith))))

pub length-blocks : (rounds n : ℕ) (xs : Bytes) → length (blocks rounds n xs) ≡ rounds
length-blocks zero n xs = refl
length-blocks (suc rounds) n xs = ap suc (length-blocks rounds n (drop n xs))

length-resize : (xs : Bytes) (n : ℕ) → length (resize xs n) ≡ n
length-resize xs n = omega (
  arith,
  length-append (take n xs) (replicate (n - length xs) 0),
  length-take n xs,
  length-replicate {A = ℕ} (n - length xs) 0,
)

pub blocks-length : (rounds n : ℕ) (xs : Bytes) → All (λ x. length x ≡ n) (blocks rounds n xs)
blocks-length zero n xs = tt
blocks-length (suc rounds) n xs = (length-resize xs n, blocks-length rounds n (drop n xs))

-- If the blocks have room for the data, they begin with it.
pub take-blocks :
    (rounds n : ℕ) (xs : Bytes)
    → length xs ≤ rounds * n
    → take (length xs) (flatten (blocks rounds n xs)) ≡ xs
take-blocks zero n [] h = refl
take-blocks zero n (x ∷ xs) h = absurd (omega arith)
take-blocks (suc rounds) n xs h = elim (Bool-cases (ltb n (length xs))) [
  | inl more ↦
      let lt = ltb→lt n (length xs) more in
      let z : n - length xs ≡ 0 = omega arith in
      let t = length-take n xs in
      let d = length-drop n xs in
      rw (z, append-nil (take n xs))
        (take-append (length xs) (take n xs) (flatten (blocks rounds n (drop n xs)))
            (length (drop n xs)) (omega arith)
          ∙ ap (◌++◌ (take n xs)) (take-blocks rounds n (drop n xs) (omega arith))
          ∙ take-append-drop n xs)
  | inr last ↦
      let le : length xs ≤ n = ground arith in
      rw (take-all n xs le, append_assoc)
        (take-append (length xs) xs
            (replicate (n - length xs) 0 ++ flatten (blocks rounds n (drop n xs))) 0 (omega arith)
          ∙ append-nil xs)
]

-- The shard size is the length over the number of data shards, rounded up.
pub calculate_shard_size_lem :
    (c : ErasureConfig) (n : ℕ)
    → 0 < c.data_shards
    → c.data_shards ≤ 256
    → n < 2 ^ 63
    → (n ≤ c.data_shards * calculate_shard_size c n)
      × (c.data_shards * calculate_shard_size c n < n + c.data_shards)
unfolding calculate_shard_size
calculate_shard_size_lem c n some_data few small =
    let s = add_u64-eq n c.data_shards (omega arith) in
    let e : sub_u64 (add_u64 n c.data_shards) 1 ≡ n + c.data_shards - 1 =
      rw s (sub_u64-eq (n + c.data_shards) 1 (omega arith) (omega arith)) in
    rw e (grind arith, grind arith)
