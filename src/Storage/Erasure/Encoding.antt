-- ===== src/Storage/Erasure/Encoding.antt =====
-- erasure.rs: what `encode` returns.
use libre_drive.Prelude.{
  ℕ, zero, suc, ◌+◌, ◌*◌, ◌^◌, ◌≤◌, ◌<◌, ◌≡◌, refl, ap, ◌∙◌, some, List, [], ◌∷◌, ◌++◌, arith, leb,
  All, length, get_elem?, drop, replicate, length-append, length-replicate,
}
use libre_drive.Prelude.Result.{ok}
use libre_drive.Prelude.Text.{Bytes}
use libre_drive.Storage.Erasure.Code.{ReedSolomon, IsCode}
use libre_drive.Storage.Erasure.Blocks.{
  blocks, data_shards_from-eq-blocks, length-blocks, blocks-length, calculate_shard_size_lem,
}
use libre_drive.Storage.Erasure.{
  ErasureConfig, Shard, total_shards, calculate_shard_size, data_shards_from, number_shards, encode,
}

replicate-All : (k n : ℕ) → All (λ x. length x ≡ n) (replicate k (replicate {A = ℕ} n 0))
replicate-All zero n = tt
replicate-All (suc k) n = (length-replicate n 0, replicate-All k n)

pub All-append {ℓ κ} :
    {A : Type ℓ} (P : A → Type κ) (xs ys : List A) → All P xs → All P ys → All P (xs ++ ys)
All-append P [] ys hx hy = hy
All-append P (x ∷ xs) ys hx hy = (hx.0, All-append P xs ys hx.1 hy)

-- The shard at a position bears that index, and a parity flag from the first parity shard on.
number_shards-at :
    (d n i j k : ℕ) (xss : List Bytes)
    → i + j ≡ k
    → All (λ x. length x ≡ n) xss
    → j < length xss
    → (s : Shard) × (get_elem? (number_shards d i xss) j ≡ some s)
      × (s.index ≡ k)
      × (s.is_parity ≡ leb d k)
      × (length s.contents ≡ n)
      × (s.original_size ≡ n)
unfolding number_shards
number_shards-at d n i j k [] e h lt = absurd (omega arith)
number_shards-at d n i zero k (xs ∷ rest) e h lt =
    let e' : i ≡ k = omega arith in
    (
      record { index = i; contents = xs; is_parity = leb d i; original_size = length xs },
      refl,
      e',
      ap (leb d) e',
      h.0,
      h.0,
    )
number_shards-at d n i (suc j) k (xs ∷ rest) e h lt =
    number_shards-at d n (i + 1) j k rest (omega arith) h.1 (omega arith)

pub length-number_shards :
    (d i : ℕ) (xss : List Bytes) → length (number_shards d i xss) ≡ length xss
unfolding number_shards
length-number_shards d i [] = refl
length-number_shards d i (xs ∷ rest) = ap suc (length-number_shards d (i + 1) rest)

module _ (rs : ReedSolomon) (c : ErasureConfig) (code : IsCode rs c.data_shards c.parity_shards)
    (xs : Bytes) (nonempty : 0 < length xs) (small : length xs < 2 ^ 63) where
  -- The size of the shards.
  abbrev pub shard_size : ℕ
  shard_size = calculate_shard_size c (length xs)

  abbrev pub data_blocks : List Bytes
  data_blocks = blocks c.data_shards shard_size xs

  abbrev pub empty_parity : List Bytes
  empty_parity = replicate c.parity_shards (replicate shard_size 0)

  pub room : length xs ≤ c.data_shards * shard_size
  room =
      let t = code.not_too_many in
      (calculate_shard_size_lem c (length xs) code.some_data (omega arith) small).0

  shard_size-pos : 0 < shard_size
  shard_size-pos = positive shard_size room
    where
      positive : (n : ℕ) → length xs ≤ c.data_shards * n → 0 < n
      positive zero h = absurd (omega arith)
      positive (suc n) h = omega arith

  -- `encode` succeeds; these are the bytes of its shards.
  pub encode-blocks :
      (filled : List Bytes) × (rs.encode c.data_shards c.parity_shards (data_blocks ++ empty_parity)
        ≡ ok (data_blocks ++ filled))
      × (encode rs c xs ≡ ok (number_shards c.data_shards 0 (data_blocks ++ filled)))
      × (length filled ≡ c.parity_shards)
      × All (λ x. length x ≡ shard_size) filled
  unfolding encode
  encode-blocks =
      let z : 0 * shard_size ≡ 0 = omega arith in
      let made : data_shards_from xs shard_size c.data_shards 0 ≡ data_blocks =
        data_shards_from-eq-blocks xs shard_size c.data_shards 0
        ∙ ap (λ k. blocks c.data_shards shard_size (drop k xs)) z in
      let (filled, e, l, sizes) =
        code.encodes shard_size data_blocks empty_parity shard_size-pos
          (length-blocks c.data_shards shard_size xs)
          (length-replicate c.parity_shards (replicate shard_size 0))
          (blocks-length c.data_shards shard_size xs) (replicate-All c.parity_shards shard_size) in
      (filled, e, rw (made, e), l, sizes)

  -- Data that is not empty (and shorter than 2^63 bytes) is encoded, over a code for the configured
  -- numbers: there are `total_shards` shards, of one size, each at the position that its index says,
  -- and marked as parity exactly from the index `data_shards` on. The size times the number of data
  -- shards covers the data and exceeds it by less than one byte per data shard.
  pub encode-shape :
      (shards : List Shard) × (size : ℕ) × (encode rs c xs ≡ ok shards)
      × (length shards ≡ total_shards c)
      × ((i : ℕ)
          → i < total_shards c
          → (s : Shard) × (get_elem? shards i ≡ some s)
            × (s.index ≡ i)
            × (s.is_parity ≡ leb c.data_shards i)
            × (length s.contents ≡ size)
            × (s.original_size ≡ size))
      × (length xs ≤ c.data_shards * size)
      × (c.data_shards * size < length xs + c.data_shards)
  encode-shape =
      let (filled, e, made, l, sizes) = encode-blocks in
      let all = data_blocks ++ filled in
      let t = code.not_too_many in
      let total : c.data_shards + c.parity_shards ≡ total_shards c = omega arith in
      let n : length all ≡ total_shards c = omega (
        arith,
        length-append data_blocks filled,
        total,
        length-blocks c.data_shards shard_size xs,
      ) in
      (
        number_shards c.data_shards 0 all,
        shard_size,
        made,
        length-number_shards c.data_shards 0 all ∙ n,
        (λ i lt.
            number_shards-at c.data_shards shard_size 0 i i all (omega arith)
              (All-append _ data_blocks filled (blocks-length c.data_shards shard_size xs) sizes)
              (omega arith)),
        room,
        (calculate_shard_size_lem c (length xs) code.some_data (omega arith) small).1,
      )
