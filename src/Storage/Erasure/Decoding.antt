-- ===== src/Storage/Erasure/Decoding.antt =====
-- erasure.rs: `decode` restores what was encoded, from enough of its shards.
use libre_drive.Prelude.{
  ℕ, zero, suc, ◌+◌, ◌^◌, ◌≤◌, ◌<◌, ◌≡◌, refl, sym, ap, ◌∙◌, inl, inr, true, Option, none, some,
  List, [], ◌∷◌, ◌++◌, map, arith, leb, ◌==◌, length, get_elem?, take, drop, flatten, length-append,
  length-map, drop-drop, get_elem?-drop,
}
use libre_drive.Prelude.Result.{ok}
use libre_drive.Prelude.Text.{Bytes}
use libre_drive.Storage.Erasure.Code.{ReedSolomon, IsCode, LeftOf, present}
use libre_drive.Storage.Erasure.Blocks.{length-blocks, take-blocks}
use libre_drive.Storage.Erasure.Encoding.{
  shard_size, data_blocks, empty_parity, room, encode-blocks,
}
use libre_drive.Storage.Erasure.{
  ErasureConfig, Shard, total_shards, number_shards, encode, count_some, first_size, shard_contents,
  join_from, decode,
}

LeftOf-length :
    {A : Type 0} (left : List (Option A)) (xs : List A) → LeftOf left xs → length left ≡ length xs
LeftOf-length [] [] h = refl
LeftOf-length [] (x ∷ xs) h = elim h [ ]
LeftOf-length (o ∷ left) [] h = elim h [ ]
LeftOf-length (o ∷ left) (x ∷ xs) h = ap suc (LeftOf-length left xs h.1)

pub present-count :
    (left : List (Option Shard)) → present (map shard_contents left) ≡ count_some left
unfolding count_some
present-count [] = refl
present-count (none ∷ left) = present-count left
present-count (some s ∷ left) = ap suc (present-count left)

first_size-some :
    (left : List (Option Shard)) → 0 < count_some left → (n : ℕ) × (first_size left ≡ some n)
unfolding count_some first_size
first_size-some [] h = absurd (omega arith)
first_size-some (none ∷ left) h = first_size-some left h
first_size-some (some s ∷ left) h = (length s.contents, refl)

-- Joining the first shards of a complete list.
join_from-blocks :
    (all bs filled : List Bytes) (i : ℕ)
    → drop i all ≡ bs ++ filled
    → join_from (map some all) (length bs) i ≡ ok (flatten bs)
unfolding join_from
join_from-blocks all [] filled i h = refl
join_from-blocks all (b ∷ bs) filled i h =
    let got : get_elem? (map some all) i ≡ some (some b) =
      get-map i all ∙ ap lift (get_elem?-drop i all h) in
    let next : drop (i + 1) all ≡ bs ++ filled =
      sym (drop-drop i 1 (i + 1) all refl) ∙ ap (drop 1) h in
    rw (got, join_from-blocks all bs filled (i + 1) next)
  where
    lift : Option Bytes → Option (Option Bytes)
    lift none = none
    lift (some x) = some (some x)

    get-map : (i : ℕ) (xs : List Bytes) → get_elem? (map some xs) i ≡ lift (get_elem? xs i)
    get-map i [] = refl
    get-map zero (x ∷ xs) = refl
    get-map (suc i) (x ∷ xs) = get-map i xs

module _ (rs : ReedSolomon) (c : ErasureConfig)
    (code : IsCode rs c.data_shards c.parity_shards) where
  module _ (xs : Bytes) (nonempty : 0 < length xs) (small : length xs < 2 ^ 63)
      (filled : List Bytes) (full : length filled ≡ c.parity_shards)
      (encoded : rs.encode c.data_shards c.parity_shards
          (data_blocks rs c code xs nonempty small ++ empty_parity rs c code xs nonempty small)
        ≡ ok (data_blocks rs c code xs nonempty small ++ filled)) where
    abbrev bs : List Bytes
    bs = data_blocks rs c code xs nonempty small

    -- From enough of the encoded bytes, `decode` returns the blocks up to the given size.
    pub decode-blocks :
        (left : List (Option Shard)) (size : ℕ)
        → LeftOf (map shard_contents left) (bs ++ filled)
        → c.data_shards ≤ count_some left
        → decode rs c left size ≡ ok (take size (flatten bs))
    unfolding decode
    decode-blocks left size h enough =
        let some_data = code.some_data in
        let few = code.not_too_many in
        let l = LeftOf-length (map shard_contents left) (bs ++ filled) h in
        let m = length-map left shard_contents in
        let la = length-append bs filled in
        let lb = length-blocks c.data_shards (shard_size rs c code xs nonempty small) xs in
        let n : length left ≡ total_shards c = omega arith in
        let right : (length left == total_shards c) ≡ true = ground arith in
        let enough' : leb c.data_shards (count_some left) ≡ true = ground arith in
        let (k, first) = first_size-some left (omega arith) in
        let rebuilt =
          code.reconstructs _ _ (map shard_contents left) encoded h
            (omega (arith, present-count left)) in
        let joined : join_from (map some (bs ++ filled)) c.data_shards 0 ≡ ok (flatten bs) =
          ap (λ r. join_from (map some (bs ++ filled)) r 0) (sym lb)
          ∙ join_from-blocks (bs ++ filled) bs filled 0 refl in
        rw (right, enough', first, rebuilt, joined)

module _ (rs : ReedSolomon) (c : ErasureConfig) (code : IsCode rs c.data_shards c.parity_shards)
    (xs : Bytes) (nonempty : 0 < length xs) (small : length xs < 2 ^ 63) where
  LeftOf-contents :
      (i : ℕ) (left : List (Option Shard)) (all : List Bytes)
      → LeftOf left (number_shards c.data_shards i all)
      → LeftOf (map shard_contents left) all
  unfolding number_shards
  LeftOf-contents i [] [] h = tt
  LeftOf-contents i [] (x ∷ all) h = elim h [ ]
  LeftOf-contents i (o ∷ left) [] h = elim h [ ]
  LeftOf-contents i (o ∷ left) (x ∷ all) h = (
    elim h.0 [ inl e ↦ inl (ap shard_contents e) | inr e ↦ inr (ap shard_contents e) ],
    LeftOf-contents (i + 1) left all h.1,
  )

  -- For a code with the configured numbers, data that is not empty (and shorter than 2^63 bytes) is
  -- encoded, and whichever of its shards are lost, as long as `data_shards` of them are left, `decode`
  -- with the data's length returns the data.
  pub decode-encode :
      (shards : List Shard) × (encode rs c xs ≡ ok shards)
      × ((left : List (Option Shard))
          → LeftOf left shards
          → c.data_shards ≤ count_some left
          → decode rs c left (length xs) ≡ ok xs)
  decode-encode =
      let (filled, e, made, l, sizes) = encode-blocks rs c code xs nonempty small in
      let n = shard_size rs c code xs nonempty small in
      let all = data_blocks rs c code xs nonempty small ++ filled in
      (
        number_shards c.data_shards 0 all,
        made,
        λ left h enough.
            decode-blocks rs c code xs nonempty small filled l e left (length xs)
              (LeftOf-contents 0 left all h) enough
            ∙ ap ok (take-blocks c.data_shards n xs (room rs c code xs nonempty small)),
      )
