-- ===== src/Storage/Erasure.antt =====
-- rust_core/src/storage/erasure.rs: splitting data into shards and putting it together again. The
-- crate reed_solomon_erasure is the parameter `ReedSolomon`.
use libre_drive.Prelude.{
  ℕ, zero, suc, ◌+◌, ◌-◌, ◌*◌, ◌/◌, min, Bool, Option, none, some, List, [], ◌∷◌, ◌++◌, map, ltb,
  leb, ◌==◌, if◌then◌else◌, sum, length, get_elem?, take, drop, replicate,
}
use libre_drive.Prelude.Result.{Result, ok, ◌>>=◌, ◌>>◌, map_err, ok_or, or_panic, guard}
use libre_drive.Prelude.Text.{Bytes, Str, text, show}
use libre_drive.Prelude.Word.{add_u64, sub_u64}
use libre_drive.Storage.{StorageError, erasure_coding, insufficient_fragments}
pub mod Code
pub mod Blocks
pub mod Encoding
pub mod Decoding
use Code.{ReedSolomon}

pub record ErasureConfig : Type 0 where
  pub data_shards : ℕ
  pub parity_shards : ℕ

-- `ErasureConfig::new`
abbrev pub new_config : ℕ → ℕ → ErasureConfig
new_config data_shards parity_shards = record {
  data_shards = data_shards;
  parity_shards = parity_shards;
}

-- `ErasureConfig::default`
abbrev pub default : ErasureConfig
default = record { data_shards = 10; parity_shards = 4 }

-- `ErasureConfig::total_shards`, `min_shards`, `max_losses`
abbrev pub total_shards : ErasureConfig → ℕ
total_shards c = add_u64 c.data_shards c.parity_shards

abbrev pub min_shards : ErasureConfig → ℕ
min_shards c = c.data_shards

abbrev pub max_losses : ErasureConfig → ℕ
max_losses c = c.parity_shards

-- The field `data` is `contents` here.
pub record Shard : Type 0 where
  pub index : ℕ
  pub contents : Bytes
  pub is_parity : Bool
  pub original_size : ℕ

-- format!("{:02}", n)
abbrev pub show_padded : ℕ → Str
show_padded n = if ltb n 10 then b'0' ∷ show n else show n

-- `Shard::id`
unfoldable pub shard_id : Shard → Str → Str
shard_id s file_hash = file_hash ++ text "-shard-" ++ show_padded s.index

-- `ErasureEncoder` and `ErasureDecoder` hold the config beside a `ReedSolomon` that is fixed by it.
-- `ErasureEncoder::new` and `ErasureDecoder::new`
unfoldable pub new_coder : ReedSolomon → ErasureConfig → Result StorageError ErasureConfig
new_coder rs c = do map_err erasure_coding (rs.create c.data_shards c.parity_shards); ok c

-- `calculate_shard_size`; a coder has at least one data shard.
unfoldable pub calculate_shard_size : ErasureConfig → ℕ → ℕ
calculate_shard_size c data_len = sub_u64 (add_u64 data_len c.data_shards) 1 / c.data_shards

-- Vec::resize(n, 0)
abbrev pub resize : Bytes → ℕ → Bytes
resize xs n = take n xs ++ replicate (n - length xs) 0

-- The data shard of round `i` of the loop in `encode`.
unfoldable pub data_shard : Bytes → ℕ → ℕ → Bytes
data_shard xs shard_size i =
    let start = i * shard_size in
    let end = min (start + shard_size) (length xs) in
    let shard = if ltb start (length xs) then take (end - start) (drop start xs) else [] in
    resize shard shard_size

-- The loop over the data shards, with the rounds left and the round `i`.
unfoldable pub data_shards_from : Bytes → ℕ → ℕ → ℕ → List Bytes
data_shards_from xs shard_size zero i = []
data_shards_from xs shard_size (suc rounds) i =
    data_shard xs shard_size i ∷ data_shards_from xs shard_size rounds (i + 1)

-- The shard objects, from the index `i` on.
unfoldable pub number_shards : ℕ → ℕ → List Bytes → List Shard
number_shards data_shards i [] = []
number_shards data_shards i (xs ∷ rest) =
    record { index = i; contents = xs; is_parity = leb data_shards i; original_size = length xs }
    ∷ number_shards data_shards (i + 1) rest

-- `ErasureEncoder::encode`
unfoldable pub encode : ReedSolomon → ErasureConfig → Bytes → Result StorageError (List Shard)
encode rs c xs = do
  let shard_size = calculate_shard_size c (length xs)
  let shards = data_shards_from xs shard_size c.data_shards 0
  let parity = replicate c.parity_shards (replicate shard_size 0)
  filled ← map_err erasure_coding (rs.encode c.data_shards c.parity_shards (shards ++ parity))
  ok (number_shards c.data_shards 0 filled)

-- shards.iter().filter(|s| s.is_some()).count()
unfoldable pub count_some {ℓ} : {A : Type ℓ} → List (Option A) → ℕ
count_some [] = 0
count_some (none ∷ rest) = count_some rest
count_some (some x ∷ rest) = suc (count_some rest)

-- The length of the first shard that is there.
unfoldable pub first_size : List (Option Shard) → Option ℕ
first_size [] = none
first_size (none ∷ rest) = first_size rest
first_size (some s ∷ rest) = some (length s.contents)

-- opt.map(|s| s.data)
abbrev pub shard_contents : Option Shard → Option Bytes
shard_contents none = none
shard_contents (some s) = some s.contents

-- The loop that joins the data shards, with the rounds left and the round `i`. `none` at the index
-- is out of range.
unfoldable pub join_from : List (Option Bytes) → ℕ → ℕ → Result StorageError Bytes
join_from shards zero i = ok []
join_from shards (suc rounds) i = do
  found ← or_panic (get_elem? shards i)
  shard ← ok_or found (erasure_coding (text "Reconstruction failed"))
  rest ← join_from shards rounds (i + 1)
  ok (shard ++ rest)

-- `ErasureDecoder::decode`
unfoldable pub decode :
    ReedSolomon → ErasureConfig → List (Option Shard) → ℕ → Result StorageError Bytes
decode rs c shards original_size = do
  guard (length shards == total_shards c) (
      erasure_coding
        (text "Expected " ++ show (total_shards c) ++ text " shards, got " ++ show (length shards)))
  let available = count_some shards
  guard (leb c.data_shards available) (insufficient_fragments available c.data_shards)
  ok_or (first_size shards) (erasure_coding (text "No shards available"))
  rebuilt ←
      map_err erasure_coding
        (rs.reconstruct c.data_shards c.parity_shards (map shard_contents shards))
  joined ← join_from rebuilt c.data_shards 0
  ok (take original_size joined)

-- `ErasureDecoder::verify`
unfoldable pub verify : ReedSolomon → ErasureConfig → List Bytes → Result StorageError Bool
verify rs c shards = map_err erasure_coding (rs.verify c.data_shards c.parity_shards shards)

pub record EncodedFile : Type 0 where
  pub file_hash : Str
  pub original_size : ℕ
  pub config : ErasureConfig
  pub shards : List Shard

-- `EncodedFile::shard_ids`
abbrev pub shard_ids : EncodedFile → List Str
shard_ids f = map (λ s. shard_id s f.file_hash) f.shards

-- `EncodedFile::total_size`; the sum of the lengths of buffers that are in memory does not wrap.
abbrev pub total_size : EncodedFile → ℕ
total_size f = sum (map (λ s. length s.contents) f.shards)
