-- ===== src/Tests/Hosts.antt =====
-- An upload whose shards are kept by nodes.
use libre_drive.Prelude.{
  suc, ◌≤◌, ◌≡◌, refl, ap, true, Option, none, some, List, [], ◌∷◌, ◌++◌, arith, leb, All, length,
}
use libre_drive.Prelude.Result.{Result, ok, err, panic}
use libre_drive.Prelude.Text.{Bytes, Str, text, str_eq, digits}
use libre_drive.Prelude.Word.{add_u64}
use libre_drive.Prelude.Int.{pos, add_i64}
use libre_drive.Prelude.Chunks.{chunks}
use libre_drive.Crypto.Encryption.{encrypt, encrypt_chunks, encrypt_file}
use libre_drive.Identity
use libre_drive.Identity.SeedPhrase.{is_ok}
use libre_drive.Storage.{StorageError}
use libre_drive.Storage.Erasure.{
  new_coder, calculate_shard_size, data_shard, data_shards_from, number_shards, encode, shard_id,
  count_some,
}
use libre_drive.Storage.FileManager.{
  PreparedFile, locate, prepare_upload, to_bytes, reconstruct_file, shard_data,
}
use libre_drive.P2p.StorageManager.{new}
use libre_drive.P2p.StorageManager.Fragment.{first_two, is_plain}
use libre_drive.P2p.StorageManager.Retrieval.{store_fragment-eq}
use libre_drive.P2p.StorageManager.Calls.{store, retrieve, extend_owner, cleanup, run}
use libre_drive.P2p.StorageManager.Restart.{retrieve-restarted}
use libre_drive.P2p.StorageManager.View.{done, reply_of, respond}
use libre_drive.P2p.StorageManager.Heartbeats.{deadline, after_call, retrieve-renewed}
use libre_drive.Durability.{
  Host, fetched, Keeps, Answers, no_shard, lost, kept, kept_restarted, final_node, asked_node,
  restarted_node, Again, reconstruct_file-hosted,
}
use libre_drive.Tests.Code.{encode_sum, add}
use libre_drive.Tests.Bincode.{to_words, offset_words}
use libre_drive.Tests.Files.{
  parts, parts-AreExternals, empty_manager, one_upload, one_upload-AreDraws,
}
use libre_drive.Tests.Numbers.{number_crates, number_crates-Works, number_crates-ReadsBack}

-- The value of a result that is one.
abbrev value_of : {E A : Type 0} (r : Result E A) → is_ok r ≡ true → A
value_of (ok a) h = a
value_of (err e) h = absurd (ground (arith, h))
value_of panic h = absurd (ground (arith, h))

abbrev upload : Result StorageError PreparedFile
upload = prepare_upload parts empty_manager one_upload (text "a.txt")

is_ok-upload : is_ok upload ≡ true
unfolding prepare_upload encrypt_file encrypt_chunks chunks encrypt to_bytes new_coder encode
    encode_sum data_shards_from data_shard calculate_shard_size to_words offset_words
    Identity.encrypt
is_ok-upload = refl

abbrev hello_file : PreparedFile
hello_file = value_of upload is_ok-upload

value_of-eq : {E A : Type 0} (r : Result E A) (h : is_ok r ≡ true) → r ≡ ok (value_of r h)
value_of-eq (ok a) h = refl
value_of-eq (err e) h = ground (arith, h)
value_of-eq panic h = ground (arith, h)

-- A node that kept a shard, with a heartbeat after it was stored.
abbrev keeper : Host
keeper = record {
  offer = 1000;
  before = [];
  owner = text "alice";
  expires = pos 100;
  now = pos 10;
  after = extend_owner (text "alice") 30 (pos 50) ∷ [];
}

-- A restart, and a clean-up and a heartbeat after it.
abbrev restarted : Again
restarted = record {
  offer = 500;
  further = cleanup (pos 1000000) ∷ extend_owner (text "alice") 30 (pos 1500000) ∷ [];
}

accepts :
    (id xs prefix : Str)
    → first_two id ≡ some prefix
    → leb (add_u64 0 (length xs)) 1000 ≡ true
    → respond number_crates
        (store id (text "alice") xs (pos 100) (pos 10))
        (asked_node number_crates (pos 2000000) keeper)
      ≡ done
unfolding respond run
accepts id xs prefix long fits =
    ap (λ r. reply_of (λ f. done) r.0)
      (store_fragment-eq number_crates id (text "alice") xs (pos 100) (pos 10) (new 1000) [] fits
        prefix long _ refl)

keeps :
    (id xs prefix : Str)
    → is_plain id ≡ true
    → first_two id ≡ some prefix
    → leb (add_u64 0 (length xs)) 1000 ≡ true
    → Keeps number_crates (pos 2000000) keeper keeper.after id xs
unfolding deadline after_call str_eq add_i64
keeps id xs prefix plain long fits = record {
  plain_before = tt;
  plain_id = plain;
  plain_after = (tt, tt);
  accepted = accepts id xs prefix long fits;
  expires' = pos 2592050;
  in_time = refl;
  valid = refl;
}

in_time_over :
    (id xs prefix : Str)
    → is_plain id ≡ true
    → first_two id ≡ some prefix
    → leb (add_u64 0 (length xs)) 1000 ≡ true
    → Keeps number_crates (pos 2000000) keeper (keeper.after ++ restarted.further) id xs
unfolding deadline after_call str_eq add_i64
in_time_over id xs prefix plain long fits = record {
  plain_before = tt;
  plain_id = plain;
  plain_after = (tt, (tt, (tt, tt)));
  accepted = accepts id xs prefix long fits;
  expires' = pos 4092000;
  in_time = refl;
  valid = refl;
}

-- All shards but the last are kept, each by such a node; the last of these was restarted.
abbrev hosted : List (Str × Bytes) → List (Option Bytes)
hosted [] = []
hosted ((id, xs) ∷ []) = none ∷ []
hosted ((id, xs) ∷ s ∷ []) =
    fetched (
      respond number_crates (retrieve id (pos 2000000))
        (restarted_node number_crates (pos 2000000) keeper restarted id xs))
    ∷ none
    ∷ []
hosted ((id, xs) ∷ s ∷ t ∷ shards) =
    fetched (
      respond number_crates (retrieve id (pos 2000000))
        (final_node number_crates (pos 2000000) keeper id xs))
    ∷ hosted (s ∷ t ∷ shards)

-- A shard that a node takes
record IsTaken (s : Str × Bytes) : Type 0 where
  prefix : Str
  plain : is_plain s.0 ≡ true
  long : first_two s.0 ≡ some prefix
  fits : leb (add_u64 0 (length s.1)) 1000 ≡ true

hosted-Answers :
    (shards : List (Str × Bytes))
    → All IsTaken shards
    → Answers number_crates (pos 2000000) shards (hosted shards)
hosted-Answers [] h = no_shard
hosted-Answers ((id, xs) ∷ []) h = lost no_shard
hosted-Answers ((id, xs) ∷ s ∷ []) (t, h) =
    kept_restarted keeper restarted number_crates-ReadsBack (omega arith)
      (in_time_over id xs t.prefix t.plain t.long t.fits) (lost no_shard)
hosted-Answers ((id, xs) ∷ s ∷ s' ∷ shards) (t, h) =
    kept keeper (keeps id xs t.prefix t.plain t.long t.fits) (hosted-Answers (s ∷ s' ∷ shards) h)

count_some-hosted :
    (shards : List (Str × Bytes))
    → All IsTaken shards
    → length shards ≤ suc (count_some (hosted shards))
unfolding count_some
count_some-hosted [] h = omega arith
count_some-hosted ((id, xs) ∷ []) h = omega arith
count_some-hosted ((id, xs) ∷ s ∷ []) (t, h) =
    let k = in_time_over id xs t.prefix t.plain t.long t.fits in
    let e =
      retrieve-restarted number_crates number_crates-Works number_crates-ReadsBack 1000 500 []
        keeper.after restarted.further id (text "alice") xs (pos 100) (pos 10) (pos 2000000)
        k.expires' tt k.plain_id (tt, tt) (tt, (tt, tt)) (omega arith) k.accepted k.in_time
        k.valid in
    rw e (omega arith)
count_some-hosted ((id, xs) ∷ s ∷ s' ∷ shards) (t, h) =
    let k = keeps id xs t.prefix t.plain t.long t.fits in
    let e =
      retrieve-renewed number_crates number_crates-Works 1000 [] keeper.after id (text "alice") xs
        (pos 100) (pos 10) (pos 2000000) k.expires' tt k.plain_id (tt, tt) k.accepted k.in_time
        k.valid in
    rw e (omega (arith, count_some-hosted (s ∷ s' ∷ shards) h))

taken : All IsTaken (shard_data hello_file)
unfolding prepare_upload encrypt_file encrypt_chunks chunks encrypt to_bytes new_coder encode
    encode_sum data_shards_from data_shard calculate_shard_size to_words offset_words
    Identity.encrypt number_shards locate shard_id first_two is_plain add digits
taken = (
  record { prefix = text "he"; plain = refl; long = refl; fits = refl },
  (
    record { prefix = text "he"; plain = refl; long = refl; fits = refl },
    (record { prefix = text "he"; plain = refl; long = refl; fits = refl }, tt),
  ),
)

three_shards : length (shard_data hello_file) ≡ 3
unfolding prepare_upload encrypt_file encrypt_chunks chunks encrypt to_bytes new_coder encode
    encode_sum data_shards_from data_shard calculate_shard_size to_words offset_words
    Identity.encrypt number_shards locate
three_shards = refl

reconstruct_file-hosted_example :
    reconstruct_file parts empty_manager hello_file.metadata (hosted (shard_data hello_file))
    ≡ ok (text "hello")
reconstruct_file-hosted_example =
    reconstruct_file-hosted parts empty_manager parts-AreExternals one_upload one_upload-AreDraws
      (text "a.txt") (text "hello") refl (omega arith) hello_file number_crates number_crates-Works
      (pos 2000000) (hosted (shard_data hello_file)) (value_of-eq upload is_ok-upload)
      (hosted-Answers (shard_data hello_file) taken)
      (omega (arith, count_some-hosted (shard_data hello_file) taken, three_shards))
