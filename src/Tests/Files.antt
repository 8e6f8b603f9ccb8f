-- ===== src/Tests/Files.antt =====
-- rust_core/src/storage/, rust_core/src/identity/ and hashing.rs at concrete inputs.
use libre_drive.Prelude.{
  suc, ap, length-map, ℕ, ◌≤◌, ◌≡◌, refl, ◌↔◌, inr, true, Option, some, List, [], ◌∷◌, ◌++◌, map,
  arith, length, get_elem?, take, replicate, length-replicate,
}
use libre_drive.Prelude.Result.{Result, ok}
use libre_drive.Prelude.Text.{Bytes, Str, text}
use libre_drive.Prelude.Int.{pos}
use libre_drive.Crypto.Encryption.{EncryptedFile}
use libre_drive.Crypto.Hashing.{ContentHash}
use libre_drive.Crypto.Hashing.Merkle.{
  MerkleTree, combine, next_level, levels, compute_root, build, verify_chunk, leaf_count,
}
use libre_drive.Crypto.Hashing.Merkle.Root.{compute_root-append}
use libre_drive.Crypto.Hashing.Merkle.Verify.{verify_chunk-build}
use libre_drive.Identity.{UserIdentity, generate_heartbeat, verify_heartbeat, is_recent}
use libre_drive.Identity.Laws.{IsIdentity, generate_heartbeat-verifies}
use libre_drive.Storage.Erasure.{ErasureConfig, new_config, Shard, encode, decode, count_some}
use libre_drive.Storage.Erasure.Code.{LeftOf}
use libre_drive.Storage.Erasure.Decoding.{decode-encode}
use libre_drive.Storage.FileManager.{
  new_manager, with_erasure_config, FileManager, PreparedFile, prepare_upload, reconstruct_file,
}
use libre_drive.Storage.FileManager.Boundary.{Externals, Draws, AreDraws, AreExternals}
use libre_drive.Storage.FileManager.RoundTrip.{reconstruct_file-prepare_upload}
use libre_drive.Storage.FileManager.Integrity.{reconstruct_file-genuine}
use libre_drive.Tests.Crypto.{plain_cipher, plain_cipher-IsAead}
use libre_drive.Tests.Parts.{
  plain_hashes, plain_hashes-IsHashLib, plain_keys, plain_keys-IsIdentityLib,
}
use libre_drive.Tests.Code.{sum_code, sum_code-IsCode}
use libre_drive.Tests.Bincode.{to_words, from_words, length-to_words, from-to_words}

abbrev pub two_of_three : ErasureConfig
two_of_three = new_config 2 1

abbrev pub parts : Externals
parts = record {
  aead = plain_cipher;
  hashes = plain_hashes;
  keys = plain_keys;
  code = sum_code;
  serialize = λ e. ok (to_words e);
  deserialize = λ b. from_words b;
  mime_guess = λ name. text "text/plain";
}

reads_back :
    (e : EncryptedFile) (b rest : Bytes)
    → ◌≡◌ {A = Result Str Bytes} (ok (to_words e)) (ok b)
    → from_words (b ++ rest) ≡ ok e
reads_back e b rest same = let s : to_words e ≡ b = cc in rw (← s) (from-to_words e rest)

pub parts-AreExternals : AreExternals parts two_of_three
parts-AreExternals = record {
  aead_laws = plain_cipher-IsAead;
  code_laws = sum_code-IsCode;
  serialize-total = λ e. (to_words e, refl, length-to_words e);
  deserialize-serialize = reads_back;
}

abbrev pub someone : UserIdentity
someone = record {
  master_seed = text "seed";
  signing_keys = record { signing_key = text "key"; verifying_key = text "key" };
  encryption_key = record { key = replicate 32 7 };
  node_id = take 32 (text "key" ++ replicate 32 48);
}

someone-IsIdentity : IsIdentity plain_keys someone
someone-IsIdentity = record { paired = refl; named = refl; length-key = refl }

abbrev pub empty_manager : FileManager
empty_manager = with_erasure_config (new_manager someone (text "cache")) two_of_three

abbrev pub one_upload : Draws
one_upload = record {
  file = ok (text "hello");
  file_key = replicate 32 1;
  chunk_nonces = λ i. replicate 12 i;
  key_nonce = replicate 12 5;
  now = pos 1000;
}

pub one_upload-AreDraws : AreDraws one_upload
one_upload-AreDraws = record {
  length-file_key = refl;
  length-chunk_nonces = λ i. length-replicate 12 i;
  length-key_nonce = refl;
}

reconstruct_file-prepare_upload_example :
    (p : PreparedFile) × (prepare_upload parts empty_manager one_upload (text "a.txt") ≡ ok p)
    × (p.metadata.size ≡ 5)
    × (length p.shards ≡ 3)
    × ((left : List (Option Bytes))
        → LeftOf left (map (λ s. s.contents) p.shards)
        → 2 ≤ count_some left
        → reconstruct_file parts empty_manager p.metadata left ≡ ok (text "hello"))
reconstruct_file-prepare_upload_example =
    reconstruct_file-prepare_upload parts empty_manager parts-AreExternals one_upload
      one_upload-AreDraws (text "a.txt") (text "hello") refl (omega arith)

decode-encode_example :
    (shards : List Shard) × (encode sum_code two_of_three (text "hello") ≡ ok shards)
    × ((left : List (Option Shard))
        → LeftOf left shards
        → 2 ≤ count_some left
        → decode sum_code two_of_three left 5 ≡ ok (text "hello"))
decode-encode_example =
    decode-encode sum_code two_of_three sum_code-IsCode (text "hello") (omega arith) (omega arith)

generate_heartbeat-verifies_example :
    (verify_heartbeat plain_keys (generate_heartbeat plain_keys someone (pos 1000)) (text "key")
      ≡ true)
    × (is_recent (generate_heartbeat plain_keys someone (pos 1000)) (pos 1030) (pos 60) ≡ true)
generate_heartbeat-verifies_example =
    generate_heartbeat-verifies plain_keys plain_keys-IsIdentityLib someone someone-IsIdentity 1000
      1030 60 (omega arith) (omega arith) (omega arith)

verify_chunk-build_example :
    (t : MerkleTree) × (build plain_hashes (text "a" ∷ text "b" ∷ text "c" ∷ []) ≡ some t)
    × (leaf_count t ≡ 3)
    × ((i : ℕ) (chunk : Bytes)
        → (verify_chunk plain_hashes t chunk i ≡ true) ↔ (
            (piece : Bytes) × (get_elem? (text "a" ∷ text "b" ∷ text "c" ∷ []) i ≡ some piece)
            × (plain_hashes.blake3 chunk ≡ plain_hashes.blake3 piece)))
verify_chunk-build_example = verify_chunk-build plain_hashes (text "a" ∷ text "b" ∷ text "c" ∷ [])

abbrev leaf : ℕ → ContentHash
leaf n = record { raw = replicate 32 n }

compute_root-append_example :
    compute_root plain_hashes (leaf 1 ∷ leaf 2 ∷ leaf 3 ∷ [])
    ≡ some (combine plain_hashes (combine plain_hashes (leaf 1) (leaf 2)) (leaf 3))
unfolding compute_root levels next_level
compute_root-append_example =
    compute_root-append plain_hashes 1 (leaf 1 ∷ leaf 2 ∷ []) (leaf 3 ∷ [])
      (combine plain_hashes (leaf 1) (leaf 2)) (leaf 3) refl (omega arith) (omega arith) refl refl

all_left : (xs : List Bytes) → LeftOf (map some xs) xs
all_left [] = tt
all_left (x ∷ xs) = (inr refl, all_left xs)

count-all_left : (xs : List Bytes) → count_some (map some xs) ≡ length xs
unfolding count_some
count-all_left [] = refl
count-all_left (x ∷ xs) = ap suc (count-all_left xs)

abbrev all_shards : PreparedFile → List (Option Bytes)
all_shards p = map some (map (λ s. s.contents) p.shards)

uploaded :
    (p : PreparedFile) × (prepare_upload parts empty_manager one_upload (text "a.txt") ≡ ok p)
    × (reconstruct_file parts empty_manager p.metadata (all_shards p) ≡ ok (text "hello"))
uploaded =
    let (p, made, size, count, back) =
      reconstruct_file-prepare_upload parts empty_manager parts-AreExternals one_upload
        one_upload-AreDraws (text "a.txt") (text "hello") refl (omega arith) in
    let contents = map (λ (s : Shard). s.contents) p.shards in
    (
      p,
      made,
      back (all_shards p) (all_left contents) (
          omega (
            arith,
            count-all_left contents,
            length-map p.shards (λ (s : Shard). s.contents),
            count,
          )),
    )

reconstruct_file-genuine_example :
    plain_hashes.blake3 (text "hello") ≡ plain_hashes.blake3 (text "hello")
reconstruct_file-genuine_example =
    reconstruct_file-genuine parts plain_hashes-IsHashLib empty_manager empty_manager one_upload
      (text "a.txt") (text "hello") (text "hello") (uploaded.0) (all_shards (uploaded.0)) refl
      (uploaded.1) (uploaded.2)
