-- ===== src/Storage/FileManager.antt =====
-- rust_core/src/storage/file_manager.rs: preparing a file for upload and putting it together again.
-- The index of files is in the child Index.
use libre_drive.Prelude.{
  ℕ, ◌+◌, ◌*◌, ◌/◌, ◌%◌, Bool, false, Option, none, some, List, [], ◌∷◌, map, leb, ◌==◌,
  if◌then◌else◌, length, get_elem?,
}
use libre_drive.Prelude.Result.{Result, ok, err, ◌>>=◌, ◌>>◌, map_err, guard}
use libre_drive.Prelude.Text.{Bytes, Str, text, str_eq}
use libre_drive.Prelude.Word.{u64_mod, add_u64}
use libre_drive.Prelude.Int.{ℤ}
use libre_drive.Prelude.Dict.{Dict}
use libre_drive.Crypto.{CryptoError, invalid_data}
use libre_drive.Crypto.Encryption.{
  new_key, generate_key, key_bytes, EncryptedFile, encrypt_file, decrypt_file,
}
use libre_drive.Crypto.Encryption
use libre_drive.Crypto.Hashing.{hash, to_base58}
use libre_drive.Identity.{UserIdentity, show_crypto_error, show_identity_error, public_id}
use libre_drive.Identity
use libre_drive.Storage.{
  StorageError, encryption, io, serialization, insufficient_fragments, integrity_check_failed,
}
use libre_drive.Storage.Erasure
use libre_drive.Storage.Erasure.{
  ErasureConfig, Shard, total_shards, shard_id, new_coder, encode, decode, count_some,
}
pub mod Boundary
pub mod Progress
pub mod Sizes
pub mod RoundTrip
pub mod Integrity
pub mod Index
use Boundary.{Externals, Draws}
use Progress.{UploadProgress, DownloadProgress, Sender}

pub record ShardLocation : Type 0 where
  pub index : ℕ
  pub shard_id : Str
  pub peers : List Str
  pub size : ℕ
  pub hash : Str

pub record FileMetadata : Type 0 where
  pub file_id : Str
  pub filename : Str
  pub size : ℕ
  pub mime_type : Str
  pub encrypted_hash : Str
  pub erasure_config : ErasureConfig
  pub shards : List ShardLocation
  pub created_at : ℤ
  pub modified_at : ℤ
  pub owner_id : Str
  pub is_shared : Bool
  pub shared_with : List Str
  pub encrypted_file_key : Bytes
  pub folder_id : Option Str
  pub tags : List Str

pub record PreparedFile : Type 0 where
  pub metadata : FileMetadata
  pub shards : List Shard

pub record FileManager : Type 0 where
  pub identity : UserIdentity
  pub file_index : Dict FileMetadata
  pub erasure_config : ErasureConfig
  pub cache_path : Str
  pub upload_progress_tx : Option (Sender UploadProgress)
  pub download_progress_tx : Option (Sender DownloadProgress)

-- `FileManager::new`
abbrev pub new_manager : UserIdentity → Str → FileManager
new_manager identity cache_path = record {
  identity = identity;
  file_index = [];
  erasure_config = Erasure.default;
  cache_path = cache_path;
  upload_progress_tx = none;
  download_progress_tx = none;
}

-- `FileManager::with_upload_progress` and `FileManager::with_download_progress`
abbrev pub with_upload_progress : FileManager → Sender UploadProgress → FileManager
with_upload_progress m tx = record m { upload_progress_tx = some tx }

abbrev pub with_download_progress : FileManager → Sender DownloadProgress → FileManager
with_download_progress m tx = record m { download_progress_tx = some tx }

-- `FileManager::with_erasure_config`
abbrev pub with_erasure_config : FileManager → ErasureConfig → FileManager
with_erasure_config m config = record m { erasure_config = config }

-- `EncryptedFile::to_bytes` of crypto/encryption.rs
unfoldable pub to_bytes : Externals → EncryptedFile → Result CryptoError Bytes
to_bytes x e = map_err invalid_data (x.serialize e)

-- `EncryptedFile::from_bytes` of crypto/encryption.rs
unfoldable pub from_bytes : Externals → Bytes → Result CryptoError EncryptedFile
from_bytes x bytes = map_err invalid_data (x.deserialize bytes)

-- The location of a shard before it is distributed.
unfoldable pub locate : Externals → Str → Shard → ShardLocation
unfolding shard_id hash to_base58
locate x file_hash s = record {
  index = s.index;
  shard_id = shard_id s file_hash;
  peers = [];
  size = length s.contents;
  hash = to_base58 x.hashes (hash x.hashes s.contents);
}

-- `prepare_upload`. What the call reads and draws is in `Draws`: the file, the random key and
-- nonces, and the time.
unfoldable pub prepare_upload :
    Externals → FileManager → Draws → Str → Result StorageError PreparedFile
prepare_upload x m d filename = do
  plain ← map_err io d.file
  let original_hash = to_base58 x.hashes (hash x.hashes plain)
  let file_key = generate_key d.file_key
  encrypted ←
      map_err (λ e. encryption (show_crypto_error e))
        (encrypt_file x.aead d.chunk_nonces (Encryption.new file_key) plain)
  encrypted_data ← map_err (λ e. serialization (show_crypto_error e)) (to_bytes x encrypted)
  encoder ← new_coder x.code m.erasure_config
  shards ← encode x.code encoder encrypted_data
  encrypted_file_key ←
      map_err (λ e. encryption (show_identity_error e))
        (Identity.encrypt x.aead m.identity d.key_nonce (key_bytes file_key))
  ok (record {
    metadata = record {
      file_id = original_hash;
      filename = filename;
      size = length plain;
      mime_type = x.mime_guess filename;
      encrypted_hash = to_base58 x.hashes (hash x.hashes encrypted_data);
      erasure_config = m.erasure_config;
      shards = map (locate x original_hash) shards;
      created_at = d.now;
      modified_at = d.now;
      owner_id = public_id x.keys m.identity;
      is_shared = false;
      shared_with = [];
      encrypted_file_key = encrypted_file_key;
      folder_id = none;
      tags = [];
    };
    shards = shards;
  })

-- The `Shard` objects that `reconstruct_file` makes for the decoder, from the index `i` on.
unfoldable pub as_shards : ErasureConfig → ℕ → List (Option Bytes) → List (Option Shard)
as_shards c i [] = []
as_shards c i (none ∷ rest) = none ∷ as_shards c (i + 1) rest
as_shards c i (some xs ∷ rest) =
    some (record { index = i; contents = xs; is_parity = leb c.data_shards i; original_size = 0 })
    ∷ as_shards c (i + 1) rest

-- metadata.shards.iter().map(|s| s.size as usize).sum()
unfoldable pub sum_sizes : List ShardLocation → ℕ
sum_sizes [] = 0
sum_sizes (s ∷ rest) = add_u64 s.size (sum_sizes rest)

-- encrypted_size / total_shards * data_shards
unfoldable pub estimated_size : FileMetadata → ℕ
estimated_size m =
    sum_sizes m.shards / total_shards m.erasure_config * m.erasure_config.data_shards % u64_mod

-- The last step of `reconstruct_file`: the content hash must be the file id.
abbrev pub check_content : Externals → FileMetadata → Bytes → Result StorageError Bytes
check_content x metadata plain =
    if str_eq (to_base58 x.hashes (hash x.hashes plain)) metadata.file_id
    then ok plain
    else err integrity_check_failed

-- `reconstruct_file`
unfoldable pub reconstruct_file :
    Externals → FileManager → FileMetadata → List (Option Bytes) → Result StorageError Bytes
reconstruct_file x m metadata shard_data = do
  let c = metadata.erasure_config
  let available = count_some shard_data
  guard (leb c.data_shards available) (insufficient_fragments available c.data_shards)
  decoder ← new_coder x.code c
  encrypted_data ← decode x.code decoder (as_shards c 0 shard_data) (estimated_size metadata)
  file_key ←
      map_err (λ e. encryption (show_identity_error e))
        (Identity.decrypt x.aead m.identity metadata.encrypted_file_key)
  guard (length file_key == 32) (encryption (text "Invalid file key length"))
  encrypted_file ← map_err (λ e. encryption (show_crypto_error e)) (from_bytes x encrypted_data)
  plain ←
      map_err (λ e. encryption (show_crypto_error e))
        (decrypt_file x.aead (Encryption.new (new_key file_key)) encrypted_file)
  check_content x metadata plain

-- `PreparedFile::get_shard`
abbrev pub get_shard : PreparedFile → ℕ → Option Shard
get_shard p index = get_elem? p.shards index

abbrev pub zip_shards : List ShardLocation → List Shard → List (Str × Bytes)
zip_shards [] shards = []
zip_shards (l ∷ locations) [] = []
zip_shards (l ∷ locations) (s ∷ shards) = (l.shard_id, s.contents) ∷ zip_shards locations shards

-- `PreparedFile::shard_data`
abbrev pub shard_data : PreparedFile → List (Str × Bytes)
shard_data p = zip_shards p.metadata.shards p.shards
