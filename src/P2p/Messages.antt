-- ===== src/P2p/Messages.antt =====
-- rust_core/src/p2p/protocol.rs: the messages between nodes, and the metadata of a fragment. F is the type f32.
use libre_drive.Prelude.{ℕ, Option}
use libre_drive.Prelude.Text.{Bytes, Str}
use libre_drive.Prelude.Int.{ℤ}

pub data ErrorCode : Type 0 where
  not_found insufficient_space invalid_signature expired permission_denied rate_limited : ErrorCode
  invalid_request internal_error : ErrorCode

pub data StorageRequest : Type 0 where
  store :
      (fragment_id owner_id : Str) (contents : Bytes) (expires_at : ℤ) (signature : Bytes)
      → StorageRequest
  retrieve : (fragment_id requester_id : Str) (signature : Bytes) → StorageRequest
  delete : (fragment_id owner_id : Str) (signature : Bytes) → StorageRequest
  heartbeat : (owner_id : Str) (timestamp : ℤ) (signature : Bytes) → StorageRequest
  query_availability : (required_bytes : ℕ) (requester_id : Str) → StorageRequest
  storage_challenge : (fragment_id : Str) (challenge signature : Bytes) → StorageRequest
  get_storage_info : StorageRequest

pub data StorageResponse (F : Type 0) : Type 0 where
  stored : (fragment_id : Str) (receipt : Bytes) → StorageResponse F
  fragment_data : (fragment_id : Str) (contents : Bytes) (hash : Str) → StorageResponse F
  deleted : (fragment_id : Str) (confirmation : Bytes) → StorageResponse F
  heartbeat_ack : (new_expiration : ℤ) → StorageResponse F
  availability : (available_bytes offered_bytes : ℕ) (reliability : F) → StorageResponse F
  storage_proof : (fragment_id : Str) (proof : Bytes) → StorageResponse F
  storage_info : (offered_bytes used_bytes fragment_count : ℕ) (uptime : F) → StorageResponse F
  failure : (code : ErrorCode) (message : Str) → StorageResponse F

pub record FragmentMetadata : Type 0 where
  pub fragment_id : Str
  pub owner_id : Str
  pub file_id : Str
  pub fragment_index : ℕ
  pub total_fragments : ℕ
  pub size_bytes : ℕ
  pub content_hash : Str
  pub erasure_data_shards : ℕ
  pub erasure_parity_shards : ℕ
  pub created_at : ℤ
  pub last_accessed : ℤ
  pub contract_id : Option Str
