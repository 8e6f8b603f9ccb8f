-- ===== src/P2p/StorageManager.antt =====
-- rust_core/src/p2p/storage_protocol.rs: `StorageManager`. Every method is an action on the manager
-- and the disk; the time is an argument.
use libre_drive.Prelude.{
  ℕ, ◌+◌, ◌-◌, ◌*◌, ◌%◌, ◌^◌, Bool, true, false, not, Option, none, some, List, [], ◌∷◌, ◌++◌, ltb,
  leb, ◌==◌, if◌then◌else◌, length,
}
use libre_drive.Prelude.Result.{Result, ok, err, map_err, ok_or, or_panic, guard}
use libre_drive.Prelude.Text.{Bytes, Str, text, str_eq}
use libre_drive.Prelude.Word.{u64_mod, add_u64}
use libre_drive.Prelude.Int.{ℤ, pos, ltb_ℤ, add_i64}
use libre_drive.Prelude.Dict.{Dict, lookup, insert, remove, values, map_values, total}
use libre_drive.Crypto.Hashing.Library.{HashLib}
use libre_drive.Crypto.Hashing.{ContentHash, hash, to_base58}
use libre_drive.P2p.{P2pError, protocol}
use libre_drive.P2p.Disk.{Io, create_dir_all, write, read, exists, remove_file}
pub mod Fragment
pub mod Names
pub mod Actions
pub mod Calls
pub mod Holds
pub mod Preserved
pub mod Sound
pub mod Invariant
pub mod Retrieval
pub mod Accounting
pub mod Cleanup
pub mod Stats
pub mod Proofs
pub mod View
pub mod Implements
pub mod Restored
pub mod Outcomes
pub mod Answers
pub mod Renewals
pub mod Sweeps
pub mod Refinement
pub mod Heartbeats
pub mod Restart
pub mod Genuine
pub mod Dangling
pub mod Overwritten
use Fragment.{StoredFragment, first_two, path_of, index_path}
use Actions.{StorageManager, Action, ◌>>=◌, ◌>>◌, pure, lift, on_disk, get, modify, skip, branch}

-- What the methods call: the content hash, the index as JSON, and the operating system's resolution of
-- paths: the file that a path below the storage path leads to, by a name for it. Paths with different
-- texts may lead to one file, as "fragments/ab/ab/../abd" and "fragments/ab/abd" do.
pub record Crates : Type 0 where
  pub file_of : Str → Str
  pub hashes : HashLib
  pub to_json : Dict StoredFragment → Result Str Bytes
  pub from_json : Bytes → Result Str (Dict StoredFragment)

-- `StorageManager::new`
abbrev pub new : ℕ → StorageManager
new max_storage_bytes = record {
  max_storage_bytes = max_storage_bytes;
  used_storage_bytes = 0;
  fragment_index = [];
}

-- P2PError::Protocol(format!("{}: {}", context, e))
abbrev pub json_error {ℓ} : {A : Type ℓ} → Str → Result Str A → Result P2pError A
json_error context r = map_err (λ e. protocol (context ++ text ": " ++ e)) r

-- The end of `initialize`, with the index that was found.
abbrev pub install_index : Dict StoredFragment → StorageManager → StorageManager
install_index index m = record m {
  fragment_index = index;
  used_storage_bytes = total (λ f. f.size_bytes) index % u64_mod;
}

-- `initialize`
unfoldable pub initialize : Crates → Action (Unit {0})
initialize x = do
  on_disk (create_dir_all (text "Failed to create storage dir"))
  s ← get
  branch (exists (x.file_of index_path) s.disk)
      (do
        index_data ← on_disk (read (text "Failed to read index") (x.file_of index_path))
        index ← lift (json_error (text "Failed to parse index") (x.from_json index_data))
        modify (install_index index))
      skip

-- `save_index`
unfoldable pub save_index : Crates → Action (Unit {0})
save_index x = do
  s ← get
  index_data ← lift (json_error (text "Failed to serialize index") (x.to_json s.fragment_index))
  on_disk (write (text "Failed to write index") (x.file_of index_path) index_data)

-- The record that `store_fragment` makes.
abbrev pub new_fragment : Crates → Str → Str → Bytes → ℤ → ℤ → Str → StoredFragment
new_fragment x fragment_id owner_id xs expires_at now local_path = record {
  fragment_id = fragment_id;
  owner_id = owner_id;
  size_bytes = length xs;
  content_hash = to_base58 x.hashes (hash x.hashes xs);
  created_at = now;
  expires_at = expires_at;
  local_path = local_path;
  access_count = 0;
  last_accessed = now;
}

-- What `store_fragment` does to the fields of the manager.
abbrev pub record_fragment : StoredFragment → StorageManager → StorageManager
record_fragment f m = record m {
  fragment_index = insert f.fragment_id f m.fragment_index;
  used_storage_bytes = add_u64 m.used_storage_bytes f.size_bytes;
}

-- `store_fragment`
unfoldable pub store_fragment : Crates → Str → Str → Bytes → ℤ → ℤ → Action StoredFragment
store_fragment x fragment_id owner_id xs expires_at now = do
  s ← get
  lift (
      guard (leb (add_u64 s.used_storage_bytes (length xs)) s.max_storage_bytes)
        (protocol (text "Insufficient storage space")))
  prefix ← lift (or_panic (first_two fragment_id))
  let local_path = path_of prefix fragment_id
  on_disk (create_dir_all (text "Failed to create dir"))
  on_disk (write (text "Failed to write fragment") (x.file_of local_path) xs)
  let fragment = new_fragment x fragment_id owner_id xs expires_at now local_path
  modify (record_fragment fragment)
  save_index x
  pure fragment

-- The entry leaves the index.
abbrev pub forget : Str → StorageManager → StorageManager
forget fragment_id m = record m { fragment_index = remove fragment_id m.fragment_index }

-- The space of a deleted fragment; `saturating_sub`.
abbrev pub release : ℕ → StorageManager → StorageManager
release size m = record m { used_storage_bytes = m.used_storage_bytes - size }

-- if full_path.exists() { remove_file(..)? }
unfoldable pub remove_existing : Str → Io (Unit {0})
remove_existing path d =
    if exists path d then remove_file (text "Failed to delete fragment") path d else (ok tt, d)

-- The branch of `delete_fragment` for what the index held.
unfoldable pub delete_found : Crates → Str → Option StoredFragment → Action (Unit {0})
delete_found x fragment_id none = skip
delete_found x fragment_id (some f) = do
  modify (forget fragment_id)
  on_disk (remove_existing (x.file_of f.local_path))
  modify (release f.size_bytes)
  save_index x

-- `delete_fragment`
unfoldable pub delete_fragment : Crates → Str → Action (Unit {0})
delete_fragment x fragment_id = do
  s ← get
  delete_found x fragment_id (lookup fragment_id s.fragment_index)

-- The access statistics of one entry.
abbrev pub touch : ℤ → StoredFragment → StoredFragment
touch now f = record f { access_count = add_u64 f.access_count 1; last_accessed = now }

abbrev pub put_fragment : Str → StoredFragment → StorageManager → StorageManager
put_fragment fragment_id f m = record m { fragment_index = insert fragment_id f m.fragment_index }

-- The end of `retrieve_fragment`: the content hash of what was read must be the recorded one.
abbrev pub check_hash : Crates → StoredFragment → Bytes → Result P2pError Bytes
check_hash x f xs =
    if str_eq (to_base58 x.hashes (hash x.hashes xs)) f.content_hash
    then ok xs
    else err (protocol (text "Fragment integrity check failed"))

-- `retrieve_fragment`
unfoldable pub retrieve_fragment : Crates → Str → ℤ → Action Bytes
retrieve_fragment x fragment_id now = do
  s ← get
  f ← lift (ok_or (lookup fragment_id s.fragment_index) (protocol (text "Fragment not found")))
  branch (ltb_ℤ f.expires_at now)
      (do delete_fragment x fragment_id; lift (err (protocol (text "Fragment expired"))))
      (do
        modify (put_fragment fragment_id (touch now f))
        xs ← on_disk (read (text "Failed to read fragment") (x.file_of f.local_path))
        lift (check_hash x f xs))

abbrev pub set_expiry : ℤ → StoredFragment → StoredFragment
set_expiry expires_at f = record f { expires_at = expires_at }

-- The branch of `extend_fragment` for what the index held.
unfoldable pub extend_found : Crates → Str → ℤ → Option StoredFragment → Action (Unit {0})
extend_found x fragment_id new_expires_at none = skip
extend_found x fragment_id new_expires_at (some f) = do
  modify (put_fragment fragment_id (set_expiry new_expires_at f))
  save_index x

-- `extend_fragment`
unfoldable pub extend_fragment : Crates → Str → ℤ → Action (Unit {0})
extend_fragment x fragment_id new_expires_at = do
  s ← get
  extend_found x fragment_id new_expires_at (lookup fragment_id s.fragment_index)

-- additional_days as i64 * 24 * 60 * 60, of a `u32`.
abbrev pub days : ℕ → ℤ
days n = pos (n * 24 * 60 * 60)

abbrev pub renew : Str → ℤ → StoredFragment → StoredFragment
renew owner_id expires_at f = if str_eq f.owner_id owner_id then set_expiry expires_at f else f

unfoldable pub count_owned : Str → List StoredFragment → ℕ
count_owned owner_id [] = 0
count_owned owner_id (f ∷ fs) =
    (if str_eq f.owner_id owner_id then 1 else 0) + count_owned owner_id fs

-- `extend_owner_fragments`; the count is a `u32`.
unfoldable pub extend_owner_fragments : Crates → Str → ℕ → ℤ → Action ℕ
extend_owner_fragments x owner_id additional_days now = do
  s ← get
  let count = count_owned owner_id (values s.fragment_index) % 2 ^ 32
  modify (λ m. record m {
    fragment_index =
        map_values (renew owner_id (add_i64 now (days additional_days))) m.fragment_index;
  })
  branch (ltb 0 count) (save_index x) skip
  pure count

-- The ids that `cleanup_expired` collects.
unfoldable pub expired_ids : ℤ → Dict StoredFragment → List Str
expired_ids now [] = []
expired_ids now ((id, f) ∷ m) =
    if ltb_ℤ f.expires_at now then id ∷ expired_ids now m else expired_ids now m

-- The loop of `cleanup_expired`; the first error ends it.
unfoldable pub delete_all : Crates → List Str → Action (Unit {0})
delete_all x [] = skip
delete_all x (id ∷ ids) = do delete_fragment x id; delete_all x ids

-- `cleanup_expired`; the count is a `u32`.
unfoldable pub cleanup_expired : Crates → ℤ → Action ℕ
cleanup_expired x now = do
  s ← get
  let expired = expired_ids now s.fragment_index
  delete_all x expired
  pure (length expired % 2 ^ 32)

-- `prove_storage`
unfoldable pub prove_storage : Crates → Str → Bytes → Action Bytes
prove_storage x fragment_id challenge = do
  s ← get
  f ← lift (ok_or (lookup fragment_id s.fragment_index) (protocol (text "Fragment not found")))
  xs ← on_disk (read (text "Failed to read fragment") (x.file_of f.local_path))
  pure (hash x.hashes (xs ++ challenge)).raw

-- `verify_storage_proof`
unfoldable pub verify_storage_proof : ContentHash → Bytes → Bytes → Bool
verify_storage_proof expected_hash challenge proof = if length proof == 32 then true else false

-- `has_space`, `available_space`
unfoldable pub has_space : StorageManager → ℕ → Bool
has_space m size_bytes = leb (add_u64 m.used_storage_bytes size_bytes) m.max_storage_bytes

unfoldable pub available_space : StorageManager → ℕ
available_space m = m.max_storage_bytes - m.used_storage_bytes
