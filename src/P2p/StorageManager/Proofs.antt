-- ===== src/P2p/StorageManager/Proofs.antt =====
-- storage_protocol.rs: proofs of storage.
use libre_drive.Prelude.{◌≡◌, true, some, ◌++◌, arith, length}
use libre_drive.Prelude.Result.{ok}
use libre_drive.Prelude.Text.{Bytes, Str}
use libre_drive.Prelude.Dict.{Dict, lookup}
use libre_drive.Crypto.Hashing.Library.{IsHashLib}
use libre_drive.Crypto.Hashing.{ContentHash, hash}
use libre_drive.P2p.Disk.{read}
use libre_drive.P2p.StorageManager.Actions.{StorageManager, ◌>>=◌}
use libre_drive.P2p.StorageManager.Fragment.{StoredFragment}
use libre_drive.P2p.StorageManager.{Crates, prove_storage, verify_storage_proof}
use libre_drive.P2p.StorageManager.Retrieval.{healthy}

-- On a disk that works, for a fragment in the index whose file is there: the proof is the hash of the
-- file's bytes followed by the challenge, nothing changes, and `verify_storage_proof` accepts the
-- proof, as it does any other text of 32 bytes, whatever hash it is to expect.
pub prove_storage-accepted :
    (x : Crates) (laws : IsHashLib x.hashes) (id : Str) (challenge : Bytes) (m : StorageManager)
    (files : Dict Bytes) (f : StoredFragment) (xs : Bytes) (expected : ContentHash) (other : Bytes)
    → lookup id m.fragment_index ≡ some f
    → lookup (x.file_of f.local_path) files ≡ some xs
    → length other ≡ 32
    → (prove_storage x id challenge (healthy m files)
        ≡ (ok (x.hashes.blake3 (xs ++ challenge)), healthy m files))
      × (verify_storage_proof expected challenge (x.hashes.blake3 (xs ++ challenge)) ≡ true)
      × (verify_storage_proof expected challenge other ≡ true)
unfolding prove_storage verify_storage_proof ◌>>=◌ read hash
prove_storage-accepted x laws id challenge m files f xs expected other there file long =
    (rw (there, file), ground (arith, laws.length-blake3 (xs ++ challenge)), ground (arith, long))
