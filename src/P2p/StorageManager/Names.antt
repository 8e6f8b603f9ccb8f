-- ===== src/P2p/StorageManager/Names.antt =====
-- storage_protocol.rs: what the methods of `StorageManager` rely on: serde and the file system.
use libre_drive.Prelude.{◌≡◌, ◌≢◌, true, some}
use libre_drive.Prelude.Result.{ok}
use libre_drive.Prelude.Text.{Bytes, Str}
use libre_drive.Prelude.Dict.{Dict}
use libre_drive.P2p.StorageManager.Fragment.{
  StoredFragment, first_two, path_of, index_path, is_plain,
}
use libre_drive.P2p.StorageManager.{Crates}

-- JSON can write every index; and paths of plain names, with different texts, lead to different files:
-- the file system tells capital letters from small ones, and has no links below the storage path.
pub record Works (x : Crates) : Type 0 where
  pub written : (index : Dict StoredFragment) → (b : Bytes) × (x.to_json index ≡ ok b)
  pub apart :
      (p q a b : Str)
      → first_two a ≡ some p
      → first_two b ≡ some q
      → is_plain a ≡ true
      → is_plain b ≡ true
      → x.file_of (path_of p a) ≡ x.file_of (path_of q b)
      → path_of p a ≡ path_of q b
  pub index_apart :
      (p a : Str)
      → first_two a ≡ some p
      → is_plain a ≡ true
      → x.file_of (path_of p a) ≢ x.file_of index_path
