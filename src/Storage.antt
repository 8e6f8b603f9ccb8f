-- ===== src/Storage.antt =====
-- rust_core/src/storage/: erasure coding, the file manager and the quotas.
use libre_drive.Prelude.{ℕ}
use libre_drive.Prelude.Text.{Str}
pub mod Erasure
pub mod FileManager
pub mod Quota

-- mod.rs: `StorageError`.
pub data StorageError : Type 0 where
  file_not_found : Str → StorageError
  encryption : Str → StorageError
  erasure_coding : Str → StorageError
  insufficient_fragments : ℕ → ℕ → StorageError
  integrity_check_failed : StorageError
  io : Str → StorageError
  serialization : Str → StorageError
  quota_exceeded : Str → StorageError
