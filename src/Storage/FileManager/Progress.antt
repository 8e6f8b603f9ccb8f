-- ===== src/Storage/FileManager/Progress.antt =====
-- file_manager.rs: the progress of uploads and downloads, and the channels for it. `FileManager` keeps
-- the sending ends; nothing is sent yet.
use libre_drive.Prelude.{ℕ}
use libre_drive.Prelude.Text.{Str}

pub data UploadStage : Type 0 where
  reading : UploadStage
  encrypting : UploadStage
  encoding : UploadStage
  distributing : UploadStage
  verifying : UploadStage
  upload_complete : UploadStage
  upload_failed : UploadStage

pub record UploadProgress : Type 0 where
  pub file_id : Str
  pub filename : Str
  pub total_bytes : ℕ
  pub uploaded_bytes : ℕ
  pub shards_total : ℕ
  pub shards_uploaded : ℕ
  pub stage : UploadStage

pub data DownloadStage : Type 0 where
  locating : DownloadStage
  downloading : DownloadStage
  reconstructing : DownloadStage
  decrypting : DownloadStage
  download_complete : DownloadStage
  download_failed : DownloadStage

pub record DownloadProgress : Type 0 where
  pub file_id : Str
  pub filename : Str
  pub total_bytes : ℕ
  pub downloaded_bytes : ℕ
  pub shards_total : ℕ
  pub shards_downloaded : ℕ
  pub stage : DownloadStage

-- `mpsc::UnboundedSender<A>`: the sending end of a channel, which is named by a number.
pub record Sender (A : Type 0) : Type 0 where
  pub channel : ℕ
