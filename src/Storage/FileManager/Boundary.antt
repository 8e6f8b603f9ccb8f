-- ===== src/Storage/FileManager/Boundary.antt =====
-- What file_manager.rs uses of other crates and of the world.
use libre_drive.Prelude.{ℕ, ◌+◌, ◌*◌, ◌≡◌, ◌++◌, length}
use libre_drive.Prelude.Result.{Result, ok}
use libre_drive.Prelude.Text.{Bytes, Str}
use libre_drive.Prelude.Int.{ℤ}
use libre_drive.Crypto.Encryption.Cipher.{Aead, IsAead}
use libre_drive.Crypto.Encryption.{EncryptedFile, nonce_size}
use libre_drive.Crypto.Hashing.Library.{HashLib}
use libre_drive.Identity.Library.{IdentityLib}
use libre_drive.Storage.Erasure.Code.{ReedSolomon, IsCode}
use libre_drive.Storage.Erasure.{ErasureConfig}

-- `serialize` and `deserialize` are those of the crate bincode, `mime_guess` is the crate of that name.
pub record Externals : Type 0 where
  pub aead : Aead
  pub hashes : HashLib
  pub keys : IdentityLib
  pub code : ReedSolomon
  pub serialize : EncryptedFile → Result Str Bytes
  pub deserialize : Bytes → Result Str EncryptedFile
  pub mime_guess : Str → Str

-- What one call of `prepare_upload` meets: the outcome of reading the file, the random bytes of the
-- file key and of the nonces, and the time.
pub record Draws : Type 0 where
  pub file : Result Str Bytes
  pub file_key : Bytes
  pub chunk_nonces : ℕ → Bytes
  pub key_nonce : Bytes
  pub now : ℤ

-- The random bytes have the lengths of the arrays that they fill.
pub record AreDraws (d : Draws) : Type 0 where
  pub length-file_key : length d.file_key ≡ 32
  pub length-chunk_nonces : (i : ℕ) → length (d.chunk_nonces i) ≡ nonce_size
  pub length-key_nonce : length d.key_nonce ≡ nonce_size

-- The documented behaviour of the parts: the cipher's, the code's for the given config, and bincode's
-- (`serialize` writes lengths and numbers in 8 bytes, and `deserialize` reads back what it wrote and
-- ignores what follows).
pub record AreExternals (x : Externals) (c : ErasureConfig) : Type 0 where
  pub aead_laws : IsAead x.aead
  pub code_laws : IsCode x.code c.data_shards c.parity_shards
  pub serialize-total :
      (e : EncryptedFile)
      → (b : Bytes) × (x.serialize e ≡ ok b)
        × (length b ≡ 32 + length e.contents + 8 * length e.chunk_offsets)
  pub deserialize-serialize :
      (e : EncryptedFile) (b rest : Bytes) → x.serialize e ≡ ok b → x.deserialize (b ++ rest) ≡ ok e
