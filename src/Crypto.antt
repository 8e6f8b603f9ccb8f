-- ===== src/Crypto.antt =====
-- rust_core/src/crypto/: encryption and hashing, over ciphers and hash functions that are parameters.
use libre_drive.Prelude.Text.{Str}
pub mod Encryption
pub mod Hashing
pub mod Derivation

-- mod.rs: `CryptoError`.
pub data CryptoError : Type 0 where
  encryption_failed : Str → CryptoError
  decryption_failed : Str → CryptoError
  invalid_key : Str → CryptoError
  invalid_data : Str → CryptoError
  signature_verification_failed : CryptoError
