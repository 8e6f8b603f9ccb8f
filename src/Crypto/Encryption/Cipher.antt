-- ===== src/Crypto/Encryption/Cipher.antt =====
-- What encryption.rs uses of the crate aes_gcm.
use libre_drive.Prelude.{ℕ, ◌+◌, ◌^◌, ◌≤◌, ◌≡◌, length}
use libre_drive.Prelude.Result.{Result, ok}
use libre_drive.Prelude.Text.{Bytes, Str}

-- `cipher.encrypt(nonce, plaintext)` and `cipher.decrypt(nonce, ciphertext)` under a key.
pub record Aead : Type 0 where
  pub seal : Bytes → Bytes → Bytes → Result Str Bytes
  pub unseal : Bytes → Bytes → Bytes → Result Str Bytes

-- The longest plaintext that AES-GCM accepts, in bytes.
abbrev pub plaintext_max : ℕ
plaintext_max = 2 ^ 36

-- The documented behaviour: a ciphertext is the plaintext's length and a tag of 16 bytes, every
-- plaintext up to the limit is accepted, and what was sealed opens under the same key and nonce.
pub record IsAead (a : Aead) : Type 0 where
  pub seals :
      (k n p : Bytes)
      → length p ≤ plaintext_max
      → (c : Bytes) × (a.seal k n p ≡ ok c) × (length c ≡ length p + 16)
  pub unseals : (k n p c : Bytes) → a.seal k n p ≡ ok c → a.unseal k n c ≡ ok p
