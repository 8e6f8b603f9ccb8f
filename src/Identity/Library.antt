-- ===== src/Identity/Library.antt =====
-- What identity/mod.rs uses of the crates hkdf, sha2, ed25519_dalek and bs58.
use libre_drive.Prelude.{ℕ, ◌≤◌, ◌≡◌, Bool, true, length}
use libre_drive.Prelude.Result.{Result, ok}
use libre_drive.Prelude.Text.{Bytes, Str}

-- `hkdf salt key info n` extracts and expands to n bytes.
pub record IdentityLib : Type 0 where
  pub hkdf : Bytes → Bytes → Bytes → ℕ → Result Str Bytes
  pub sha256 : Bytes → Bytes
  pub public_key : Bytes → Bytes
  pub ed25519_sign : Bytes → Bytes → Bytes
  pub ed25519_verify : Bytes → Bytes → Bytes → Bool
  pub base58_encode : Bytes → Str

-- The documented behaviour: up to 255 blocks of 32 bytes can be expanded, signatures have 64 bytes,
-- and a signature verifies under the public key of its signing key.
pub record IsIdentityLib (lib : IdentityLib) : Type 0 where
  pub hkdf-total :
      (salt key info : Bytes) (n : ℕ)
      → n ≤ 8160
      → (out : Bytes) × (lib.hkdf salt key info n ≡ ok out) × (length out ≡ n)
  pub length-sign : (k m : Bytes) → length (lib.ed25519_sign k m) ≡ 64
  pub verify-sign :
      (k m : Bytes) → lib.ed25519_verify (lib.public_key k) m (lib.ed25519_sign k m) ≡ true
