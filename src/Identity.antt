-- ===== src/Identity.antt =====
-- rust_core/src/identity/mod.rs: the keys of a user and the heartbeat. The crates hkdf, sha2,
-- ed25519_dalek and bs58 are the parameter `IdentityLib`.
use libre_drive.Prelude.{◌+◌, ◌-◌, Bool, false, ◌∷◌, ◌++◌, ltb, ◌==◌, if◌then◌else◌, length}
use libre_drive.Prelude.Result.{Result, ok, ◌>>=◌, ◌>>◌, map_err}
use libre_drive.Prelude.Text.{Bytes, Str, text, show}
use libre_drive.Prelude.Int.{ℤ, pos, negsuc, ltb_ℤ, i64_half, sub_i64}
use libre_drive.Crypto.{
  CryptoError, encryption_failed, decryption_failed, invalid_key, invalid_data,
  signature_verification_failed,
}
use libre_drive.Crypto.Encryption.Cipher.{Aead}
use libre_drive.Crypto.Encryption
use libre_drive.Crypto.Encryption.{EncryptionKey, new_key}
pub mod Library
pub mod Whitespace
pub mod SeedPhrase
pub mod Laws
pub mod Recovery
pub mod Keys
use Library.{IdentityLib}

pub data IdentityError : Type 0 where
  invalid_seed_phrase : Str → IdentityError
  key_derivation : Str → IdentityError
  crypto : CryptoError → IdentityError

-- The `Display` of `CryptoError`, of crypto/mod.rs.
unfoldable pub show_crypto_error : CryptoError → Str
show_crypto_error (encryption_failed m) = text "Encryption failed: " ++ m
show_crypto_error (decryption_failed m) = text "Decryption failed: " ++ m
show_crypto_error (invalid_key m) = text "Invalid key: " ++ m
show_crypto_error (invalid_data m) = text "Invalid data: " ++ m
show_crypto_error signature_verification_failed = text "Signature verification failed"

-- The `Display` of `IdentityError`.
unfoldable pub show_identity_error : IdentityError → Str
unfolding show_crypto_error
show_identity_error (invalid_seed_phrase m) = text "Invalid seed phrase: " ++ m
show_identity_error (key_derivation m) = text "Key derivation failed: " ++ m
show_identity_error (crypto e) = text "Cryptographic error: " ++ show_crypto_error e

-- `SigningKeyPair` of crypto/mod.rs
pub record SigningKeyPair : Type 0 where
  pub signing_key : Bytes
  pub verifying_key : Bytes

pub record UserIdentity : Type 0 where
  pub master_seed : Bytes
  pub signing_keys : SigningKeyPair
  pub encryption_key : EncryptionKey
  pub node_id : Bytes

-- `derive_signing_keys`
unfoldable pub derive_signing_keys : IdentityLib → Bytes → Result IdentityError SigningKeyPair
derive_signing_keys lib master_seed = do
  seed ←
      map_err key_derivation
        (lib.hkdf (text "cloudp2p-signing") master_seed (text "ed25519-signing-key") 32)
  ok (record { signing_key = seed; verifying_key = lib.public_key seed })

-- `derive_encryption_key`
unfoldable pub derive_encryption_key : IdentityLib → Bytes → Result IdentityError EncryptionKey
derive_encryption_key lib master_seed = do
  key ←
      map_err key_derivation
        (lib.hkdf (text "cloudp2p-encryption") master_seed (text "aes-256-gcm-key") 32)
  ok (new_key key)

-- `derive_node_id`
abbrev pub derive_node_id : IdentityLib → SigningKeyPair → Bytes
derive_node_id lib keys = lib.sha256 keys.verifying_key

-- `from_seed_phrase`, from the master seed on.
unfoldable pub from_master_seed : IdentityLib → Bytes → Result IdentityError UserIdentity
unfolding derive_signing_keys derive_encryption_key
from_master_seed lib master_seed = do
  keys ← derive_signing_keys lib master_seed
  key ← derive_encryption_key lib master_seed
  ok (record {
    master_seed = master_seed;
    signing_keys = keys;
    encryption_key = key;
    node_id = derive_node_id lib keys;
  })

-- `public_id`
unfoldable pub public_id : IdentityLib → UserIdentity → Str
public_id lib u = lib.base58_encode u.node_id

-- `sign`
unfoldable pub sign : IdentityLib → UserIdentity → Bytes → Bytes
sign lib u message = lib.ed25519_sign u.signing_keys.signing_key message

-- `verify`
unfoldable pub verify : IdentityLib → UserIdentity → Bytes → Bytes → Bool
verify lib u message signature =
    if length signature == 64
    then lib.ed25519_verify u.signing_keys.verifying_key message signature
    else false

-- `encrypt`, given the nonce that it draws.
unfoldable pub encrypt : Aead → UserIdentity → Bytes → Bytes → Result IdentityError Bytes
encrypt a u nonce plaintext = map_err crypto (Encryption.encrypt a u.encryption_key nonce plaintext)

-- `decrypt`
unfoldable pub decrypt : Aead → UserIdentity → Bytes → Result IdentityError Bytes
decrypt a u ciphertext = map_err crypto (Encryption.decrypt a u.encryption_key ciphertext)

pub record HeartbeatMessage : Type 0 where
  pub node_id : Str
  pub timestamp : ℤ
  pub signature : Bytes

-- format!("{}", n) of an `i64`, whose magnitude has at most 19 digits.
abbrev pub show_i64 : ℤ → Str
show_i64 (pos n) = show n
show_i64 (negsuc n) = b'-' ∷ show (n + 1)

-- format!("heartbeat:{}:{}", node_id, timestamp)
abbrev pub heartbeat_text : Str → ℤ → Str
heartbeat_text node_id timestamp = text "heartbeat:" ++ node_id ++ text ":" ++ show_i64 timestamp

-- `generate_heartbeat`, at the time `now`.
unfoldable pub generate_heartbeat : IdentityLib → UserIdentity → ℤ → HeartbeatMessage
unfolding public_id sign
generate_heartbeat lib u now = record {
  node_id = public_id lib u;
  timestamp = now;
  signature = sign lib u (heartbeat_text (public_id lib u) now);
}

-- `HeartbeatMessage::verify`
unfoldable pub verify_heartbeat : IdentityLib → HeartbeatMessage → Bytes → Bool
verify_heartbeat lib m verifying_key =
    if length m.signature == 64
    then lib.ed25519_verify verifying_key (heartbeat_text m.node_id m.timestamp) m.signature
    else false

-- `i64::abs`, which wraps at the smallest number.
unfoldable pub abs_i64 : ℤ → ℤ
abs_i64 (pos n) = pos n
abs_i64 (negsuc n) = if ltb n (i64_half - 1) then pos (n + 1) else negsuc n

-- `HeartbeatMessage::is_recent`, at the time `now`.
unfoldable pub is_recent : HeartbeatMessage → ℤ → ℤ → Bool
unfolding abs_i64 sub_i64
is_recent m now max_age_seconds = ltb_ℤ (abs_i64 (sub_i64 now m.timestamp)) max_age_seconds
