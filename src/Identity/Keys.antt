-- ===== src/Identity/Keys.antt =====
-- identity/keys.rs: `KeyPair`, and the methods of `SigningKeyPair` of crypto/mod.rs.
use libre_drive.Prelude.{◌≡◌, sym, inl, inr, true, arith, ◌==◌, Bool-cases, length}
use libre_drive.Prelude.Result.{Result, ok, ◌>>◌, guard}
use libre_drive.Prelude.Text.{Bytes, text}
use libre_drive.Crypto.{CryptoError, invalid_data, signature_verification_failed}
use libre_drive.Identity.Library.{IdentityLib, IsIdentityLib}
use libre_drive.Identity.{SigningKeyPair, UserIdentity, verify}
use libre_drive.Identity.SeedPhrase.{is_ok}
use libre_drive.Identity.Laws.{IsIdentity}

-- `KeyPair`
pub record KeyPair : Type 0 where
  pub signing_key : Bytes
  pub verifying_key : Bytes

-- `KeyPair::from_bytes`
unfoldable pub from_bytes : IdentityLib → Bytes → KeyPair
from_bytes lib bytes = record { signing_key = bytes; verifying_key = lib.public_key bytes }

-- `KeyPair::public_key_bytes`
abbrev pub public_key_bytes : KeyPair → Bytes
public_key_bytes k = k.verifying_key

-- `KeyPair::secret_key_bytes`
abbrev pub secret_key_bytes : KeyPair → Bytes
secret_key_bytes k = k.signing_key

-- `SigningKeyPair::sign`
unfoldable pub pair_sign : IdentityLib → SigningKeyPair → Bytes → Bytes
pair_sign lib keys message = lib.ed25519_sign keys.signing_key message

-- `SigningKeyPair::verify`
unfoldable pub pair_verify :
    IdentityLib → SigningKeyPair → Bytes → Bytes → Result CryptoError (Unit {0})
pair_verify lib keys message signature = do
  guard (length signature == 64) (invalid_data (text "Invalid signature length"))
  guard (lib.ed25519_verify keys.verifying_key message signature) signature_verification_failed

module _ (lib : IdentityLib) where
  -- The two checks of a signature, of `SigningKeyPair` and of `UserIdentity`, agree.
  pub pair_verify-verify :
      (u : UserIdentity) (message signature : Bytes)
      → is_ok (pair_verify lib u.signing_keys message signature) ≡ verify lib u message signature
  unfolding pair_verify verify
  pair_verify-verify u message signature = elim (Bool-cases (length signature == 64)) [
    | inl long ↦
        elim (Bool-cases (lib.ed25519_verify u.signing_keys.verifying_key message signature)) [
          | inl good ↦ rw (long, good)
          | inr bad ↦ rw (long, bad)
        ]
    | inr short ↦ rw short
  ]

  -- The pair made of the secret key of an identity has the public key of that identity, and what it signs
  -- the identity's pair verifies.
  pub from_bytes-identity :
      IsIdentityLib lib
      → (u : UserIdentity) → IsIdentity lib u
      → (message : Bytes)
      → (public_key_bytes (from_bytes lib u.signing_keys.signing_key)
          ≡ u.signing_keys.verifying_key)
        × (pair_verify lib u.signing_keys message (pair_sign lib u.signing_keys message) ≡ ok tt)
  unfolding from_bytes pair_verify pair_sign
  from_bytes-identity laws u keys message =
      let n : (length (lib.ed25519_sign u.signing_keys.signing_key message) == 64) ≡ true =
        ground (arith, laws.length-sign u.signing_keys.signing_key message) in
      (sym keys.paired, rw (n, keys.paired, laws.verify-sign u.signing_keys.signing_key message))
