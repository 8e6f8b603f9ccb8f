-- ===== src/Crypto/Derivation.antt =====
-- crypto/encryption.rs and crypto/mod.rs: keys that are derived. The crates argon2 and base64 are the
-- parameter `PasswordLib`.
use libre_drive.Prelude.{
  ℕ, ◌≡◌, inl, inr, Option, none, some, arith, leb, if◌then◌else◌, Bool-cases, length, take,
  length-take,
}
use libre_drive.Prelude.Result.{Result, ok, panic, ◌>>=◌, map_err, ok_or, or_panic, >>=-eq-ok}
use libre_drive.Prelude.Text.{Bytes, Str, text}
use libre_drive.Crypto.{CryptoError, invalid_key}
use libre_drive.Crypto.Encryption.{EncryptionKey, new_key, key_bytes, key_size}
use libre_drive.Identity.Library.{IdentityLib, IsIdentityLib}

-- `hash_password` gives the output of the hash, if there is one.
pub record PasswordLib : Type 1 where
  pub Salt : Type 0
  pub base64_encode : Bytes → Str
  pub salt_from_b64 : Str → Result Str Salt
  pub hash_password : Bytes → Salt → Result Str (Option Bytes)

-- r.unwrap()
abbrev unwrap {ℓ} : {E F : Type 0} {A : Type ℓ} → Result E A → Result F A
unwrap (ok a) = ok a
unwrap _ = panic

-- bytes[..n]
abbrev prefix : ℕ → Bytes → Option Bytes
prefix n xs = if leb n (length xs) then some (take n xs) else none

-- `derive_file_key`
unfoldable pub derive_file_key :
    IdentityLib → EncryptionKey → Bytes → Result CryptoError EncryptionKey
derive_file_key lib master_key file_id = do
  file_key ← unwrap (lib.hkdf file_id (key_bytes master_key) (text "cloudp2p-file-key") key_size)
  ok (new_key file_key)

-- `derive_key_from_password`
unfoldable pub derive_key_from_password : PasswordLib → Bytes → Bytes → Result CryptoError Bytes
derive_key_from_password lib password salt = do
  let salt_b64 = lib.base64_encode salt
  salt_str ← map_err invalid_key (lib.salt_from_b64 salt_b64)
  hash ← map_err invalid_key (lib.hash_password password salt_str)
  bytes ← ok_or hash (invalid_key (text "No hash output"))
  or_panic (prefix 32 bytes)

-- A file has a key of 32 bytes, which depends on nothing but the master key and the id of the file.
pub derive_file_key-total :
    (lib : IdentityLib)
    → IsIdentityLib lib
    → (master_key : EncryptionKey) (file_id : Bytes)
    → (k : EncryptionKey) × (derive_file_key lib master_key file_id ≡ ok k)
      × (length k.key ≡ key_size)
unfolding derive_file_key
derive_file_key-total lib laws master_key file_id =
    let (out, e, n) =
      laws.hkdf-total file_id master_key.key (text "cloudp2p-file-key") key_size (omega arith) in
    (record { key = out }, rw e, n)

prefix-length :
    (n : ℕ) (xs : Bytes) {ys : Bytes}
    → or_panic {E = CryptoError} (prefix n xs) ≡ ok ys
    → length ys ≡ n
prefix-length n xs h = elim (Bool-cases (leb n (length xs))) [
  | inl fits ↦ ground (arith, h, fits, length-take n xs)
  | inr short ↦ ground (arith, h, short)
]

-- A key that is derived from a password has 32 bytes.
pub length-derive_key_from_password :
    (lib : PasswordLib) (password salt : Bytes) {key : Bytes}
    → derive_key_from_password lib password salt ≡ ok key
    → length key ≡ 32
unfolding derive_key_from_password
length-derive_key_from_password lib password salt h =
    let (s, _, h) =
      >>=-eq-ok (map_err invalid_key (lib.salt_from_b64 (lib.base64_encode salt))) _ h in
    let (o, _, h) = >>=-eq-ok (map_err invalid_key (lib.hash_password password s)) _ h in
    let (bytes, _, h) = >>=-eq-ok (ok_or o (invalid_key (text "No hash output"))) _ h in
    prefix-length 32 bytes h
