-- ===== src/Crypto/Hashing/Laws.antt =====
-- hashing.rs: the text forms of a hash.
use libre_drive.Prelude.{◌≡◌, true, arith, ◌==◌, length}
use libre_drive.Prelude.Result.{ok}
use libre_drive.Prelude.Text.{Bytes}
use libre_drive.Crypto.Hashing.Library.{HashLib, IsHashLib}
use libre_drive.Crypto.Hashing.{hash, to_hex, from_hex, to_base58, from_base58}

module _ (lib : HashLib) (laws : IsHashLib lib) where
  -- The hash of any data, written in hexadecimal or in base 58, is read back as it was.
  pub from-to_text :
      (xs : Bytes)
      → (from_hex lib (to_hex lib (hash lib xs)) ≡ ok (hash lib xs))
        × (from_base58 lib (to_base58 lib (hash lib xs)) ≡ ok (hash lib xs))
  unfolding from_hex to_hex from_base58 to_base58 hash
  from-to_text xs =
      let long : (length (lib.blake3 xs) == 32) ≡ true = ground (arith, laws.length-blake3 xs) in
      (
        rw (laws.hex_decode-encode (lib.blake3 xs), long),
        rw (laws.base58_decode-encode (lib.blake3 xs), long),
      )
