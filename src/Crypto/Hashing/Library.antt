-- ===== src/Crypto/Hashing/Library.antt =====
-- What hashing.rs uses of the crates blake3, hex and bs58.
use libre_drive.Prelude.{◌≡◌, [], ◌++◌, length}
use libre_drive.Prelude.Result.{Result, ok}
use libre_drive.Prelude.Text.{Bytes, Str}

-- The state of blake3's incremental hasher is a byte string here.
pub record HashLib : Type 0 where
  pub blake3 : Bytes → Bytes
  pub hex_encode : Bytes → Str
  pub hex_decode : Str → Result Str Bytes
  pub base58_encode : Bytes → Str
  pub base58_decode : Str → Result Str Bytes
  pub hasher_new : Bytes
  pub hasher_update : Bytes → Bytes → Bytes
  pub hasher_finalize : Bytes → Bytes

-- The documented behaviour: a hash has 32 bytes, the codecs read back what they wrote, and the
-- incremental hasher after some updates gives the hash of all their bytes. `Absorbed s xs` says that
-- the state `s` has taken in the bytes `xs`.
pub record IsHashLib (lib : HashLib) : Type 1 where
  pub length-blake3 : (xs : Bytes) → length (lib.blake3 xs) ≡ 32
  pub hex_decode-encode : (xs : Bytes) → lib.hex_decode (lib.hex_encode xs) ≡ ok xs
  pub base58_decode-encode : (xs : Bytes) → lib.base58_decode (lib.base58_encode xs) ≡ ok xs
  pub Absorbed : Bytes → Bytes → Type 0
  pub absorbed-new : Absorbed lib.hasher_new []
  pub absorbed-update :
      (s xs ys : Bytes) → Absorbed s xs → Absorbed (lib.hasher_update s ys) (xs ++ ys)
  pub finalize-absorbed : (s xs : Bytes) → Absorbed s xs → lib.hasher_finalize s ≡ lib.blake3 xs
