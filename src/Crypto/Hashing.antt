-- ===== src/Crypto/Hashing.antt =====
-- rust_core/src/crypto/hashing.rs: content hashes and Merkle trees. The crates blake3, hex and bs58
-- are the parameter `HashLib`.
use libre_drive.Prelude.{
  ℕ, suc, zero, Bool, Option, none, some, ◌==◌, leb, if◌then◌else◌, length, take, replicate,
}
use libre_drive.Prelude.Result.{Result, ok, err, panic, ◌>>=◌, ◌>>◌, map_err}
use libre_drive.Prelude.Text.{Bytes, Str, str_eq}
use libre_drive.Prelude.Word.{add_u64}
pub mod Library
pub mod Laws
pub mod Reading
pub mod Merkle
use Library.{HashLib}

-- `ContentHash([u8; 32])`
pub record ContentHash : Type 0 where
  pub raw : Bytes

-- The errors of `from_hex` and `from_base58`: the crate's own, or a wrong length.
pub data ParseError : Type 0 where
  malformed : Str → ParseError
  invalid_string_length : ParseError
  buffer_too_small : ParseError

-- `ContentHash::hash`
unfoldable pub hash : HashLib → Bytes → ContentHash
hash lib xs = record { raw = lib.blake3 xs }

-- `ContentHash::to_hex`
unfoldable pub to_hex : HashLib → ContentHash → Str
to_hex lib h = lib.hex_encode h.raw

-- `ContentHash::from_hex`
unfoldable pub from_hex : HashLib → Str → Result ParseError ContentHash
from_hex lib s = do
  bytes ← map_err malformed (lib.hex_decode s)
  if length bytes == 32 then ok (record { raw = bytes }) else err invalid_string_length

-- `ContentHash::to_base58`, and the `Display` of a hash.
unfoldable pub to_base58 : HashLib → ContentHash → Str
to_base58 lib h = lib.base58_encode h.raw

-- `ContentHash::from_base58`
unfoldable pub from_base58 : HashLib → Str → Result ParseError ContentHash
from_base58 lib s = do
  bytes ← map_err malformed (lib.base58_decode s)
  if length bytes == 32 then ok (record { raw = bytes }) else err buffer_too_small

-- The derived `==` of two hashes.
unfoldable pub hash_eq : ContentHash → ContentHash → Bool
hash_eq a b = str_eq a.raw b.raw

-- `ContentHash::verify`
unfoldable pub verify : HashLib → ContentHash → Bytes → Bool
verify lib h xs = hash_eq (hash lib xs) h

-- `IncrementalHasher`: the state of the crate's hasher, and the bytes so far.
pub record IncrementalHasher (lib : HashLib) : Type 0 where
  pub hasher : Bytes
  pub bytes_processed : ℕ

-- `IncrementalHasher::new`
unfoldable pub new : (lib : HashLib) → IncrementalHasher lib
new lib = record { hasher = lib.hasher_new; bytes_processed = 0 }

-- `IncrementalHasher::update`
unfoldable pub update : (lib : HashLib) → IncrementalHasher lib → Bytes → IncrementalHasher lib
update lib h xs = record {
  hasher = lib.hasher_update h.hasher xs;
  bytes_processed = add_u64 h.bytes_processed (length xs);
}

-- `IncrementalHasher::finalize`
unfoldable pub finalize : (lib : HashLib) → IncrementalHasher lib → ContentHash
finalize lib h = record { raw = lib.hasher_finalize h.hasher }

-- A type of readers with `std::io::Read::read`: what it returns for a buffer, with the reader and the
-- buffer that it leaves.
pub record Reader (R : Type 0) : Type 0 where
  pub read : R → Bytes → Result Str ℕ × R × Bytes

-- The body of the loop of `hash_file_chunked` after the `read`, with the rounds to come: an error ends
-- it, and so does a read of no bytes; `&buffer[..bytes_read]` panics beyond the buffer.
abbrev after_read :
    {R : Type 0} (lib : HashLib)
    → IncrementalHasher lib
    → Result Str ℕ × R × Bytes
    → (IncrementalHasher lib → R → Bytes → Option (Result Str ContentHash))
    → Option (Result Str ContentHash)
after_read lib hasher (err e, reader, buffer) rest = some (err e)
after_read lib hasher (panic, reader, buffer) rest = some panic
after_read lib hasher (ok bytes_read, reader, buffer) rest =
    if bytes_read == 0
    then some (ok (finalize lib hasher))
    else if leb bytes_read (length buffer)
    then rest (update lib hasher (take bytes_read buffer)) reader buffer
    else some panic

-- The loop, at most `fuel` rounds of it.
unfoldable pub hash_reads :
    {R : Type 0} (lib : HashLib)
    → Reader R
    → ℕ
    → IncrementalHasher lib
    → R
    → Bytes
    → Option (Result Str ContentHash)
hash_reads lib io zero hasher reader buffer = none
hash_reads lib io (suc fuel) hasher reader buffer =
    after_read lib hasher (io.read reader buffer) (λ h r b. hash_reads lib io fuel h r b)

-- `hash_file_chunked`; a reader may never come to an end, so it has fuel.
unfoldable pub hash_file_chunked :
    {R : Type 0} → HashLib → Reader R → ℕ → R → ℕ → Option (Result Str ContentHash)
hash_file_chunked lib io fuel reader chunk_size =
    hash_reads lib io fuel (new lib) reader (replicate chunk_size 0)
