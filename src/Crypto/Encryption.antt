-- ===== src/Crypto/Encryption.antt =====
-- rust_core/src/crypto/encryption.rs: keys and the chunked file encryption. AES-256-GCM (the crate
-- aes_gcm) is the parameter `Aead`; the random nonces are arguments.
use libre_drive.Prelude.{
  ℕ, zero, suc, ◌+◌, ◌-◌, ◌*◌, ◌&&◌, List, [], ◌∷◌, ◌++◌, ltb, leb, ◌==◌, if◌then◌else◌, length,
  get_elem?, take, drop, flatten,
}
use libre_drive.Prelude.Result.{Result, ok, err, panic, ◌>>=◌, ◌>>◌, map_err, or_panic}
use libre_drive.Prelude.Text.{Bytes, text}
use libre_drive.Prelude.Chunks.{chunks}
use libre_drive.Crypto.{CryptoError, encryption_failed, decryption_failed, invalid_data}
pub mod Cipher
pub mod Pieces
pub mod RoundTrip
pub mod Access
pub mod Splice
use Cipher.{Aead}

abbrev pub nonce_size : ℕ
nonce_size = 12

abbrev pub key_size : ℕ
key_size = 32

pub record EncryptionKey : Type 0 where
  pub key : Bytes

-- `EncryptionKey::new`, `EncryptionKey::generate` (given the bytes that it draws) and
-- `EncryptionKey::as_bytes`
abbrev pub new_key : Bytes → EncryptionKey
new_key key = record { key = key }

abbrev pub generate_key : Bytes → EncryptionKey
generate_key drawn = record { key = drawn }

abbrev pub key_bytes : EncryptionKey → Bytes
key_bytes k = k.key

-- `EncryptionKey::encrypt`, given the nonce that it draws.
unfoldable pub encrypt : Aead → EncryptionKey → Bytes → Bytes → Result CryptoError Bytes
encrypt a k nonce plaintext = do
  ciphertext ← map_err encryption_failed (a.seal k.key nonce plaintext)
  ok (nonce ++ ciphertext)

-- `EncryptionKey::decrypt`
unfoldable pub decrypt : Aead → EncryptionKey → Bytes → Result CryptoError Bytes
decrypt a k ciphertext =
    if ltb (length ciphertext) (nonce_size + 16)
    then err (decryption_failed (text "Ciphertext too short"))
    else map_err decryption_failed
        (a.unseal k.key (take nonce_size ciphertext) (drop nonce_size ciphertext))

pub record FileEncryptor : Type 0 where
  pub key : EncryptionKey
  pub chunk_size : ℕ

-- `FileEncryptor::new`
abbrev pub new : EncryptionKey → FileEncryptor
new key = record { key = key; chunk_size = 64 * 1024 }

-- `FileEncryptor::with_chunk_size`
abbrev pub with_chunk_size : FileEncryptor → ℕ → FileEncryptor
with_chunk_size enc size = record enc { chunk_size = size }

-- `EncryptedFile`; the field `data` is `contents` here.
pub record EncryptedFile : Type 0 where
  pub contents : Bytes
  pub chunk_offsets : List ℕ
  pub original_size : ℕ
  pub chunk_size : ℕ

-- `EncryptedFile::chunk_count`
abbrev pub chunk_count : EncryptedFile → ℕ
chunk_count e = length e.chunk_offsets

-- `EncryptedFile::encrypted_size`
abbrev pub encrypted_size : EncryptedFile → ℕ
encrypted_size e = length e.contents

-- The loop of `encrypt_file` over the chunks, from the round `i` and the offset so far. The nonce of
-- round `i` is `nonces i`. It returns the encrypted chunks and their offsets.
unfoldable pub encrypt_chunks :
    Aead
    → EncryptionKey
    → (ℕ → Bytes)
    → ℕ
    → ℕ
    → List Bytes
    → Result CryptoError (List Bytes × List ℕ)
encrypt_chunks a k nonces i offset [] = ok ([], [])
encrypt_chunks a k nonces i offset (chunk ∷ rest) = do
  encrypted ← encrypt a k (nonces i) chunk
  (chunks', offsets) ← encrypt_chunks a k nonces (i + 1) (offset + length encrypted) rest
  ok (encrypted ∷ chunks', offset ∷ offsets)

-- `FileEncryptor::encrypt_file`. `chunks` panics at the chunk size 0.
unfoldable pub encrypt_file :
    Aead → (ℕ → Bytes) → FileEncryptor → Bytes → Result CryptoError EncryptedFile
encrypt_file a nonces enc plain = if enc.chunk_size == 0 then panic else do
  (encrypted, offsets) ← encrypt_chunks a enc.key nonces 0 0 (chunks enc.chunk_size plain)
  ok (record {
    contents = flatten encrypted;
    chunk_offsets = offsets;
    original_size = length plain;
    chunk_size = enc.chunk_size;
  })

-- &xs[start..end], which panics out of range.
unfoldable pub slice : Bytes → ℕ → ℕ → Result CryptoError Bytes
slice xs start end =
    if leb start end && leb end (length xs) then ok (take (end - start) (drop start xs)) else panic

-- The end of chunk `i`: the next offset, or the end of the data.
abbrev pub chunk_end : EncryptedFile → ℕ → Result CryptoError ℕ
chunk_end e i =
    if ltb (i + 1) (length e.chunk_offsets)
    then or_panic (get_elem? e.chunk_offsets (i + 1))
    else ok (length e.contents)

-- The encrypted bytes of chunk `i`, as `decrypt_file` and `decrypt_chunk` cut them out.
unfoldable pub chunk_bytes : EncryptedFile → ℕ → Result CryptoError Bytes
chunk_bytes e i = do
  start ← or_panic (get_elem? e.chunk_offsets i)
  end ← chunk_end e i
  slice e.contents start end

-- The loop of `decrypt_file`, with the rounds left and the round `i`.
unfoldable pub decrypt_from :
    Aead → EncryptionKey → EncryptedFile → ℕ → ℕ → Result CryptoError Bytes
decrypt_from a k e zero i = ok []
decrypt_from a k e (suc rounds) i = do
  chunk ← chunk_bytes e i
  plain ← decrypt a k chunk
  rest ← decrypt_from a k e rounds (i + 1)
  ok (plain ++ rest)

-- `FileEncryptor::decrypt_file`
unfoldable pub decrypt_file : Aead → FileEncryptor → EncryptedFile → Result CryptoError Bytes
decrypt_file a enc e = decrypt_from a enc.key e (length e.chunk_offsets) 0

-- `FileEncryptor::decrypt_chunk`
unfoldable pub decrypt_chunk : Aead → FileEncryptor → EncryptedFile → ℕ → Result CryptoError Bytes
decrypt_chunk a enc e i =
    if leb (length e.chunk_offsets) i
    then err (invalid_data (text "Chunk index out of bounds"))
    else do chunk ← chunk_bytes e i; decrypt a enc.key chunk
