-- ===== src/Tests/Crypto.antt =====
-- rust_core/src/crypto/ at concrete inputs.
use libre_drive.Prelude.{
  ℕ, ◌+◌, ◌-◌, ◌*◌, ◌≤◌, ◌<◌, ◌≡◌, refl, ap, ◌∙◌, ◌++◌, append-nil, arith, length, get_elem?, take,
  All, flatten, List, [], ◌∷◌, replicate, length-append, length-replicate, take-append,
}
use libre_drive.Prelude.Result.{Result, ok, ok_or}
use libre_drive.Prelude.Text.{Bytes, Str, text}
use libre_drive.Prelude.Chunks.{chunks}
use libre_drive.Crypto.{invalid_data}
use libre_drive.Crypto.Encryption.Cipher.{Aead, IsAead}
use libre_drive.Crypto.Encryption.{
  FileEncryptor, EncryptedFile, encrypt_file, decrypt_file, decrypt_chunk, chunk_count,
  encrypted_size, new, with_chunk_size,
}
use libre_drive.Crypto.Encryption.RoundTrip.{decrypt_file-encrypt_file}
use libre_drive.Crypto.Encryption.Splice.{splice, chunks_at, decrypt_file-splice}
use libre_drive.Crypto.Encryption.Access.{decrypt_chunk-encrypt_file, encrypted_size-encrypt_file}

-- A cipher that only adds a tag.
abbrev pub plain_cipher : Aead
plain_cipher = record {
  seal = λ k n p. ok (p ++ replicate 16 0);
  unseal = λ k n c. ok (take (length c - 16) c);
}

untag : (p : Bytes) → take (length (p ++ replicate 16 0) - 16) (p ++ replicate 16 0) ≡ p
untag p =
    take-append (length (p ++ replicate 16 0) - 16) p (replicate 16 0) 0
      (omega (arith, length-append p (replicate 16 0)))
    ∙ append-nil p

pub plain_cipher-IsAead : IsAead plain_cipher
plain_cipher-IsAead = record {
  seals = λ k n p h. (p ++ replicate 16 0, refl, length-append p (replicate 16 0));
  unseals = λ k n p c e. opened p c e;
}
  where
    opened :
        (p c : Bytes)
        → ◌≡◌ {A = Result Str Bytes} (ok (p ++ replicate 16 0)) (ok c)
        → ◌≡◌ {A = Result Str Bytes} (ok (take (length c - 16) c)) (ok p)
    opened p c e = let same : p ++ replicate 16 0 ≡ c = cc in rw (← same) (ap ok (untag p))

abbrev pub nonces : ℕ → Bytes
nonces i = replicate 12 i

abbrev encryptor : FileEncryptor
encryptor = with_chunk_size (new (record { key = replicate 32 7 })) 2

decrypt_file-encrypt_file_example :
    (e : EncryptedFile) × (encrypt_file plain_cipher nonces encryptor (text "hello") ≡ ok e)
    × (decrypt_file plain_cipher encryptor e ≡ ok (text "hello"))
decrypt_file-encrypt_file_example =
    decrypt_file-encrypt_file plain_cipher plain_cipher-IsAead nonces (λ i. length-replicate 12 i)
      encryptor (omega arith) (omega arith) (text "hello")

decrypt_chunk-encrypt_file_example :
    (e : EncryptedFile) × (encrypt_file plain_cipher nonces encryptor (text "hello") ≡ ok e)
    × ((i : ℕ)
        → decrypt_chunk plain_cipher encryptor e i
          ≡ ok_or
              (get_elem? (chunks 2 (text "hello")) i)
              (invalid_data (text "Chunk index out of bounds")))
decrypt_chunk-encrypt_file_example =
    decrypt_chunk-encrypt_file plain_cipher plain_cipher-IsAead nonces (λ i. length-replicate 12 i)
      encryptor (omega arith) (omega arith) (text "hello")

encrypted_size-encrypt_file_example :
    (e : EncryptedFile) × (encrypt_file plain_cipher nonces encryptor (text "hello") ≡ ok e)
    × (encrypted_size e ≡ 5 + 28 * chunk_count e)
    × (5 ≤ 2 * chunk_count e)
    × (2 * chunk_count e < 5 + 2)
    × (e.original_size ≡ 5)
encrypted_size-encrypt_file_example =
    encrypted_size-encrypt_file plain_cipher plain_cipher-IsAead nonces (λ i. length-replicate 12 i)
      encryptor (omega arith) (omega arith) (text "hello")

-- The chunks "he", "ll" and "o": the last one first, and the middle one twice.
decrypt_file-splice_example :
    (e : EncryptedFile) × (encrypt_file plain_cipher nonces encryptor (text "hello") ≡ ok e)
    × ((is : List ℕ)
        → All (λ i. i < chunk_count e) is
        → (e' : EncryptedFile) × (splice e is ≡ ok e')
          × (e'.original_size ≡ 5)
          × (decrypt_file plain_cipher encryptor e'
              ≡ ok (flatten (chunks_at (chunks 2 (text "hello")) is))))
decrypt_file-splice_example =
    decrypt_file-splice plain_cipher plain_cipher-IsAead nonces (λ i. length-replicate 12 i)
      encryptor (omega arith) (omega arith) (text "hello")

swapped : flatten (chunks_at (chunks 2 (text "hello")) (2 ∷ 1 ∷ 1 ∷ [])) ≡ text "ollll"
unfolding chunks
swapped = refl
