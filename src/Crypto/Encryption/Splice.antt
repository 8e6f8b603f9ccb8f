-- ===== src/Crypto/Encryption/Splice.antt =====
-- encryption.rs: chunks of an encrypted file in another order.
use libre_drive.Prelude.{
  ℕ, ◌≤◌, ◌<◌, ◌≡◌, refl, subst, inl, inr, Option, none, some, List, [], ◌∷◌, map, arith, All,
  length, get_elem?, flatten,
}
use libre_drive.Prelude.Result.{Result, ok, ◌>>=◌}
use libre_drive.Prelude.Text.{Bytes}
use libre_drive.Prelude.Chunks.{chunks}
use libre_drive.Crypto.{CryptoError}
use libre_drive.Crypto.Encryption.Cipher.{Aead, IsAead, plaintext_max}
use libre_drive.Crypto.Encryption.{
  EncryptionKey, FileEncryptor, EncryptedFile, nonce_size, encrypt_file, decrypt_file, chunk_bytes,
  chunk_count,
}
use libre_drive.Crypto.Encryption.Pieces.{
  offsets_from, length-offsets_from, assembled, chunk_bytes-assembled,
}
use libre_drive.Crypto.Encryption.RoundTrip.{Sealed, encrypt_file-assembled, decrypt_from-assembled}
use libre_drive.Crypto.Encryption.Access.{Sealed-AtIndex}

-- The encrypted chunks at some indices of a file.
unfoldable pub picked : EncryptedFile → List ℕ → Result CryptoError (List Bytes)
picked e [] = ok []
picked e (i ∷ is) = do piece ← chunk_bytes e i; pieces ← picked e is; ok (piece ∷ pieces)

-- The file that consists of the encrypted chunks at some indices, in that order, with the size of the
-- old file.
unfoldable pub splice : EncryptedFile → List ℕ → Result CryptoError EncryptedFile
splice e is = do pieces ← picked e is; ok (assembled pieces e.original_size e.chunk_size)

abbrev pub or_no_bytes : Option Bytes → Bytes
or_no_bytes none = []
or_no_bytes (some xs) = xs

-- The chunks at some indices.
abbrev pub chunks_at : List Bytes → List ℕ → List Bytes
chunks_at cs = map (λ i. or_no_bytes (get_elem? cs i))

module _ (a : Aead) (k : EncryptionKey) (cs es : List Bytes) (size chunk : ℕ)
    (s : Sealed a k cs es) where
  picked-Sealed :
      (is : List ℕ)
      → All (λ i. i < length es) is
      → (ps : List Bytes) × (picked (assembled es size chunk) is ≡ ok ps)
        × Sealed a k (chunks_at cs is) ps
  unfolding picked
  picked-Sealed [] h = ([], refl, tt)
  picked-Sealed (i ∷ is) h =
      let (ps, e, t) = picked-Sealed is h.1 in
      elim (Sealed-AtIndex a k cs es i s) [
        | inl (c, p, rest, got, here, opened, long) ↦ (
          p ∷ ps,
          rw (chunk_bytes-assembled es size chunk i p rest here (omega arith), e),
          rw got (opened, long, t),
        )
        | inr (none_there, past) ↦ absurd (omega (arith, h.0))
      ]

module _ (a : Aead) (laws : IsAead a) (nonces : ℕ → Bytes)
    (fresh : (i : ℕ) → length (nonces i) ≡ nonce_size) (enc : FileEncryptor)
    (positive : 0 < enc.chunk_size) (fits : enc.chunk_size ≤ plaintext_max) (plain : Bytes) where
  -- For a chunk size from 1 to the cipher's limit and nonces of 12 bytes: of the file that
  -- `encrypt_file` returns, anybody can make files without the key, of chunks left out, doubled or in
  -- any order, with the old `original_size`; `decrypt_file` accepts each, and returns the chunks of the
  -- plaintext in that order.
  pub decrypt_file-splice :
      (e : EncryptedFile) × (encrypt_file a nonces enc plain ≡ ok e)
      × ((is : List ℕ)
          → All (λ i. i < chunk_count e) is
          → (e' : EncryptedFile) × (splice e is ≡ ok e')
            × (e'.original_size ≡ length plain)
            × (decrypt_file a enc e' ≡ ok (flatten (chunks_at (chunks enc.chunk_size plain) is))))
  unfolding splice decrypt_file
  decrypt_file-splice =
      let (es, made, s) = encrypt_file-assembled a laws nonces fresh enc positive fits plain in
      (
        assembled es (length plain) enc.chunk_size,
        made,
        λ is inside. spliced es s is (inside_of es is inside),
      )
    where
      inside_of :
          (es : List Bytes) (is : List ℕ)
          → All (λ i. i < length (offsets_from 0 es)) is
          → All (λ i. i < length es) is
      inside_of es is h = subst (λ n. All (λ i. i < n) is) (length-offsets_from 0 es) h

      spliced :
          (es : List Bytes)
          → Sealed a enc.key (chunks enc.chunk_size plain) es
          → (is : List ℕ) → All (λ i. i < length es) is
          → (e' : EncryptedFile) × (splice (assembled es (length plain) enc.chunk_size) is ≡ ok e')
            × (e'.original_size ≡ length plain)
            × (decrypt_file a enc e' ≡ ok (flatten (chunks_at (chunks enc.chunk_size plain) is)))
      spliced es s is inside =
          let cs = chunks enc.chunk_size plain in
          let (ps, e, t) =
            picked-Sealed a enc.key cs es (length plain) enc.chunk_size s is inside in
          (
            assembled ps (length plain) enc.chunk_size,
            rw e,
            refl,
            rw (length-offsets_from 0 ps)
                (decrypt_from-assembled a enc.key ps (length plain) enc.chunk_size 0 _ ps refl t),
          )
