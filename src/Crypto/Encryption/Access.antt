-- ===== src/Crypto/Encryption/Access.antt =====
-- encryption.rs: random access to chunks, and the size of an encrypted file.
use libre_drive.Prelude.{
  ℕ, zero, suc, ◌+◌, ◌*◌, ◌≤◌, ◌<◌, ◌≡◌, refl, ap, ◌∙◌, ◌⊎◌, inl, inr, true, false, none, some,
  List, [], ◌∷◌, arith, leb, length, get_elem?, drop, flatten, length-append,
}
use libre_drive.Prelude.Result.{ok, ok_or}
use libre_drive.Prelude.Text.{Bytes, text}
use libre_drive.Prelude.Chunks.{chunks, flatten-chunks, length-chunks}
use libre_drive.Crypto.{invalid_data}
use libre_drive.Crypto.Encryption.Cipher.{Aead, IsAead, plaintext_max}
use libre_drive.Crypto.Encryption.{
  EncryptionKey, FileEncryptor, EncryptedFile, nonce_size, decrypt, encrypt_file, decrypt_chunk,
  chunk_count, encrypted_size,
}
use libre_drive.Crypto.Encryption.Pieces.{
  offsets_from, length-offsets_from, length-drop-cons, assembled, chunk_bytes-assembled,
}
use libre_drive.Crypto.Encryption.RoundTrip.{Sealed, encrypt_file-assembled}

-- What is known of the piece at an index: it decrypts to the chunk there, or there is none.
abbrev pub AtIndex : Aead → EncryptionKey → List Bytes → List Bytes → ℕ → Type 0
AtIndex a k cs es i =
    ((c : Bytes) × (e : Bytes) × (rest : List Bytes) × (get_elem? cs i ≡ some c)
      × (drop i es ≡ e ∷ rest)
      × (decrypt a k e ≡ ok c)
      × (length e ≡ length c + 28))
    ⊎ ((get_elem? cs i ≡ none) × (length es ≤ i))

module _ (a : Aead) (k : EncryptionKey) where
  pub Sealed-AtIndex : (cs es : List Bytes) (i : ℕ) → Sealed a k cs es → AtIndex a k cs es i
  Sealed-AtIndex [] [] i s = inr (refl, omega arith)
  Sealed-AtIndex [] (e ∷ es) i s = elim s [ ]
  Sealed-AtIndex (c ∷ cs) [] i s = elim s [ ]
  Sealed-AtIndex (c ∷ cs) (e ∷ es) zero s = inl (c, e, es, refl, refl, s.0, s.1)
  Sealed-AtIndex (c ∷ cs) (e ∷ es) (suc i) s = elim (Sealed-AtIndex cs es i s.2) [
    | inl found ↦ inl found
    | inr (none_there, past) ↦ inr (none_there, omega arith)
  ]

  pub length-Sealed :
      (cs es : List Bytes)
      → Sealed a k cs es
      → (length es ≡ length cs) × (length (flatten es) ≡ length (flatten cs) + 28 * length cs)
  length-Sealed [] [] s = (refl, omega arith)
  length-Sealed [] (e ∷ es) s = elim s [ ]
  length-Sealed (c ∷ cs) [] s = elim s [ ]
  length-Sealed (c ∷ cs) (e ∷ es) s =
      let (n, ih) = length-Sealed cs es s.2 in
      let le = length-append e (flatten es) in
      let lc = length-append c (flatten cs) in let l = s.1 in (omega arith, omega arith)

module _ (a : Aead) (laws : IsAead a) (nonces : ℕ → Bytes)
    (fresh : (i : ℕ) → length (nonces i) ≡ nonce_size) (enc : FileEncryptor)
    (positive : 0 < enc.chunk_size) (fits : enc.chunk_size ≤ plaintext_max) (plain : Bytes) where
  -- For a chunk size from 1 to the cipher's limit and nonces of 12 bytes: `decrypt_chunk` at any index
  -- of the file that `encrypt_file` returns gives that chunk of the plaintext, and an index past the
  -- last chunk gives the error "Chunk index out of bounds".
  pub decrypt_chunk-encrypt_file :
      (e : EncryptedFile) × (encrypt_file a nonces enc plain ≡ ok e)
      × ((i : ℕ)
          → decrypt_chunk a enc e i
            ≡ ok_or
                (get_elem? (chunks enc.chunk_size plain) i)
                (invalid_data (text "Chunk index out of bounds")))
  unfolding decrypt_chunk
  decrypt_chunk-encrypt_file =
      let (es, made, s) = encrypt_file-assembled a laws nonces fresh enc positive fits plain in
      (assembled es (length plain) enc.chunk_size, made, λ i. at es s i)
    where
      at :
          (es : List Bytes)
          → Sealed a enc.key (chunks enc.chunk_size plain) es
          → (i : ℕ)
          → decrypt_chunk a enc (assembled es (length plain) enc.chunk_size) i
            ≡ ok_or
                (get_elem? (chunks enc.chunk_size plain) i)
                (invalid_data (text "Chunk index out of bounds"))
      at es s i =
          let l = length-offsets_from 0 es in
          elim (Sealed-AtIndex a enc.key (chunks enc.chunk_size plain) es i s) [
            | inl (c, e, rest, got, h, opened, size) ↦
                let l' = length-drop-cons i es h in
                let inside : leb (length (offsets_from 0 es)) i ≡ false = ground arith in
                rw
                  (
                    inside,
                    got,
                    chunk_bytes-assembled es (length plain) enc.chunk_size i e rest h (omega arith),
                  )
                  opened
            | inr (got, past) ↦
                let outside : leb (length (offsets_from 0 es)) i ≡ true = ground arith in
                rw (outside, got)
          ]

  -- For a chunk size from 1 to the cipher's limit and nonces of 12 bytes: the file has one chunk for
  -- each `chunk_size` bytes of plaintext, rounded up, and each chunk costs 28 bytes.
  pub encrypted_size-encrypt_file :
      (e : EncryptedFile) × (encrypt_file a nonces enc plain ≡ ok e)
      × (encrypted_size e ≡ length plain + 28 * chunk_count e)
      × (length plain ≤ enc.chunk_size * chunk_count e)
      × (enc.chunk_size * chunk_count e < length plain + enc.chunk_size)
      × (e.original_size ≡ length plain)
  encrypted_size-encrypt_file =
      let (es, made, s) = encrypt_file-assembled a laws nonces fresh enc positive fits plain in
      let cs = chunks enc.chunk_size plain in
      let (n, size) = length-Sealed a enc.key cs es s in
      let count : chunk_count (assembled es (length plain) enc.chunk_size) ≡ length cs =
        length-offsets_from 0 es ∙ n in
      let (lo, hi) = length-chunks enc.chunk_size plain positive in
      let whole : length (flatten cs) ≡ length plain =
        ap length (flatten-chunks enc.chunk_size plain positive) in
      (
        assembled es (length plain) enc.chunk_size,
        made,
        rw count (omega arith),
        rw count lo,
        rw count hi,
        refl,
      )
