-- ===== src/Crypto/Encryption/RoundTrip.antt =====
-- encryption.rs: decryption undoes encryption.
use libre_drive.Prelude.{
  ℕ, ◌+◌, ◌≤◌, ◌<◌, ◌≡◌, refl, ap, ◌∙◌, false, List, [], ◌∷◌, ◌++◌, append-nil, arith, ◌==◌, le→ltb,
  All, length, take, drop, flatten, length-append, take-append, drop-append,
}
use libre_drive.Prelude.Result.{ok}
use libre_drive.Prelude.Text.{Bytes}
use libre_drive.Prelude.Chunks.{chunks, flatten-chunks, chunks-bounded}
use libre_drive.Crypto.Encryption.Cipher.{Aead, IsAead, plaintext_max}
use libre_drive.Crypto.Encryption.{
  EncryptionKey, FileEncryptor, EncryptedFile, nonce_size, encrypt, decrypt, encrypt_chunks,
  encrypt_file, decrypt_from, decrypt_file,
}
use libre_drive.Crypto.Encryption.Pieces.{
  offsets_from, length-offsets_from, drop-suc, assembled, chunk_bytes-assembled,
}

-- The encrypted chunks, pointwise: each decrypts to its chunk and is longer by 28 bytes.
abbrev pub Sealed : Aead → EncryptionKey → List Bytes → List Bytes → Type 0
Sealed a k [] [] = Unit
Sealed a k [] (e ∷ es) = ⊥
Sealed a k (c ∷ cs) [] = ⊥
Sealed a k (c ∷ cs) (e ∷ es) =
    (decrypt a k e ≡ ok c) × (length e ≡ length c + 28) × Sealed a k cs es

module _ (a : Aead) (laws : IsAead a) (k : EncryptionKey) where
  -- Any plaintext within the cipher's limit is encrypted, and decrypts to itself.
  pub decrypt-encrypt :
      (nonce plain : Bytes)
      → length nonce ≡ nonce_size
      → length plain ≤ plaintext_max
      → (c : Bytes) × (encrypt a k nonce plain ≡ ok c)
        × (decrypt a k c ≡ ok plain)
        × (length c ≡ length plain + 28)
  unfolding encrypt decrypt
  decrypt-encrypt nonce plain hn hp =
      let (c, sealed, len) = laws.seals k.key nonce plain hp in
      let t : take nonce_size (nonce ++ c) ≡ nonce =
        take-append nonce_size nonce c 0 (omega arith) ∙ append-nil nonce in
      let d : drop nonce_size (nonce ++ c) ≡ c = drop-append nonce_size nonce c 0 (omega arith) in
      let l = length-append nonce c in
      (
        nonce ++ c,
        rw sealed,
        rw (
          le→ltb (length (nonce ++ c)) (nonce_size + 16) (omega arith),
          t,
          d,
          laws.unseals k.key nonce plain c sealed,
        ),
        omega arith,
      )

  pub encrypt_chunks_lem :
      (nonces : ℕ → Bytes)
      → ((i : ℕ) → length (nonces i) ≡ nonce_size)
      → (i offset : ℕ) (cs : List Bytes) → All (λ c. length c ≤ plaintext_max) cs
      → (es : List Bytes) × (encrypt_chunks a k nonces i offset cs
          ≡ ok (es, offsets_from offset es))
        × Sealed a k cs es
  unfolding encrypt_chunks
  encrypt_chunks_lem nonces hn i offset [] h = ([], refl, tt)
  encrypt_chunks_lem nonces hn i offset (c ∷ cs) h =
      let (e, sealed, opened, len) = decrypt-encrypt (nonces i) c (hn i) h.0 in
      let (es, rest, ih) = encrypt_chunks_lem nonces hn (i + 1) (offset + length e) cs h.1 in
      (e ∷ es, rw (sealed, rest), (opened, len, ih))

module _ (a : Aead) (k : EncryptionKey) (es : List Bytes) (size chunk : ℕ) where
  -- From round `i` on, the loop returns the plaintexts of the pieces that are left.
  pub decrypt_from-assembled :
      (i : ℕ) (cs rest : List Bytes)
      → drop i es ≡ rest
      → Sealed a k cs rest
      → decrypt_from a k (assembled es size chunk) (length rest) i ≡ ok (flatten cs)
  unfolding decrypt_from
  decrypt_from-assembled i [] [] h s = refl
  decrypt_from-assembled i [] (e ∷ rest) h s = elim s [ ]
  decrypt_from-assembled i (c ∷ cs) [] h s = elim s [ ]
  decrypt_from-assembled i (c ∷ cs) (e ∷ rest) h s = rw (
    chunk_bytes-assembled es size chunk i e rest h (omega (arith, s.1)),
    s.0,
    decrypt_from-assembled (i + 1) cs rest (drop-suc i es h) s.2,
  )

module _ (a : Aead) (laws : IsAead a) (nonces : ℕ → Bytes)
    (fresh : (i : ℕ) → length (nonces i) ≡ nonce_size) (enc : FileEncryptor)
    (positive : 0 < enc.chunk_size) (fits : enc.chunk_size ≤ plaintext_max) (plain : Bytes) where
  -- Encryption succeeds; this is the file that it returns, with what is known of its pieces.
  pub encrypt_file-assembled :
      (es : List Bytes) × (encrypt_file a nonces enc plain
        ≡ ok (assembled es (length plain) enc.chunk_size))
      × Sealed a enc.key (chunks enc.chunk_size plain) es
  unfolding encrypt_file
  encrypt_file-assembled =
      let cs = chunks enc.chunk_size plain in
      let nonzero : (enc.chunk_size == 0) ≡ false = ground arith in
      let (es, e, s) =
        encrypt_chunks_lem a laws enc.key nonces fresh 0 0 cs
          (All-plaintext cs (chunks-bounded enc.chunk_size plain positive)) in
      (es, rw (nonzero, e), s)
    where
      All-plaintext :
          (cs : List Bytes)
          → All (λ c. (0 < length c) × (length c ≤ enc.chunk_size)) cs
          → All (λ c. length c ≤ plaintext_max) cs
      All-plaintext [] h = tt
      All-plaintext (c ∷ cs) h = (omega arith, All-plaintext cs h.1)

  -- For a chunk size from 1 to the cipher's limit and nonces of 12 bytes, `encrypt_file` returns a
  -- file, and `decrypt_file` under the same key returns the plaintext.
  pub decrypt_file-encrypt_file :
      (e : EncryptedFile) × (encrypt_file a nonces enc plain ≡ ok e)
      × (decrypt_file a enc e ≡ ok plain)
  unfolding decrypt_file
  decrypt_file-encrypt_file =
      let (es, made, s) = encrypt_file-assembled in
      let cs = chunks enc.chunk_size plain in
      (
        assembled es (length plain) enc.chunk_size,
        made,
        rw (length-offsets_from 0 es) (
            decrypt_from-assembled a enc.key es (length plain) enc.chunk_size 0 cs es refl s
            ∙ ap ok (flatten-chunks enc.chunk_size plain positive)),
      )
