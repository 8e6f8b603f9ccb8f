-- ===== src/Storage/FileManager/Integrity.antt =====
-- file_manager.rs: what `reconstruct_file` accepts.
use libre_drive.Prelude.{
  ◌≡◌, refl, sym, ap, ◌∙◌, inl, inr, Bool, true, false, Option, List, [], map, subst, arith, leb,
  ◌==◌, Bool-cases, length,
}
use libre_drive.Prelude.Result.{Result, ok, map_err, guard, >>=-eq-ok, map_err-eq-ok}
use libre_drive.Prelude.Text.{Bytes, Str, text, str_eq, str_eq_iff}
use libre_drive.Crypto.Hashing.Library.{HashLib, IsHashLib}
use libre_drive.Crypto.Hashing.{hash, to_base58}
use libre_drive.Storage.{StorageError, io, serialization, encryption, insufficient_fragments}
use libre_drive.Crypto.Encryption
use libre_drive.Crypto.Encryption.{EncryptionKey, encrypt_file, decrypt_file}
use libre_drive.Identity
use libre_drive.Identity.{show_crypto_error, show_identity_error}
use libre_drive.Storage.Erasure.{count_some, encode, decode, new_coder}
use libre_drive.Storage.FileManager.Boundary.{Externals, Draws}
use libre_drive.Storage.FileManager.{
  FileManager, FileMetadata, PreparedFile, locate, prepare_upload, as_shards, estimated_size,
  from_bytes, to_bytes, check_content, reconstruct_file,
}

base58-injective :
    (lib : HashLib) (laws : IsHashLib lib) (a b : Bytes)
    → lib.base58_encode a ≡ lib.base58_encode b
    → a ≡ b
base58-injective lib laws a b e =
    let d : ◌≡◌ {A = Result Str Bytes} (ok a) (ok b) =
      sym (laws.base58_decode-encode a) ∙ ap lib.base58_decode e ∙ laws.base58_decode-encode b in
    cc

check_content-ok :
    (x : Externals) (metadata : FileMetadata) (xs plain : Bytes)
    → check_content x metadata xs ≡ ok plain
    → to_base58 x.hashes (hash x.hashes plain) ≡ metadata.file_id
check_content-ok x metadata xs plain h =
    elim (Bool-cases (str_eq (to_base58 x.hashes (hash x.hashes xs)) metadata.file_id)) [
      | inl same ↦
          let k : ok xs ≡ ok plain = rw same at h in
          let e : xs ≡ plain = cc in
          ap (λ b. to_base58 x.hashes (hash x.hashes b)) (sym e) ∙ (str_eq_iff _ _).0 same
      | inr other ↦ absurd (ground (arith, rw other at h))
    ]

guard-true : {E : Type 0} (b : Bool) (e : E) → guard b e ≡ ok tt → b ≡ true
guard-true true e h = refl
guard-true false e h = cc

-- A file that `reconstruct_file` returns has the content hash that the metadata name as the file's id,
-- and there were at least `data_shards` shards, whatever they held.
pub reconstruct_file-ok :
    (x : Externals) (m : FileManager) (metadata : FileMetadata) (left : List (Option Bytes))
    (plain : Bytes)
    → reconstruct_file x m metadata left ≡ ok plain
    → (to_base58 x.hashes (hash x.hashes plain) ≡ metadata.file_id)
      × (leb metadata.erasure_config.data_shards (count_some left) ≡ true)
unfolding reconstruct_file
reconstruct_file-ok x m metadata left plain h =
    let c = metadata.erasure_config in
    let (_, g, h1) =
      >>=-eq-ok
        (guard (leb c.data_shards (count_some left))
          (insufficient_fragments (count_some left) c.data_shards))
        _ h in
    let (coder, _, h2) = >>=-eq-ok (new_coder x.code c) _ h1 in
    let (b, _, h3) =
      >>=-eq-ok (decode x.code coder (as_shards c 0 left) (estimated_size metadata)) _ h2 in
    let (k, _, h4) =
      >>=-eq-ok
        (map_err (λ e. encryption (show_identity_error e))
          (Identity.decrypt x.aead m.identity metadata.encrypted_file_key))
        _ h3 in
    let (_, _, h5) =
      >>=-eq-ok (guard (length k == 32) (encryption (text "Invalid file key length"))) _ h4 in
    let (f, _, h6) =
      >>=-eq-ok (map_err (λ e. encryption (show_crypto_error e)) (from_bytes x b)) _ h5 in
    let (xs, _, h7) =
      >>=-eq-ok
        (map_err (λ e. encryption (show_crypto_error e))
          (decrypt_file x.aead (Encryption.new (record { key = k })) f))
        _ h6 in
    (check_content-ok x metadata xs plain h7, guard-true _ _ g)

id_of : Result StorageError PreparedFile → Str
id_of (ok p) = p.metadata.file_id
id_of _ = []

abbrev IsLocated : Externals → Result StorageError PreparedFile → Type 0
IsLocated x (ok p) = p.metadata.shards ≡ map (locate x p.metadata.file_id) p.shards
IsLocated x _ = Unit

-- The id that `prepare_upload` gives a file, and the locations that it names.
pub prepare_upload-made :
    (x : Externals) (m : FileManager) (d : Draws) (filename : Str) (original : Bytes)
    (p : PreparedFile)
    → d.file ≡ ok original
    → prepare_upload x m d filename ≡ ok p
    → (p.metadata.file_id ≡ to_base58 x.hashes (hash x.hashes original))
      × (p.metadata.shards ≡ map (locate x p.metadata.file_id) p.shards)
unfolding prepare_upload id_of
prepare_upload-made x m d filename original p read h =
    let (plain, r, h1) = >>=-eq-ok (map_err io d.file) _ h in
    let same : plain ≡ original =
      let e = map_err-eq-ok _ d.file r in
      let e' : ◌≡◌ {A = Result Str Bytes} (ok plain) (ok original) = sym e ∙ read in cc in
    let key : EncryptionKey = record { key = d.file_key } in
    let (e, _, h2) =
      >>=-eq-ok
        (map_err (λ e. encryption (show_crypto_error e))
          (encrypt_file x.aead d.chunk_nonces (Encryption.new key) plain))
        _ h1 in
    let (b, _, h3) =
      >>=-eq-ok (map_err (λ e. serialization (show_crypto_error e)) (to_bytes x e)) _ h2 in
    let (coder, _, h4) = >>=-eq-ok (new_coder x.code m.erasure_config) _ h3 in
    let (shards, _, h5) = >>=-eq-ok (encode x.code coder b) _ h4 in
    let (locked, _, h6) =
      >>=-eq-ok
        (map_err (λ e. encryption (show_identity_error e))
          (Identity.encrypt x.aead m.identity d.key_nonce d.file_key))
        _ h5 in
    (
      sym (ap id_of h6) ∙ ap (λ f. to_base58 x.hashes (hash x.hashes f)) same,
      subst (IsLocated x) h6 refl,
    )

-- Whatever shards `reconstruct_file` is given with the metadata that `prepare_upload` made of a file, and
-- whoever calls it: it returns no file whose BLAKE3 hash differs from the original's. (Base 58 reads
-- back what it wrote.)
pub reconstruct_file-genuine :
    (x : Externals) (laws : IsHashLib x.hashes) (m reader : FileManager) (d : Draws)
    (filename : Str) (original plain : Bytes) (p : PreparedFile) (left : List (Option Bytes))
    → d.file ≡ ok original
    → prepare_upload x m d filename ≡ ok p
    → reconstruct_file x reader p.metadata left ≡ ok plain
    → x.hashes.blake3 plain ≡ x.hashes.blake3 original
unfolding hash to_base58
reconstruct_file-genuine x laws m reader d filename original plain p left read made got =
    base58-injective x.hashes laws (x.hashes.blake3 plain) (x.hashes.blake3 original) (
      (reconstruct_file-ok x reader p.metadata left plain got).0
      ∙ (prepare_upload-made x m d filename original p read made).0)
