-- ===== src/Storage/FileManager/RoundTrip.antt =====
-- file_manager.rs: what `prepare_upload` makes, `reconstruct_file` turns back into the file.
use libre_drive.Prelude.{
  ℕ, ◌+◌, ◌*◌, ◌^◌, ◌≤◌, ◌<◌, ◌≡◌, refl, ap, ◌∙◌, true, false, Option, none, List, [], ◌++◌, map,
  arith, leb, ◌==◌, length, drop, flatten, length-append,
}
use libre_drive.Prelude.Result.{ok}
use libre_drive.Prelude.Text.{Bytes, Str, str_eq_refl}
use libre_drive.Prelude.Word.{u64_mod}
use native.Mathlib.Nat.{mul-le-mul_right}
use libre_drive.Crypto.Encryption.{
  EncryptionKey, EncryptedFile, FileEncryptor, encrypt_file, decrypt_file, chunk_count,
}
use libre_drive.Crypto.Encryption
use libre_drive.Crypto.Encryption.RoundTrip.{decrypt_file-encrypt_file}
use libre_drive.Crypto.Encryption.Access.{encrypted_size-encrypt_file}
use libre_drive.Crypto.Hashing.{hash, to_base58}
use libre_drive.Identity.{UserIdentity, public_id}
use libre_drive.Identity
use libre_drive.Identity.Laws.{identity_decrypt-encrypt}
use libre_drive.Storage.Erasure.{
  ErasureConfig, Shard, new_coder, encode, decode, count_some, number_shards,
}
use libre_drive.Storage.Erasure.Code.{LeftOf}
use libre_drive.Storage.Erasure.Blocks.{length-blocks, blocks-length, calculate_shard_size_lem}
use libre_drive.Storage.Erasure.Encoding.{
  shard_size, data_blocks, room, encode-blocks, All-append, length-number_shards,
}
use libre_drive.Storage.Erasure.Decoding.{decode-blocks}
use libre_drive.Storage.FileManager.Boundary.{Externals, Draws, AreDraws, AreExternals}
use libre_drive.Storage.FileManager.Sizes.{
  contents-as_shards, count-as_shards, contents-number_shards, sum_sizes-locate, take-all-blocks,
  estimated_size_lem,
}
use libre_drive.Storage.FileManager.{
  FileManager, PreparedFile, locate, to_bytes, from_bytes, prepare_upload, as_shards,
  estimated_size, reconstruct_file,
}

-- A shard is small where the data is.
shard_size-small :
    (c : ErasureConfig) (l n : ℕ)
    → 0 < c.data_shards
    → c.data_shards + c.parity_shards ≤ 256
    → l < 2 ^ 55
    → c.data_shards * n < l + c.data_shards
    → 256 * n < u64_mod
shard_size-small c l n some_data few fits h =
    let le : 1 * n ≤ c.data_shards * n = mul-le-mul_right {m = 1} {n = c.data_shards} n some_data in
    omega arith

module _ (x : Externals) (m : FileManager) (laws : AreExternals x m.erasure_config) (d : Draws)
    (draws : AreDraws d) (filename : Str) (plain : Bytes) (read : d.file ≡ ok plain)
    (small : length plain < 2 ^ 50) where
  abbrev c : ErasureConfig
  c = m.erasure_config

  abbrev encryptor : FileEncryptor
  encryptor = Encryption.new (record { key = d.file_key })

  -- The encrypted file, what decrypting it gives, and its length in bytes.
  encrypted :
      (e : EncryptedFile) × (b : Bytes) × (encrypt_file x.aead d.chunk_nonces encryptor plain
        ≡ ok e)
      × (decrypt_file x.aead encryptor e ≡ ok plain)
      × (x.serialize e ≡ ok b)
      × (0 < length b)
      × (length b < 2 ^ 55)
  encrypted =
      let (e, made, back) =
        decrypt_file-encrypt_file x.aead laws.aead_laws d.chunk_nonces draws.length-chunk_nonces
          encryptor (omega arith) (omega arith) plain in
      let (e', made', size, _, count, _) =
        encrypted_size-encrypt_file x.aead laws.aead_laws d.chunk_nonces draws.length-chunk_nonces
          encryptor (omega arith) (omega arith) plain in
      let same : e' ≡ e = cc in
      let (b, written, l) = laws.serialize-total e in
      let size' : length e.contents ≡ length plain + 28 * chunk_count e = rw same at size in
      let count' : 65536 * chunk_count e < length plain + 65536 = rw same at count in
      (e, b, made, back, written, omega arith, omega arith)

  -- What `prepare_upload` returns, given the encrypted bytes, the shards and the encrypted key.
  abbrev prepared : Bytes → List Shard → Bytes → PreparedFile
  prepared b shards key =
      let file_id = to_base58 x.hashes (hash x.hashes plain) in
      record {
        metadata = record {
          file_id = file_id;
          filename = filename;
          size = length plain;
          mime_type = x.mime_guess filename;
          encrypted_hash = to_base58 x.hashes (hash x.hashes b);
          erasure_config = c;
          shards = map (locate x file_id) shards;
          created_at = d.now;
          modified_at = d.now;
          owner_id = public_id x.keys m.identity;
          is_shared = false;
          shared_with = [];
          encrypted_file_key = key;
          folder_id = none;
          tags = [];
        };
        shards = shards;
      }

  prepare_upload-eq :
      (e : EncryptedFile) (b : Bytes) (shards : List Shard) (key : Bytes)
      → encrypt_file x.aead d.chunk_nonces encryptor plain ≡ ok e
      → x.serialize e ≡ ok b
      → encode x.code c b ≡ ok shards
      → Identity.encrypt x.aead m.identity d.key_nonce d.file_key ≡ ok key
      → prepare_upload x m d filename ≡ ok (prepared b shards key)
  unfolding prepare_upload to_bytes new_coder
  prepare_upload-eq e b shards key made written coded locked =
      rw (read, made, written, laws.code_laws.creates, coded, locked)

  reconstruct_file-eq :
      (e : EncryptedFile) (b rest : Bytes) (shards : List Shard) (key : Bytes)
      (left : List (Option Bytes))
      → decrypt_file x.aead encryptor e ≡ ok plain
      → x.serialize e ≡ ok b
      → c.data_shards ≤ count_some left
      → decode x.code c (as_shards c 0 left) (estimated_size (prepared b shards key).metadata)
        ≡ ok (b ++ rest)
      → Identity.decrypt x.aead m.identity key ≡ ok d.file_key
      → reconstruct_file x m (prepared b shards key).metadata left ≡ ok plain
  unfolding reconstruct_file from_bytes new_coder
  reconstruct_file-eq e b rest shards key left back written enough decoded unlocked =
      let many : leb c.data_shards (count_some left) ≡ true = ground arith in
      let long : (length d.file_key == 32) ≡ true = ground (arith, draws.length-file_key) in
      rw (
        many,
        laws.code_laws.creates,
        decoded,
        unlocked,
        long,
        laws.deserialize-serialize e b rest written,
        back,
        str_eq_refl (to_base58 x.hashes (hash x.hashes plain)),
      )

  -- For files below 2^50 bytes that can be read, and parts that behave as documented:
  -- `prepare_upload` succeeds, with the file's size in the metadata and `total_shards` shards, and from
  -- its metadata and any `data_shards` of its shards, whichever are missing, `reconstruct_file` of the
  -- same user returns the file.
  pub reconstruct_file-prepare_upload :
      (p : PreparedFile) × (prepare_upload x m d filename ≡ ok p)
      × (p.metadata.size ≡ length plain)
      × (length p.shards ≡ c.data_shards + c.parity_shards)
      × ((left : List (Option Bytes))
          → LeftOf left (map (λ s. s.contents) p.shards)
          → c.data_shards ≤ count_some left
          → reconstruct_file x m p.metadata left ≡ ok plain)
  reconstruct_file-prepare_upload =
      let (e, b, made, back, written, nonempty, fits) = encrypted in
      let code = laws.code_laws in
      let some_data = code.some_data in
      let few = code.not_too_many in
      let room63 : length b < 2 ^ 63 = omega arith in
      let (filled, raw, coded, full, sizes) = encode-blocks x.code c code b nonempty room63 in
      let n = shard_size x.code c code b nonempty room63 in
      let all = data_blocks x.code c code b nonempty room63 ++ filled in
      let shards = number_shards c.data_shards 0 all in
      let (key, locked, unlocked) =
        identity_decrypt-encrypt x.aead laws.aead_laws m.identity d.key_nonce d.file_key
          draws.length-key_nonce (omega (arith, draws.length-file_key)) in
      let small_n : 256 * n < u64_mod =
        shard_size-small c (length b) n code.some_data few fits
          (calculate_shard_size_lem c (length b) code.some_data (omega arith) room63).1 in
      let total : length all ≡ c.data_shards + c.parity_shards = omega (
        arith,
        length-append (data_blocks x.code c code b nonempty room63) filled,
        length-blocks c.data_shards n b,
      ) in
      let le : length all * n ≤ 256 * n =
        mul-le-mul_right {m = length all} {n = 256} n (omega arith) in
      let file_id = to_base58 x.hashes (hash x.hashes plain) in
      let summed =
        sum_sizes-locate x file_id c.data_shards n 0 all
          (All-append _ (data_blocks x.code c code b nonempty room63) filled
            (blocks-length c.data_shards n b) sizes)
          (omega arith) in
      let estimate : estimated_size (prepared b shards key).metadata ≡ n * c.data_shards =
        estimated_size_lem (prepared b shards key).metadata n code.some_data few small_n
          (summed ∙ ap (λ k. k * n) total) in
      (
        prepared b shards key,
        prepare_upload-eq e b shards key made written coded locked,
        refl,
        (length-number_shards c.data_shards 0 all ∙ total),
        λ left h enough.
            let h' : LeftOf left all = rw (contents-number_shards c.data_shards 0 all) at h in
            let decoded =
              decode-blocks x.code c code b nonempty room63 filled full raw (as_shards c 0 left)
                (n * c.data_shards) (rw (contents-as_shards c 0 left) h')
                (rw (count-as_shards c 0 left) enough) in
            reconstruct_file-eq e b
              (drop (length b) (flatten (data_blocks x.code c code b nonempty room63))) shards key
              left back written enough
              (rw estimate (
                decoded
                ∙ ap ok (take-all-blocks c.data_shards n b (room x.code c code b nonempty room63))))
              unlocked,
      )
