-- ===== src/Tests/Parts.antt =====
-- Small hash and signature libraries that behave as documented, for the examples.
use libre_drive.Prelude.{
  ◌≡◌, refl, ◌∙◌, [], ◌++◌, arith, length, take, replicate, length-append, length-take,
  length-replicate,
}
use libre_drive.Prelude.Result.{ok}
use libre_drive.Prelude.Text.{Bytes, str_eq, str_eq_refl}
use libre_drive.Crypto.Hashing.Library.{HashLib, IsHashLib}
use libre_drive.Identity.Library.{IdentityLib, IsIdentityLib}

-- The first 32 bytes as the hash.
abbrev pub plain_hashes : HashLib
plain_hashes = record {
  blake3 = λ xs. take 32 (xs ++ replicate 32 48);
  hex_encode = λ xs. xs;
  hex_decode = λ s. ok s;
  base58_encode = λ xs. xs;
  base58_decode = λ s. ok s;
  hasher_new = [];
  hasher_update = λ s xs. s ++ xs;
  hasher_finalize = λ s. take 32 (s ++ replicate 32 48);
}

length-plain_hash : (xs : Bytes) → length (take 32 (xs ++ replicate 32 48)) ≡ 32
length-plain_hash xs =
    length-take 32 (xs ++ replicate 32 48) ∙ omega (arith, length-append xs (replicate 32 48))

pub plain_hashes-IsHashLib : IsHashLib plain_hashes
plain_hashes-IsHashLib = record {
  length-blake3 = length-plain_hash;
  hex_decode-encode = λ xs. refl;
  base58_decode-encode = λ xs. refl;
  Absorbed = λ s xs. s ≡ xs;
  absorbed-new = refl;
  absorbed-update = λ s xs ys e. rw e;
  finalize-absorbed = λ s xs e. rw e;
}

-- A signature is 64 times the length of the message.
abbrev pub plain_keys : IdentityLib
plain_keys = record {
  hkdf = λ salt key info n. ok (replicate n 7);
  sha256 = λ xs. take 32 (xs ++ replicate 32 48);
  public_key = λ k. k;
  ed25519_sign = λ k m. replicate 64 (length m);
  ed25519_verify = λ k m s. str_eq s (replicate 64 (length m));
  base58_encode = λ xs. xs;
}

pub plain_keys-IsIdentityLib : IsIdentityLib plain_keys
plain_keys-IsIdentityLib = record {
  hkdf-total = λ salt key info n small. (replicate n 7, refl, length-replicate n 7);
  length-sign = λ k m. length-replicate 64 (length m);
  verify-sign = λ k m. str_eq_refl (replicate 64 (length m));
}
