-- ===== src/Identity/Laws.antt =====
-- identity/mod.rs: an identity derived from a seed signs, encrypts and proves that it is alive.
use libre_drive.Prelude.{ℕ, ◌-◌, ◌≤◌, ◌<◌, ◌≡◌, refl, true, arith, ltb, ◌==◌, length}
use libre_drive.Prelude.Result.{ok}
use libre_drive.Prelude.Text.{Bytes, text}
use libre_drive.Prelude.Int.{pos, i64_half}
use libre_drive.Crypto.Encryption.Cipher.{Aead, IsAead, plaintext_max}
use libre_drive.Crypto.Encryption.{nonce_size}
use libre_drive.Crypto.Encryption.RoundTrip.{decrypt-encrypt}
use libre_drive.Identity.Library.{IdentityLib, IsIdentityLib}
use libre_drive.Identity.{
  UserIdentity, from_master_seed, public_id, sign, verify, encrypt, decrypt, generate_heartbeat,
  verify_heartbeat, is_recent, heartbeat_text,
}

-- The keys of an identity fit together.
pub record IsIdentity (lib : IdentityLib) (u : UserIdentity) : Type 0 where
  pub paired : u.signing_keys.verifying_key ≡ lib.public_key u.signing_keys.signing_key
  pub named : u.node_id ≡ lib.sha256 u.signing_keys.verifying_key
  pub length-key : length u.encryption_key.key ≡ 32

module _ (lib : IdentityLib) (laws : IsIdentityLib lib) where
  -- Every master seed gives an identity whose verifying key belongs to its signing key, whose node id
  -- is the digest of that key, and whose encryption key has 32 bytes.
  pub from_master_seed-IsIdentity :
      (seed : Bytes)
      → (u : UserIdentity) × (from_master_seed lib seed ≡ ok u)
        × (u.master_seed ≡ seed)
        × IsIdentity lib u
  unfolding from_master_seed
  from_master_seed-IsIdentity seed =
      let (s, es, ls) =
        laws.hkdf-total (text "cloudp2p-signing") seed (text "ed25519-signing-key") 32
          (omega arith) in
      let (k, ek, lk) =
        laws.hkdf-total (text "cloudp2p-encryption") seed (text "aes-256-gcm-key") 32
          (omega arith) in
      (
        record {
          master_seed = seed;
          signing_keys = record { signing_key = s; verifying_key = lib.public_key s };
          encryption_key = record { key = k };
          node_id = lib.sha256 (lib.public_key s);
        },
        rw (es, ek),
        refl,
        record { paired = refl; named = refl; length-key = lk },
      )

  module _ (u : UserIdentity) (keys : IsIdentity lib u) where
    -- What an identity signs, it verifies.
    pub verify-sign : (message : Bytes) → verify lib u message (sign lib u message) ≡ true
    unfolding verify sign
    verify-sign message =
        let n : (length (lib.ed25519_sign u.signing_keys.signing_key message) == 64) ≡ true =
          ground (arith, laws.length-sign u.signing_keys.signing_key message) in
        rw (n, keys.paired) (laws.verify-sign u.signing_keys.signing_key message)

    -- A heartbeat that an identity generates verifies under the identity's key, and counts as recent
    -- from its time on for less than the maximal age, and no longer. (Times from 1970 on.)
    pub generate_heartbeat-verifies :
        (now later max_age : ℕ)
        → now ≤ later
        → later < i64_half
        → max_age < i64_half
        → (verify_heartbeat lib (generate_heartbeat lib u (pos now)) u.signing_keys.verifying_key
            ≡ true)
          × (is_recent (generate_heartbeat lib u (pos now)) (pos later) (pos max_age)
              ≡ ltb (later - now) max_age)
    unfolding verify_heartbeat generate_heartbeat is_recent
    generate_heartbeat-verifies now later max_age h k l =
        let message = heartbeat_text (public_id lib u) (pos now) in
        let n : (length (lib.ed25519_sign u.signing_keys.signing_key message) == 64) ≡ true =
          ground (arith, laws.length-sign u.signing_keys.signing_key message) in
        (rw (n, keys.paired) (laws.verify-sign u.signing_keys.signing_key message), ground arith)

module _ (a : Aead) (laws : IsAead a) where
  -- What an identity encrypts (up to the cipher's limit) it decrypts.
  pub identity_decrypt-encrypt :
      (u : UserIdentity) (nonce plain : Bytes)
      → length nonce ≡ nonce_size
      → length plain ≤ plaintext_max
      → (c : Bytes) × (encrypt a u nonce plain ≡ ok c) × (decrypt a u c ≡ ok plain)
  unfolding encrypt decrypt
  identity_decrypt-encrypt u nonce plain hn hp =
      let (c, e, d, _) = decrypt-encrypt a laws u.encryption_key nonce plain hn hp in
      (c, rw e, rw d)
