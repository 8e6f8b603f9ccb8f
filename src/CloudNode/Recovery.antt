-- ===== src/CloudNode/Recovery.antt =====
-- rust_core/src/lib.rs: the phrase of a new node recovers it.
use libre_drive.Prelude.{ℕ, ◌≤◌, ◌≡◌, refl, Option, length}
use libre_drive.Prelude.Result.{ok}
use libre_drive.Prelude.Text.{Bytes, Str}
use libre_drive.Crypto.Encryption.Cipher.{Aead, IsAead, plaintext_max}
use libre_drive.Crypto.Encryption.{nonce_size}
use libre_drive.Identity.Library.{IdentityLib, IsIdentityLib}
use libre_drive.Identity.{encrypt, decrypt}
use libre_drive.Identity.Laws.{identity_decrypt-encrypt}
use libre_drive.Identity.Whitespace.{split_whitespace}
use libre_drive.Identity.SeedPhrase.{Bip39, IsBip39}
use libre_drive.Identity.Recovery.{generate-recovers}
use libre_drive.CloudNode.{CloudP2pConfig, CloudP2pNode, from_seed_phrase, new, public_id}

module _ (bip : Bip39) (words : IsBip39 bip) (lib : IdentityLib) (keys : IsIdentityLib lib)
    (a : Aead) (cipher : IsAead a) (random : ℕ → Bytes) (filled : (n : ℕ) → length (random n) ≡ n)
    (password : Option Str) where
  -- A new node can be created, with the given configuration and a phrase of 12 words. Every text with the
  -- words of the phrase, and the same password, creates a node with the same public id and the
  -- configuration that is given then, and what the first node encrypts (up to the cipher's limit) this
  -- one decrypts.
  pub new-recovers :
      (config : CloudP2pConfig)
      → (node : CloudP2pNode) × (phrase : Str) × (new bip lib random password config
          ≡ ok (node, phrase))
        × (node.config ≡ config)
        × (length (split_whitespace phrase) ≡ 12)
        × ((typed : Str) (config' : CloudP2pConfig)
            → split_whitespace typed ≡ split_whitespace phrase
            → (again : CloudP2pNode) × (from_seed_phrase bip lib typed password config' ≡ ok again)
              × (again.config ≡ config')
              × (public_id lib again ≡ public_id lib node)
              × ((nonce plain : Bytes)
                  → length nonce ≡ nonce_size
                  → length plain ≤ plaintext_max
                  → (c : Bytes) × (encrypt a node.identity nonce plain ≡ ok c)
                    × (decrypt a again.identity c ≡ ok plain)))
  unfolding new from_seed_phrase
  new-recovers config =
      let (u, phrase, made, _, count, read) =
        generate-recovers bip words lib keys random filled password in
      (
        record { identity = u; config = config },
        phrase,
        rw made,
        refl,
        count,
        λ typed config' same. (
          record { identity = u; config = config' },
          rw ((read typed same).1),
          refl,
          refl,
          identity_decrypt-encrypt a cipher u,
        ),
      )
