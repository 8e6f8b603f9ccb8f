-- ===== src/Identity/Recovery.antt =====
-- identity/seed.rs: a phrase that was generated recovers the identity.
use libre_drive.Prelude.{ℕ, ◌≡◌, sym, ap, ◌∙◌, true, Option, arith, length}
use libre_drive.Prelude.Result.{ok}
use libre_drive.Prelude.Text.{Bytes, Str}
use libre_drive.Identity.Library.{IdentityLib, IsIdentityLib}
use libre_drive.Identity.Whitespace.{split_whitespace, join_words, split_whitespace-join_words}
use libre_drive.Identity.SeedPhrase.{
  Bip39, IsBip39, generate_phrase, from_phrase, or_empty, validate, from_seed_phrase, generate,
  entropy_bits,
}
use libre_drive.Identity.{UserIdentity}
use libre_drive.Identity.Laws.{IsIdentity, from_master_seed-IsIdentity}

module _ (bip : Bip39) (laws : IsBip39 bip) where
  -- A text with the words of a mnemonic is read as that mnemonic.
  from_phrase-words :
      (m : bip.Mnemonic) (typed : Str)
      → split_whitespace typed ≡ bip.word_iter m
      → (from_phrase bip typed ≡ ok (record { mnemonic = m })) × (validate bip typed ≡ true)
  unfolding from_phrase validate
  from_phrase-words m typed same =
      let e : bip.parse_normalized (join_words (split_whitespace typed)) ≡ ok m =
        ap (λ ws. bip.parse_normalized (join_words ws)) same
        ∙ ap bip.parse_normalized (sym (laws.to_string-words m))
        ∙ laws.parse-to_string m in
      (rw e, rw e)

  module _ (lib : IdentityLib) (keys : IsIdentityLib lib) (random : ℕ → Bytes)
      (filled : (n : ℕ) → length (random n) ≡ n) (password : Option Str) where
    -- `generate` succeeds, with an identity whose keys belong together and a phrase of 12 words (not
    -- 10). Every text with the same words, however they are spaced, is a valid phrase, and with the same
    -- password it recovers the same identity.
    pub generate-recovers :
        (u : UserIdentity) × (phrase : Str) × (generate bip lib random password ≡ ok (u, phrase))
        × IsIdentity lib u
        × (length (split_whitespace phrase) ≡ 12)
        × ((typed : Str)
            → split_whitespace typed ≡ split_whitespace phrase
            → (validate bip typed ≡ true) × (from_seed_phrase bip lib typed password ≡ ok u))
    unfolding generate generate_phrase from_seed_phrase entropy_bits
    generate-recovers =
        let (m, made, count) =
          laws.from_entropy-total 4 (random 16) (filled 16) (omega arith) (omega arith) in
        let phrase = bip.to_string m in
        let split : split_whitespace phrase ≡ bip.word_iter m =
          ap split_whitespace (laws.to_string-words m)
          ∙ split_whitespace-join_words (bip.word_iter m) (laws.plain_words m) in
        let (u, derived, seed, valid) =
          from_master_seed-IsIdentity lib keys (bip.to_seed m (or_empty password)) in
        (
          u,
          phrase,
          rw (made, (from_phrase-words m phrase split).0, derived),
          valid,
          (ap length split ∙ count),
          λ typed same.
              let (read, fine) = from_phrase-words m typed (same ∙ split) in
              (fine, rw (read, derived)),
        )
