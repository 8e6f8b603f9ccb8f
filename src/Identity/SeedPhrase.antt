-- ===== src/Identity/SeedPhrase.antt =====
-- identity/seed.rs and the use that identity/mod.rs makes of it. The crate bip39 is the parameter `Bip39`;
-- the random bytes are an argument.
use libre_drive.Prelude.{
  ℕ, ◌*◌, ◌/◌, ◌≤◌, ◌≡◌, Bool, true, false, ◌&&◌, ◌||◌, Option, none, some, List, [], ◌∷◌, ◌==◌,
  if◌then◌else◌, All, length, take, filter,
}
use libre_drive.Prelude.Result.{Result, ok, err, ◌>>=◌, map_err}
use libre_drive.Prelude.Text.{Bytes, Str, text}
use libre_drive.Identity.Library.{IdentityLib}
use libre_drive.Identity.Whitespace.{split_whitespace, join_words, IsWord}
use libre_drive.Identity.{IdentityError, invalid_seed_phrase, UserIdentity, from_master_seed}

pub record Bip39 : Type 1 where
  pub Mnemonic : Type 0
  pub from_entropy : Bytes → Result Str Mnemonic
  pub parse_normalized : Str → Result Str Mnemonic
  pub to_seed : Mnemonic → Str → Bytes
  pub to_string : Mnemonic → Str
  pub word_iter : Mnemonic → List Str
  pub english : List Str

-- The documented behaviour: 16, 20, 24, 28 or 32 bytes of entropy give a mnemonic, with three words for
-- every four bytes; it is written as its words with a space between them, words of the list, and
-- what is written is read back.
pub record IsBip39 (bip : Bip39) : Type 0 where
  pub from_entropy-total :
      (n : ℕ) (entropy : Bytes)
      → length entropy ≡ 4 * n
      → 4 ≤ n
      → n ≤ 8
      → (m : bip.Mnemonic) × (bip.from_entropy entropy ≡ ok m) × (length (bip.word_iter m) ≡ 3 * n)
  pub to_string-words : (m : bip.Mnemonic) → bip.to_string m ≡ join_words (bip.word_iter m)
  pub plain_words : (m : bip.Mnemonic) → All IsWord (bip.word_iter m)
  pub parse-to_string : (m : bip.Mnemonic) → bip.parse_normalized (bip.to_string m) ≡ ok m

-- The bits of entropy for a number of words.
unfoldable pub entropy_bits : ℕ → Result IdentityError ℕ
entropy_bits n =
    if n == 10 || n == 12
    then ok 128
    else if n == 15
    then ok 160
    else if n == 18
    then ok 192
    else if n == 21
    then ok 224
    else if n == 24
    then ok 256
    else err (invalid_seed_phrase (text "Word count must be 12, 15, 18, 21, or 24"))

-- `password.unwrap_or("")`
abbrev pub or_empty : Option Str → Str
or_empty none = []
or_empty (some s) = s

-- text.starts_with(prefix)
unfoldable pub starts_with : Str → Str → Bool
starts_with [] s = true
starts_with (p ∷ ps) [] = false
starts_with (p ∷ ps) (c ∷ cs) = p == c && starts_with ps cs

abbrev pub is_ok {ℓ} : {E : Type 0} {A : Type ℓ} → Result E A → Bool
is_ok (ok a) = true
is_ok _ = false

module _ (bip : Bip39) where
  -- `SeedPhrase`
  pub record SeedPhrase : Type 0 where
    pub mnemonic : bip.Mnemonic

  -- `SeedPhrase::generate`; `random n` is what the generator puts into n bytes.
  unfoldable pub generate_phrase : (ℕ → Bytes) → ℕ → Result IdentityError SeedPhrase
  generate_phrase random word_count = do
    bits ← entropy_bits word_count
    let entropy = random (bits / 8)
    m ← map_err invalid_seed_phrase (bip.from_entropy entropy)
    ok (record { mnemonic = m })

  -- `SeedPhrase::from_phrase`
  unfoldable pub from_phrase : Str → Result IdentityError SeedPhrase
  from_phrase phrase = do
    let normalized_phrase = join_words (split_whitespace phrase)
    m ← map_err invalid_seed_phrase (bip.parse_normalized normalized_phrase)
    ok (record { mnemonic = m })

  -- `SeedPhrase::to_seed`
  abbrev pub phrase_seed : SeedPhrase → Str → Bytes
  phrase_seed s passphrase = bip.to_seed s.mnemonic passphrase

  -- `SeedPhrase::to_string`, `SeedPhrase::words`
  abbrev pub phrase_text : SeedPhrase → Str
  phrase_text s = bip.to_string s.mnemonic

  abbrev pub words : SeedPhrase → List Str
  words s = bip.word_iter s.mnemonic

  -- `SeedPhrase::validate`
  unfoldable pub validate : Str → Bool
  validate phrase = is_ok (bip.parse_normalized (join_words (split_whitespace phrase)))

  -- `SeedPhrase::suggest_word`
  unfoldable pub suggest_word : Str → List Str
  suggest_word prefix = take 5 (filter (λ word. starts_with prefix word) bip.english)

  -- `UserIdentity::from_seed_phrase`
  unfoldable pub from_seed_phrase :
      IdentityLib → Str → Option Str → Result IdentityError UserIdentity
  from_seed_phrase lib mnemonic password = do
    seed_phrase ← from_phrase mnemonic
    let master_seed = phrase_seed seed_phrase (or_empty password)
    from_master_seed lib master_seed

  -- `UserIdentity::generate`
  unfoldable pub generate :
      IdentityLib → (ℕ → Bytes) → Option Str → Result IdentityError (UserIdentity × Str)
  generate lib random password = do
    seed_phrase ← generate_phrase random 10
    let mnemonic_str = phrase_text seed_phrase
    identity ← from_seed_phrase lib mnemonic_str password
    ok (identity, mnemonic_str)
