-- ===== src/Tests/Phrases.antt =====
-- A small crate of phrases, of the two words "abandon" and "zoo", and the examples of a recovered node.
use libre_drive.Prelude.{
  ◌*◌, ◌/◌, ◌≤◌, ◌≡◌, refl, ap, ◌∙◌, Bool, true, false, some, List, [], ◌∷◌, ◌++◌, map, arith, ltb,
  if◌then◌else◌, All, length, take, replicate, length-take, length-replicate, length-map,
}
use libre_drive.Prelude.Result.{ok}
use libre_drive.Prelude.Text.{Bytes, Str, text, str_eq}
use libre_drive.Crypto.Encryption.Cipher.{plaintext_max}
use libre_drive.Crypto.Encryption.{nonce_size}
use libre_drive.Identity.Whitespace.{
  split_whitespace, join_words, IsWord, split_whitespace-join_words,
}
use libre_drive.Identity.{encrypt, decrypt}
use libre_drive.Identity.SeedPhrase.{Bip39, IsBip39}
use libre_drive.CloudNode.{CloudP2pNode, CloudP2pConfig, default_config, new, public_id}
use libre_drive.CloudNode
use libre_drive.CloudNode.Recovery.{new-recovers}
use libre_drive.Tests.Crypto.{plain_cipher, plain_cipher-IsAead}
use libre_drive.Tests.Parts.{plain_keys, plain_keys-IsIdentityLib}

abbrev spell : Bool → Str
spell true = text "abandon"
spell false = text "zoo"

abbrev two_words : Bip39
two_words = record {
  Mnemonic = List Bool;
  from_entropy = λ e. ok (map (λ b. ltb b 128) (take (length e / 4 * 3) e));
  parse_normalized = λ s. ok (map (str_eq (text "abandon")) (split_whitespace s));
  to_seed = λ m s. map (λ b. if b then 1 else 0) m ++ s;
  to_string = λ m. join_words (map spell m);
  word_iter = map spell;
  english = text "abandon" ∷ text "zoo" ∷ [];
}

spell-IsWord : (b : Bool) → IsWord (spell b)
spell-IsWord true = ground arith
spell-IsWord false = ground arith

spelled : (m : List Bool) → All IsWord (map spell m)
spelled [] = tt
spelled (b ∷ m) = (spell-IsWord b, spelled m)

str_eq-spell : (m : List Bool) → map (str_eq (text "abandon")) (map spell m) ≡ m
unfolding str_eq
str_eq-spell [] = refl
str_eq-spell (true ∷ m) = ap (λ r. true ∷ r) (str_eq-spell m)
str_eq-spell (false ∷ m) = ap (λ r. false ∷ r) (str_eq-spell m)

two_words-IsBip39 : IsBip39 two_words
two_words-IsBip39 = record {
  from_entropy-total = λ n e size least most. (
    map (λ b. ltb b 128) (take (length e / 4 * 3) e),
    refl,
    length-map (map (λ b. ltb b 128) (take (length e / 4 * 3) e)) spell
        ∙ length-map (take (length e / 4 * 3) e) (λ b. ltb b 128)
        ∙ length-take (length e / 4 * 3) e
        ∙ omega (arith, size),
  );
  to_string-words = λ m. refl;
  plain_words = spelled;
  parse-to_string = λ m.
      ap (λ ws. ok (map (str_eq (text "abandon")) ws))
        (split_whitespace-join_words (map spell m) (spelled m))
      ∙ ap ok (str_eq-spell m);
}

new-recovers_example :
    (node : CloudP2pNode) × (phrase : Str) × (new two_words plain_keys
        (λ n. replicate n 200)
        (some (text "secret"))
        default_config
      ≡ ok (node, phrase))
    × (node.config ≡ default_config)
    × (length (split_whitespace phrase) ≡ 12)
    × ((typed : Str) (config' : CloudP2pConfig)
        → split_whitespace typed ≡ split_whitespace phrase
        → (again : CloudP2pNode) × (CloudNode.from_seed_phrase two_words plain_keys typed
              (some (text "secret"))
              config'
            ≡ ok again)
          × (again.config ≡ config')
          × (public_id plain_keys again ≡ public_id plain_keys node)
          × ((nonce plain : Bytes)
              → length nonce ≡ nonce_size
              → length plain ≤ plaintext_max
              → (c : Bytes) × (encrypt plain_cipher node.identity nonce plain ≡ ok c)
                × (decrypt plain_cipher again.identity c ≡ ok plain)))
new-recovers_example =
    new-recovers two_words two_words-IsBip39 plain_keys plain_keys-IsIdentityLib plain_cipher
      plain_cipher-IsAead (λ n. replicate n 200) (λ n. length-replicate n 200)
      (some (text "secret")) default_config
