-- ===== src/P2p/StorageManager/Fragment.antt =====
-- storage_protocol.rs: the record of a stored fragment and the path of its file.
use libre_drive.Prelude.{
  ℕ, ◌≡◌, sym, ap, ◌∙◌, ◌≢◌, Bool, true, ◌&&◌, not, ◌||◌, ◌==◌, Option, none, some, [], ◌∷◌, ◌++◌,
  arith, ltb, leb, if◌then◌else◌, get_elem?,
}
use libre_drive.Prelude.Text.{Str, text}
use libre_drive.Prelude.Int.{ℤ}

pub record StoredFragment : Type 0 where
  pub fragment_id : Str
  pub owner_id : Str
  pub size_bytes : ℕ
  pub content_hash : Str
  pub created_at : ℤ
  pub expires_at : ℤ
  pub local_path : Str
  pub access_count : ℕ
  pub last_accessed : ℤ

-- Whether a text may be cut before the byte at its head: that byte does not continue a character.
abbrev pub is_boundary : Str → Bool
is_boundary [] = true
is_boundary (x ∷ xs) = not (leb 128 x && ltb x 192)

-- &fragment_id[..2], which panics on a shorter text and inside a character.
unfoldable pub first_two : Str → Option Str
first_two [] = none
first_two (a ∷ []) = none
first_two (a ∷ b ∷ rest) = if is_boundary rest then some (a ∷ b ∷ []) else none

-- format!("fragments/{}/{}", &fragment_id[..2], fragment_id)
-- The id goes in as it is, with any `/` and `..`; the file that the path leads to is `Crates.file_of` of it.
abbrev pub path_of : Str → Str → Str
path_of prefix fragment_id = text "fragments/" ++ prefix ++ text "/" ++ fragment_id

-- "index.json" below the storage path.
abbrev pub index_path : Str
index_path = text "index.json"

-- The bytes of letters, digits, `-` and `_`.
abbrev is_plain_byte : ℕ → Bool
is_plain_byte c =
    (leb 48 c && leb c 57)
    || (leb 65 c && leb c 90)
    || (leb 97 c && leb c 122)
    || (c == 45)
    || (c == 95)

-- An id that is one name in a path: no `/`, `.`, `\` or NUL, which a path gives a meaning of their own.
-- The ids of the code's own shards, Base58 with "-shard-" and a number, are of this kind.
unfoldable pub is_plain : Str → Bool
is_plain [] = true
is_plain (c ∷ cs) = is_plain_byte c && is_plain cs

-- Different fragments have different paths.
pub path_of-injective :
    (p q a b : Str)
    → first_two a ≡ some p
    → first_two b ≡ some q
    → path_of p a ≡ path_of q b
    → a ≡ b
unfolding first_two
path_of-injective p q [] b ha hb e = ground arith
path_of-injective p q (x ∷ []) b ha hb e = ground arith
path_of-injective p q (x ∷ y ∷ a) [] ha hb e = ground arith
path_of-injective p q (x ∷ y ∷ a) (z ∷ []) ha hb e = ground arith
path_of-injective p q (x ∷ y ∷ a) (z ∷ w ∷ b) ha hb e =
    let hp : p ≡ x ∷ y ∷ [] = ground arith in
    let hq : q ≡ z ∷ w ∷ [] = ground arith in
    let e' : path_of (x ∷ y ∷ []) (x ∷ y ∷ a) ≡ path_of (z ∷ w ∷ []) (z ∷ w ∷ b) =
      ap (λ r. path_of r (x ∷ y ∷ a)) (sym hp) ∙ e ∙ ap (λ r. path_of r (z ∷ w ∷ b)) hq in
    cc

-- No fragment's path is that of the index.
pub path_of-ne-index : (p a : Str) → path_of p a ≢ index_path
path_of-ne-index p a e =
    let first : ◌≡◌ {A = Option ℕ} (some 102) (some 105) = ap (λ (s : Str). get_elem? s 0) e in
    absurd (ground arith)
