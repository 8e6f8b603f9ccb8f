-- ===== src/Tests/Bincode.antt =====
-- A serialization of encrypted files with the lengths of bincode, for the examples: four numbers in
-- 32 places, the contents, and each offset in 8 places.
use libre_drive.Prelude.{
  ℕ, zero, suc, ◌+◌, ◌*◌, ◌≡◌, refl, ap, List, [], ◌∷◌, ◌++◌, append-nil, append_assoc, arith,
  length, take, drop, replicate, length-append, take-append, drop-append,
}
use libre_drive.Prelude.Result.{Result, ok, err}
use libre_drive.Prelude.Text.{Bytes, Str, text}
use libre_drive.Crypto.Encryption.{EncryptedFile}

unfoldable pub offset_words : List ℕ → Bytes
offset_words [] = []
offset_words (o ∷ os) = o ∷ 0 ∷ 0 ∷ 0 ∷ 0 ∷ 0 ∷ 0 ∷ 0 ∷ offset_words os

unfoldable pub read_words : ℕ → Bytes → List ℕ
read_words zero xs = []
read_words (suc n) (o ∷ a ∷ b ∷ c ∷ d ∷ e ∷ f ∷ g ∷ xs) = o ∷ read_words n xs
read_words (suc n) _ = []

unfoldable pub to_words : EncryptedFile → Bytes
to_words e =
    length e.contents
    ∷ length e.chunk_offsets
    ∷ e.original_size
    ∷ e.chunk_size
    ∷ (replicate 28 0 ++ e.contents ++ offset_words e.chunk_offsets)

unfoldable pub from_words : Bytes → Result Str EncryptedFile
from_words (n ∷ k ∷ original ∷ size ∷ rest) = ok (record {
  contents = take n (drop 28 rest);
  chunk_offsets = read_words k (drop n (drop 28 rest));
  original_size = original;
  chunk_size = size;
})
from_words _ = err (text "short")

read-offset_words :
    (os : List ℕ) (rest : Bytes) → read_words (length os) (offset_words os ++ rest) ≡ os
unfolding read_words offset_words
read-offset_words [] rest = refl
read-offset_words (o ∷ os) rest = ap (◌∷◌ o) (read-offset_words os rest)

length-offset_words : (os : List ℕ) → length (offset_words os) ≡ 8 * length os
unfolding offset_words
length-offset_words [] = refl
length-offset_words (o ∷ os) = omega (arith, length-offset_words os)

pub length-to_words :
    (e : EncryptedFile) → length (to_words e) ≡ 32 + length e.contents + 8 * length e.chunk_offsets
unfolding to_words
length-to_words e = omega (
  arith,
  length-append e.contents (offset_words e.chunk_offsets),
  length-offset_words e.chunk_offsets,
)

pub from-to_words : (e : EncryptedFile) (rest : Bytes) → from_words (to_words e ++ rest) ≡ ok e
unfolding to_words from_words
from-to_words e rest = rw (
  append_assoc e.contents (offset_words e.chunk_offsets) rest,
  take-append (length e.contents) e.contents (offset_words e.chunk_offsets ++ rest) 0 (omega arith),
  append-nil e.contents,
  drop-append (length e.contents) e.contents (offset_words e.chunk_offsets ++ rest) 0 (omega arith),
  read-offset_words e.chunk_offsets rest,
)
