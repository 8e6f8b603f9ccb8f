-- ===== src/Tests/Readers.antt =====
-- hashing.rs: hashing what a reader gives, at a concrete input.
use libre_drive.Prelude.{
  ℕ, suc, zero, ◌≤◌, ◌≡◌, refl, ap, ◌∙◌, min, some, [], ◌∷◌, ◌++◌, arith, length, length-append,
  length-take, length-drop, take, drop, take-append-drop,
}
use libre_drive.Prelude.Result.{ok}
use libre_drive.Prelude.Text.{Bytes, text}
use libre_drive.Crypto.Hashing.{hash, Reader, hash_file_chunked}
use libre_drive.Crypto.Hashing.Reading.{IsReader, hash_file_chunked-eq-hash}
use libre_drive.Tests.Parts.{plain_hashes, plain_hashes-IsHashLib}

-- A reader of bytes in memory, which fills the buffer as far as it can.
abbrev in_memory : Reader Bytes
in_memory = record {
  read = λ xs buffer.
      let n = min (length buffer) (length xs) in (ok n, drop n xs, take n xs ++ drop n buffer);
}

take-append-eq : (n : ℕ) (xs ys : Bytes) → n ≤ length xs → take n (take n xs ++ ys) ≡ take n xs
take-append-eq zero xs ys h = refl
take-append-eq (suc n) [] ys h = absurd (omega arith)
take-append-eq (suc n) (x ∷ xs) ys h = rw (take-append-eq n xs ys (omega arith))

nothing_left : (xs : Bytes) → length xs ≡ 0 → xs ≡ []
nothing_left [] e = refl
nothing_left (x ∷ xs) e = absurd (omega arith)

in_memory-IsReader : IsReader in_memory (λ xs. xs)
in_memory-IsReader xs buffer =
    let n = min (length buffer) (length xs) in
    let long : length (take n xs ++ drop n buffer) ≡ length buffer =
      length-append (take n xs) (drop n buffer)
      ∙ omega (arith, length-take n xs, length-drop n buffer) in
    record {
      bytes_read = n;
      reader' = drop n xs;
      buffer' = take n xs ++ drop n buffer;
      outcome = refl;
      within = omega (arith, long);
      long = long;
      given =
          ap (λ t. t ++ drop n xs) (take-append-eq n xs (drop n buffer) (omega arith))
          ∙ take-append-drop n xs;
      ended = λ none_read room. nothing_left xs (omega arith);
    }

hash_file_chunked-eq-hash_example :
    hash_file_chunked plain_hashes in_memory 6 (text "hello") 2
    ≡ some (ok (hash plain_hashes (text "hello")))
hash_file_chunked-eq-hash_example =
    hash_file_chunked-eq-hash plain_hashes plain_hashes-IsHashLib in_memory (λ xs. xs)
      in_memory-IsReader 6 2 (text "hello") (omega arith)
