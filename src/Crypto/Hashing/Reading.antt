-- ===== src/Crypto/Hashing/Reading.antt =====
-- hashing.rs: hashing a file in pieces.
use libre_drive.Prelude.{
  ℕ, suc, zero, ◌+◌, ◌≤◌, ◌<◌, ◌≡◌, sym, ap, ◌∙◌, inl, inr, true, false, some, [], ◌++◌, append-nil,
  append_assoc, arith, ◌==◌, leb, length, length-append, take, replicate, length-take, Bool-cases,
  if◌then◌else◌,
}
use libre_drive.Prelude.Result.{ok}
use libre_drive.Prelude.Text.{Bytes}
use libre_drive.Crypto.Hashing.Library.{HashLib, IsHashLib}
use libre_drive.Crypto.Hashing.{
  hash, IncrementalHasher, new, update, finalize, Reader, hash_reads, hash_file_chunked,
}

-- What one `read` of a buffer gives, by the documentation of `Read`, where it does not fail and
-- `content` is what the reader has left: the first bytes of it, at the start of a buffer of the same
-- length, whose rest may be anything; and no bytes only at the end or for an empty buffer.
pub record Gives {R : Type 0} (io : Reader R) (content : R → Bytes) (reader : R) (buffer : Bytes)
    : Type 0 where
  pub bytes_read : ℕ
  pub reader' : R
  pub buffer' : Bytes
  pub outcome : io.read reader buffer ≡ (ok bytes_read, reader', buffer')
  pub within : bytes_read ≤ length buffer'
  pub long : length buffer' ≡ length buffer
  pub given : take bytes_read buffer' ++ content reader' ≡ content reader
  pub ended : bytes_read ≡ 0 → 0 < length buffer → content reader ≡ []

-- No `read` fails.
abbrev pub IsReader : {R : Type 0} → Reader R → (R → Bytes) → Type 0
IsReader {R} io content = (reader : R) (buffer : Bytes) → Gives io content reader buffer

module _ (lib : HashLib) (laws : IsHashLib lib) where
  hash_reads-absorbed :
      {R : Type 0} (io : Reader R) (content : R → Bytes) (gives : IsReader io content) (fuel : ℕ)
      (h : IncrementalHasher lib) (xs : Bytes) (reader : R) (buffer : Bytes)
      → laws.Absorbed h.hasher xs
      → 0 < length buffer
      → length (content reader) < fuel
      → hash_reads lib io fuel h reader buffer ≡ some (ok (hash lib (xs ++ content reader)))
  unfolding hash_reads hash finalize update
  hash_reads-absorbed io content gives zero h xs reader buffer a room enough = absurd (omega arith)
  hash_reads-absorbed io content gives (suc fuel) h xs reader buffer a room enough =
      let g = gives reader buffer in
      elim (Bool-cases (g.bytes_read == 0)) [
        | inl at_end ↦
            let empty = g.ended (ground arith) room in
            rw (g.outcome, at_end, empty, append-nil xs)
              (ap (λ r. some (ok (record { raw = r }))) (laws.finalize-absorbed h.hasher xs a))
        | inr more ↦
            let some_read : 0 < g.bytes_read = ground arith in
            let fits : leb g.bytes_read (length g.buffer') ≡ true =
              (let w = g.within in ground arith) in
            let piece = take g.bytes_read g.buffer' in
            let sum : length piece + length (content g.reader') ≡ length (content reader) =
              sym (length-append piece (content g.reader')) ∙ ap length g.given in
            let size = length-take g.bytes_read g.buffer' in
            let fewer : length (content g.reader') < fuel = (let w = g.within in omega arith) in
            let wide : 0 < length g.buffer' = (let l = g.long in omega arith) in
            rw (g.outcome, more, fits)
              (hash_reads-absorbed io content gives fuel (update lib h piece) (xs ++ piece)
                  g.reader' g.buffer' (laws.absorbed-update h.hasher xs piece a) wide fewer
                ∙ ap (λ z. some (ok (hash lib z)))
                    (append_assoc xs piece (content g.reader') ∙ ap (◌++◌ xs) g.given))
      ]

  empty_buffer :
      {R : Type 0} (io : Reader R) (content : R → Bytes) (gives : IsReader io content) (fuel : ℕ)
      (reader : R)
      → 0 < fuel
      → hash_reads lib io fuel (new lib) reader [] ≡ some (ok (hash lib []))
  unfolding hash_reads hash finalize new
  empty_buffer io content gives zero reader enough = absurd (omega arith)
  empty_buffer io content gives (suc fuel) reader enough =
      let g = gives reader [] in
      let none_read : (g.bytes_read == 0) ≡ true =
        (let w = g.within in let l = g.long in ground arith) in
      rw (g.outcome, none_read)
        (ap (λ r. some (ok (record { raw = r })))
          (laws.finalize-absorbed lib.hasher_new [] laws.absorbed-new))

  -- Where no `read` fails, and each gives the next bytes that the reader has left, however many: with
  -- more rounds than bytes, `hash_file_chunked` is the hash of all that the reader has left, whatever
  -- the chunk size, unless it is 0: then it is the hash of no bytes.
  pub hash_file_chunked-eq-hash :
      {R : Type 0} (io : Reader R) (content : R → Bytes) (gives : IsReader io content)
      (fuel chunk_size : ℕ) (reader : R)
      → length (content reader) < fuel
      → hash_file_chunked lib io fuel reader chunk_size
        ≡ some (ok (hash lib (if chunk_size == 0 then [] else content reader)))
  unfolding hash_file_chunked new
  hash_file_chunked-eq-hash io content gives fuel zero reader enough =
      empty_buffer io content gives fuel reader (omega arith)
  hash_file_chunked-eq-hash io content gives fuel (suc n) reader enough =
      let not_zero : (suc n == 0) ≡ false = ground arith in
      rw not_zero (
        hash_reads-absorbed io content gives fuel (new lib) [] reader (replicate (suc n) 0)
          laws.absorbed-new (omega arith) enough)
