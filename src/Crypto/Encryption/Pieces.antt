-- ===== src/Crypto/Encryption/Pieces.antt =====
-- encryption.rs: where the pieces of an encrypted file lie, and that each is cut out whole.
use libre_drive.Prelude.{
  ℕ, zero, suc, ◌+◌, ◌-◌, ◌<◌, ◌≡◌, refl, sym, ap, ◌∙◌, true, false, ◌&&◌, some, List, [], ◌∷◌,
  ◌++◌, append-nil, arith, ltb, leb, lt→ltb, le→ltb, length, get_elem?, take, drop, flatten,
  length-append, length-drop, take-all, take-append, drop-append, drop-drop,
}
use libre_drive.Prelude.Result.{ok}
use libre_drive.Prelude.Text.{Bytes}
use libre_drive.Crypto.Encryption.{EncryptedFile, chunk_end, slice, chunk_bytes}

-- Where each chunk begins.
abbrev pub offsets_from : ℕ → List Bytes → List ℕ
offsets_from b [] = []
offsets_from b (e ∷ es) = b ∷ offsets_from (b + length e) es

get-offsets_from :
    (b i : ℕ) (es : List Bytes)
    → i < length es
    → get_elem? (offsets_from b es) i ≡ some (b + length (flatten (take i es)))
get-offsets_from b i [] h = absurd (omega arith)
get-offsets_from b zero (e ∷ es) h = ap some (omega arith)
get-offsets_from b (suc i) (e ∷ es) h =
    get-offsets_from (b + length e) i es (omega arith)
    ∙ ap some (omega (arith, length-append e (flatten (take i es))))

pub length-offsets_from : (b : ℕ) (es : List Bytes) → length (offsets_from b es) ≡ length es
length-offsets_from b [] = refl
length-offsets_from b (e ∷ es) = ap suc (length-offsets_from (b + length e) es)

-- The bytes behind the first `i` pieces are the other pieces.
drop-flatten :
    (i : ℕ) (es : List Bytes)
    → drop (length (flatten (take i es))) (flatten es) ≡ flatten (drop i es)
drop-flatten zero es = refl
drop-flatten (suc i) [] = refl
drop-flatten (suc i) (e ∷ es) =
    drop-append _ e (flatten es) (length (flatten (take i es)))
      (length-append e (flatten (take i es)))
    ∙ drop-flatten i es

flatten-take-suc :
    (i : ℕ) (es : List Bytes) {e : Bytes} {rest : List Bytes}
    → drop i es ≡ e ∷ rest
    → length (flatten (take (suc i) es)) ≡ length (flatten (take i es)) + length e
flatten-take-suc zero [] h = ground arith
flatten-take-suc zero (x ∷ es) {e} h = ground (arith, length-append x [])
flatten-take-suc (suc i) [] h = ground arith
flatten-take-suc (suc i) (x ∷ es) h = omega (
  arith,
  flatten-take-suc i es h,
  length-append x (flatten (take i es)),
  length-append x (flatten (take (suc i) es)),
)

pub length-drop-cons :
    (i : ℕ) (es : List Bytes) {e : Bytes} {rest : List Bytes}
    → drop i es ≡ e ∷ rest
    → length es ≡ i + suc (length rest)
length-drop-cons zero es h = ap length h ∙ omega arith
length-drop-cons (suc i) [] h = ground arith
length-drop-cons (suc i) (x ∷ es) h = omega (arith, length-drop-cons i es h)

pub drop-suc :
    (i : ℕ) (es : List Bytes) {e : Bytes} {rest : List Bytes}
    → drop i es ≡ e ∷ rest
    → drop (i + 1) es ≡ rest
drop-suc i es h = sym (drop-drop i 1 (i + 1) es refl) ∙ ap (drop 1) h

-- The encrypted file that holds the given pieces.
abbrev pub assembled : List Bytes → ℕ → ℕ → EncryptedFile
assembled es size chunk = record {
  contents = flatten es;
  chunk_offsets = offsets_from 0 es;
  original_size = size;
  chunk_size = chunk;
}

slice-middle :
    (xs e ys : Bytes) (s : ℕ)
    → drop s xs ≡ e ++ ys
    → 0 < length e
    → slice xs s (s + length e) ≡ ok e
unfolding slice
slice-middle xs e ys s h nonempty =
    let l = length-drop s xs in
    let l' : length (drop s xs) ≡ length e + length ys = ap length h ∙ length-append e ys in
    let n : s + length e - s ≡ length e + 0 = omega arith in
    let inside : (leb s (s + length e) && leb (s + length e) (length xs)) ≡ true = ground arith in
    rw (inside, n, h, take-append (length e + 0) e ys 0 refl, append-nil e)

module _ (es : List Bytes) (size chunk : ℕ) where
  chunk_end-assembled :
      (i : ℕ) (e : Bytes) (rest : List Bytes)
      → drop i es ≡ e ∷ rest
      → chunk_end (assembled es size chunk) i ≡ ok (length (flatten (take i es)) + length e)
  chunk_end-assembled i e [] h =
      let l = length-drop-cons i es h in
      let l' = length-offsets_from 0 es in
      let last : ltb (i + 1) (length (offsets_from 0 es)) ≡ false = le→ltb _ _ (omega arith) in
      let t : take (suc i) es ≡ es = take-all (suc i) es (omega arith) in
      rw last (ap ok (ap (λ x. length (flatten x)) (sym t) ∙ flatten-take-suc i es h))
  chunk_end-assembled i e (e' ∷ rest) h =
      let l = length-drop-cons i es h in
      let l' = length-offsets_from 0 es in
      let more : ltb (i + 1) (length (offsets_from 0 es)) ≡ true = lt→ltb _ _ (omega arith) in
      let n : i + 1 ≡ suc i = omega arith in
      rw (more, n, get-offsets_from 0 (suc i) es (omega arith))
        (ap ok (omega (arith, flatten-take-suc i es h)))

  -- Chunk `i` is cut out whole.
  pub chunk_bytes-assembled :
      (i : ℕ) (e : Bytes) (rest : List Bytes)
      → drop i es ≡ e ∷ rest
      → 0 < length e
      → chunk_bytes (assembled es size chunk) i ≡ ok e
  unfolding chunk_bytes
  chunk_bytes-assembled i e rest h nonempty =
      let l = length-drop-cons i es h in
      let z : 0 + length (flatten (take i es)) ≡ length (flatten (take i es)) = omega arith in
      rw (get-offsets_from 0 i es (omega arith), z, chunk_end-assembled i e rest h)
        (slice-middle (flatten es) e (flatten rest) (length (flatten (take i es)))
          (drop-flatten i es ∙ ap flatten h) nonempty)
