-- ===== src/Tests/Numbers.antt =====
-- An index written as numbers and read back, for the examples.
use libre_drive.P2p.StorageManager.Names.{Works}
use libre_drive.P2p.StorageManager.Fragment.{path_of-ne-index, StoredFragment}
use libre_drive.Prelude.{
  ℕ, zero, suc, ◌≡◌, refl, ap, subst, [], ◌∷◌, ◌++◌, append-nil, arith, length, take, drop,
  take-append, drop-append,
}
use libre_drive.Prelude.Result.{Result, ok, err}
use libre_drive.Prelude.Text.{Bytes, Str, text}
use libre_drive.Prelude.Int.{ℤ, pos, negsuc}
use libre_drive.Prelude.Dict.{Dict}
use libre_drive.P2p.StorageManager.{Crates}
use libre_drive.P2p.StorageManager.Restored.{ReadsBack}
use libre_drive.Tests.Parts.{plain_hashes}

-- A text behind its length.
unfoldable pub put_text : Str → Bytes → Bytes
put_text s rest = length s ∷ (s ++ rest)

unfoldable pub get_text : Bytes → Str × Bytes
get_text [] = ([], [])
get_text (n ∷ rest) = (take n rest, drop n rest)

get-put_text : (s : Str) (rest : Bytes) → get_text (put_text s rest) ≡ (s, rest)
unfolding get_text put_text
get-put_text s rest = rw (
  take-append (length s) s rest 0 (omega arith),
  append-nil s,
  drop-append (length s) s rest 0 (omega arith),
)

unfoldable pub put_time : ℤ → Bytes → Bytes
put_time (pos n) rest = 0 ∷ n ∷ rest
put_time (negsuc n) rest = 1 ∷ n ∷ rest

unfoldable pub get_time : Bytes → ℤ × Bytes
get_time (zero ∷ n ∷ rest) = (pos n, rest)
get_time (suc k ∷ n ∷ rest) = (negsuc n, rest)
get_time _ = (pos 0, [])

get-put_time : (t : ℤ) (rest : Bytes) → get_time (put_time t rest) ≡ (t, rest)
unfolding get_time put_time
get-put_time (pos n) rest = refl
get-put_time (negsuc n) rest = refl

unfoldable pub get_number : Bytes → ℕ × Bytes
get_number [] = (0, [])
get_number (n ∷ rest) = (n, rest)

unfoldable pub put_fragment : StoredFragment → Bytes → Bytes
put_fragment f rest = put_text f.fragment_id (
    put_text f.owner_id (
      f.size_bytes
      ∷ put_text f.content_hash (
          put_time f.created_at (
            put_time f.expires_at
              (put_text f.local_path (f.access_count ∷ put_time f.last_accessed rest))))))

unfoldable pub get_fragment : Bytes → StoredFragment × Bytes
get_fragment xs =
    let a = get_text xs in
    let b = get_text a.1 in
    let c = get_number b.1 in
    let d = get_text c.1 in
    let e = get_time d.1 in
    let f = get_time e.1 in
    let g = get_text f.1 in
    let h = get_number g.1 in
    let i = get_time h.1 in
    (
      record {
        fragment_id = a.0;
        owner_id = b.0;
        size_bytes = c.0;
        content_hash = d.0;
        created_at = e.0;
        expires_at = f.0;
        local_path = g.0;
        access_count = h.0;
        last_accessed = i.0;
      },
      i.1,
    )

get-put_fragment :
    (f : StoredFragment) (rest : Bytes) → get_fragment (put_fragment f rest) ≡ (f, rest)
unfolding get_fragment put_fragment get_number
get-put_fragment f rest = rw (
  get-put_text f.fragment_id,
  get-put_text f.owner_id,
  get-put_text f.content_hash,
  get-put_time f.created_at,
  get-put_time f.expires_at,
  get-put_text f.local_path,
  get-put_time f.last_accessed,
)

unfoldable pub put_index : Dict StoredFragment → Bytes
put_index [] = []
put_index ((id, f) ∷ index) = put_text id (put_fragment f (put_index index))

unfoldable pub get_index : ℕ → Bytes → Dict StoredFragment
get_index zero xs = []
get_index (suc n) xs =
    let id = get_text xs in let f = get_fragment id.1 in (id.0, f.0) ∷ get_index n f.1

get-put_index : (index : Dict StoredFragment) → get_index (length index) (put_index index) ≡ index
unfolding get_index put_index
get-put_index [] = refl
get-put_index ((id, f) ∷ index) = rw (
  get-put_text id (put_fragment f (put_index index)),
  get-put_fragment f (put_index index),
  get-put_index index,
)

unfoldable pub from_numbers : Bytes → Result Str (Dict StoredFragment)
from_numbers [] = err (text "short")
from_numbers (n ∷ xs) = ok (get_index n xs)

abbrev pub number_crates : Crates
number_crates = record {
  file_of = λ path. path;
  hashes = plain_hashes;
  to_json = λ index. ok (length index ∷ put_index index);
  from_json = from_numbers;
}

pub writes_numbers :
    (index : Dict StoredFragment) → (b : Bytes) × (number_crates.to_json index ≡ ok b)
writes_numbers index = (length index ∷ put_index index, refl)

pub number_crates-Works : Works number_crates
number_crates-Works = record {
  written = writes_numbers;
  apart = λ p q a b long long' plain plain' e. e;
  index_apart = λ p a long plain. path_of-ne-index p a;
}

pub reads_numbers :
    (index : Dict StoredFragment) → from_numbers (length index ∷ put_index index) ≡ ok index
unfolding from_numbers
reads_numbers index = ap ok (get-put_index index)

pub number_crates-ReadsBack : ReadsBack number_crates
number_crates-ReadsBack index b unique written =
    let same : length index ∷ put_index index ≡ b = cc in
    (index, subst (λ c. from_numbers c ≡ ok index) same (reads_numbers index), unique, λ j. refl)
