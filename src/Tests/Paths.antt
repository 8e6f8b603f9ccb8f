-- ===== src/Tests/Paths.antt =====
-- storage_protocol.rs: two paths that lead to one file, at a concrete input.
use libre_drive.Prelude.{◌≡◌, refl, ◌≢◌, Option, some, [], arith, if◌then◌else◌, ap, get_elem?, ℕ}
use libre_drive.Prelude.Result.{ok, err}
use libre_drive.Prelude.Text.{Str, text, str_eq}
use libre_drive.Prelude.Int.{pos}
use libre_drive.Crypto.Hashing.{hash, to_base58}
use libre_drive.P2p.{protocol}
use libre_drive.P2p.StorageManager.{Crates, new, new_fragment, store_fragment, retrieve_fragment}
use libre_drive.P2p.StorageManager.Fragment.{first_two, path_of, index_path}
use libre_drive.P2p.StorageManager.Retrieval.{healthy}
use libre_drive.P2p.StorageManager.Overwritten.{store_fragment-overwrites}
use libre_drive.Tests.Node.{plain_crates}

-- The way back from a directory, at one path.
abbrev resolved : Str → Str
resolved path =
    if str_eq path (text "fragments/ab/ab/../abd") then text "fragments/ab/abd" else path

abbrev resolving : Crates
resolving = record plain_crates { file_of = resolved }

prefix_plain : first_two (text "abd") ≡ some (text "ab")
unfolding first_two
prefix_plain = refl

prefix_around : first_two (text "ab/../abd") ≡ some (text "ab")
unfolding first_two
prefix_around = refl

one_file :
    resolved (path_of (text "ab") (text "abd")) ≡ resolved (path_of (text "ab") (text "ab/../abd"))
unfolding str_eq
one_file = refl

not_index : resolved (path_of (text "ab") (text "ab/../abd")) ≢ resolved index_path
unfolding str_eq
not_index e =
    let first : ◌≡◌ {A = Option ℕ} (some 102) (some 105) = ap (λ (s : Str). get_elem? s 0) e in
    absurd (ground arith)

two_ids : text "abd" ≢ text "ab/../abd"
two_ids e =
    let third : ◌≡◌ {A = Option ℕ} (some 100) (some 47) = ap (λ (s : Str). get_elem? s 2) e in
    absurd (ground arith)

two_hashes :
    to_base58 resolving.hashes (hash resolving.hashes (text "other"))
    ≢ to_base58 resolving.hashes (hash resolving.hashes (text "hello"))
unfolding to_base58 hash
two_hashes e =
    let first : ◌≡◌ {A = Option ℕ} (some 111) (some 104) = ap (λ (s : Str). get_elem? s 0) e in
    absurd (ground arith)

store_fragment-overwrites_example :
    let r =
      store_fragment resolving
        (text "abd")
        (text "alice")
        (text "hello")
        (pos 100)
        (pos 10)
        (healthy (new 100) []) in
    let s =
      store_fragment resolving
        (text "ab/../abd")
        (text "bob")
        (text "other")
        (pos 100)
        (pos 20)
        r.1 in
    (r.0
      ≡ ok (
          new_fragment resolving
            (text "abd")
            (text "alice")
            (text "hello")
            (pos 100)
            (pos 10)
            (path_of (text "ab") (text "abd"))))
    × (s.0
        ≡ ok (
            new_fragment resolving
              (text "ab/../abd")
              (text "bob")
              (text "other")
              (pos 100)
              (pos 20)
              (path_of (text "ab") (text "ab/../abd"))))
    × ((retrieve_fragment resolving (text "abd") (pos 30) s.1).0
        ≡ err (protocol (text "Fragment integrity check failed")))
store_fragment-overwrites_example =
    store_fragment-overwrites resolving (λ index. (text "{}", refl)) (text "abd") (text "ab/../abd")
      (text "ab") (text "ab") (text "alice") (text "bob") (text "hello") (text "other") (pos 100)
      (pos 100) (pos 10) (pos 20) prefix_plain prefix_around two_ids one_file not_index (new 100) []
      (pos 30) refl refl two_hashes refl
