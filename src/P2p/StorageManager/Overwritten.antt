-- ===== src/P2p/StorageManager/Overwritten.antt =====
-- storage_protocol.rs: two ids whose paths lead to one file.
use libre_drive.Prelude.{◌≡◌, refl, sym, ap, ◌∙◌, ◌≢◌, true, false, some, leb, length}
use libre_drive.Prelude.Result.{ok, err}
use libre_drive.Prelude.Text.{Bytes, Str, text, str_eq, str_eq_refl}
use libre_drive.Prelude.Word.{add_u64}
use libre_drive.Prelude.Int.{ℤ, ltb_ℤ}
use libre_drive.Prelude.Dict.{Dict, lookup, insert, lookup-insert}
use libre_drive.Crypto.Hashing.{hash, to_base58}
use libre_drive.P2p.{protocol}
use libre_drive.P2p.Disk.{read}
use libre_drive.P2p.StorageManager.Fragment.{StoredFragment, first_two, path_of, index_path}
use libre_drive.P2p.StorageManager.Actions.{StorageManager, ◌>>=◌}
use libre_drive.P2p.StorageManager.{
  Crates, new_fragment, record_fragment, store_fragment, retrieve_fragment,
}
use libre_drive.P2p.StorageManager.Retrieval.{healthy, stored_files, store_fragment-eq, str_eq_ne}

retrieve_fragment-mismatch :
    (x : Crates) (id : Str) (m : StorageManager) (files : Dict Bytes) (f : StoredFragment)
    (ys : Bytes) (later : ℤ)
    → lookup id m.fragment_index ≡ some f
    → ltb_ℤ f.expires_at later ≡ false
    → lookup (x.file_of f.local_path) files ≡ some ys
    → str_eq (to_base58 x.hashes (hash x.hashes ys)) f.content_hash ≡ false
    → (retrieve_fragment x id later (healthy m files)).0
      ≡ err (protocol (text "Fragment integrity check failed"))
unfolding retrieve_fragment ◌>>=◌ read
retrieve_fragment-mismatch x id m files f ys later listed valid filed differ =
    rw (listed, valid, filed, differ)

module _ (x : Crates)
    (json : (index : Dict StoredFragment) → (b : Bytes) × (x.to_json index ≡ ok b))
    (a b p q owner other : Str) (xs ys : Bytes) (expires expires' now now' : ℤ)
    (long : first_two a ≡ some p) (long' : first_two b ≡ some q) (apart : a ≢ b)
    (one_file : x.file_of (path_of p a) ≡ x.file_of (path_of q b))
    (not_index : x.file_of (path_of q b) ≢ x.file_of index_path) where
  -- On a disk that works, with an index that JSON can write, and for two different ids whose paths lead
  -- to one file (as "abd" and "ab/../abd"), which is not the index: where there is space for the data
  -- of both, and the data have different hashes, each is stored without an error, and then the first,
  -- until it expires, is answered with an integrity error.
  pub store_fragment-overwrites :
      (m : StorageManager) (files : Dict Bytes) (later : ℤ)
      → leb (add_u64 m.used_storage_bytes (length xs)) m.max_storage_bytes ≡ true
      → leb (add_u64 (add_u64 m.used_storage_bytes (length xs)) (length ys)) m.max_storage_bytes
        ≡ true
      → to_base58 x.hashes (hash x.hashes ys) ≢ to_base58 x.hashes (hash x.hashes xs)
      → ltb_ℤ expires later ≡ false
      → let r = store_fragment x a owner xs expires now (healthy m files) in
        let s = store_fragment x b other ys expires' now' r.1 in
        (r.0 ≡ ok (new_fragment x a owner xs expires now (path_of p a)))
        × (s.0 ≡ ok (new_fragment x b other ys expires' now' (path_of q b)))
        × ((retrieve_fragment x a later s.1).0
            ≡ err (protocol (text "Fragment integrity check failed")))
  store_fragment-overwrites m files later fits fits' differ valid =
      let f = new_fragment x a owner xs expires now (path_of p a) in
      let g = new_fragment x b other ys expires' now' (path_of q b) in
      let (c, written) = json (insert a f m.fragment_index) in
      let m' = record_fragment f m in
      let files' = stored_files x f xs c files in
      let (d, written') = json (insert b g m'.fragment_index) in
      let e = store_fragment-eq x a owner xs expires now m files fits p long c written in
      let e' = store_fragment-eq x b other ys expires' now' m' files' fits' q long' d written' in
      let file = x.file_of (path_of q b) in
      let listed : lookup a (insert b g m'.fragment_index) ≡ some f =
        lookup-insert b a g m'.fragment_index
        ∙ rw (str_eq_ne b a (λ same. apart (sym same)))
            (lookup-insert a a f m.fragment_index ∙ rw (str_eq_refl a)) in
      let filed : lookup file (stored_files x g ys d files') ≡ some ys =
        lookup-insert (x.file_of index_path) file d (insert file ys files')
        ∙ rw (str_eq_ne (x.file_of index_path) file (λ same. not_index (sym same)))
            (lookup-insert file file ys files' ∙ rw (str_eq_refl file)) in
      let hashes = str_eq_ne _ _ differ in
      rw (e, e')
        (
          refl,
          refl,
          retrieve_fragment-mismatch x a (record_fragment g m') (stored_files x g ys d files') f ys
              later listed valid
              (ap (λ t. lookup t (stored_files x g ys d files')) one_file ∙ filed) hashes,
        )
