-- ===== src/P2p/StorageManager/Dangling.antt =====
-- storage_protocol.rs: a deletion whose index cannot be written, and a restart after it.
use libre_drive.Prelude.{ℕ, ◌≡◌, refl, ◌∙◌, false, none, some, [], ◌∷◌, ◌≢◌}
use libre_drive.Prelude.Result.{ok}
use libre_drive.Prelude.Text.{Bytes, Str, text, str_eq_refl}
use libre_drive.Prelude.Int.{ℤ, ltb_ℤ}
use libre_drive.Prelude.Dict.{Dict, lookup, remove, lookup-remove}
use libre_drive.P2p.Disk.{
  Disk, works, fails, write, read, exists, remove_file, failure, no_such_file,
}
use libre_drive.P2p.StorageManager.Fragment.{StoredFragment, index_path}
use libre_drive.P2p.StorageManager.Actions.{StorageManager, ◌>>=◌}
use libre_drive.P2p.StorageManager.{
  Crates, new, install_index, initialize, save_index, forget, release, remove_existing,
  delete_found, delete_fragment, retrieve_fragment,
}
use libre_drive.P2p.StorageManager.Retrieval.{healthy, str_eq_ne}
use libre_drive.P2p.StorageManager.Restored.{started}

-- A disk that removes the file and then cannot write the index.
abbrev pub failing : Dict Bytes → Str → Disk
failing files message = record { files = files; faults = works ∷ fails message ∷ [] }

module _ (x : Crates) (id : Str) (m : StorageManager) (files : Dict Bytes) (f : StoredFragment)
    (message : Str) (b : Bytes) (written : x.to_json (remove id m.fragment_index) ≡ ok b)
    (known : lookup id m.fragment_index ≡ some f) (xs : Bytes)
    (filed : lookup (x.file_of f.local_path) files ≡ some xs) where
  delete_fragment-failing :
      delete_fragment x id (record { manager = m; disk = failing files message }) ≡ (
        failure (text "Failed to write index") message,
        healthy (release f.size_bytes (forget id m)) (remove (x.file_of f.local_path) files),
      )
  unfolding delete_fragment delete_found remove_existing exists remove_file save_index write ◌>>=◌
  delete_fragment-failing = rw (known, filed, exists, written)

  gone : lookup (x.file_of f.local_path) (remove (x.file_of f.local_path) files) ≡ none
  gone =
      lookup-remove (x.file_of f.local_path) (x.file_of f.local_path) files
      ∙ rw (str_eq_refl (x.file_of f.local_path))

  retrieve_fragment-gone :
      (n : StorageManager) (later : ℤ)
      → lookup id n.fragment_index ≡ some f
      → ltb_ℤ f.expires_at later ≡ false
      → (retrieve_fragment x id later (healthy n (remove (x.file_of f.local_path) files))).0
        ≡ failure (text "Failed to read fragment") no_such_file
  unfolding retrieve_fragment ◌>>=◌ read
  retrieve_fragment-gone n later listed valid = rw (listed, valid, gone)

  -- Where the disk removes the file and then fails to write the index, `delete_fragment` of a known
  -- fragment, whose file is there and is not the index, returns the error. If the index on the disk has the fragment, a node
  -- that is then started on the files, on a disk that works, starts without an error and lists the
  -- fragment, but it answers every request for it until its expiration with an error.
  pub delete_fragment-dangling :
      (saved : Bytes) (back : Dict StoredFragment) (offer : ℕ)
      → x.file_of f.local_path ≢ x.file_of index_path
      → lookup (x.file_of index_path) files ≡ some saved
      → x.from_json saved ≡ ok back
      → lookup id back ≡ some f
      → let r = delete_fragment x id (record { manager = m; disk = failing files message }) in
        let s = initialize x (healthy (new offer) r.1.disk.files) in
        (r.0 ≡ failure (text "Failed to write index") message)
        × (s.0 ≡ ok tt)
        × (lookup id s.1.fragment_index ≡ some f)
        × ((later : ℤ)
            → ltb_ℤ f.expires_at later ≡ false
            → (retrieve_fragment x id later s.1).0
              ≡ failure (text "Failed to read fragment") no_such_file)
  delete_fragment-dangling saved back offer apart at parsed listed =
      let e = delete_fragment-failing in
      let other = str_eq_ne (x.file_of f.local_path) (x.file_of index_path) apart in
      let there : lookup (x.file_of index_path) (remove (x.file_of f.local_path) files)
          ≡ some saved =
        lookup-remove (x.file_of f.local_path) (x.file_of index_path) files ∙ rw other at in
      let t = started x offer (remove (x.file_of f.local_path) files) saved back there parsed in
      rw (e, t)
        (
          refl,
          refl,
          listed,
          λ later valid. retrieve_fragment-gone (install_index back (new offer)) later listed valid,
        )
