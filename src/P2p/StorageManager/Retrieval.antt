-- ===== src/P2p/StorageManager/Retrieval.antt =====
-- storage_protocol.rs: storing and deleting on a disk that works.
use libre_drive.Prelude.{
  ◌≡◌, sym, ◌∙◌, ◌≢◌, inl, inr, true, false, none, some, [], leb, Bool-cases, Option-cases, length,
}
use libre_drive.Prelude.Result.{ok}
use libre_drive.Prelude.Text.{Bytes, Str, str_eq, str_eq_iff}
use libre_drive.Prelude.Word.{add_u64}
use libre_drive.Prelude.Int.{ℤ}
use libre_drive.Prelude.Dict.{Dict, lookup, insert, remove, lookup-insert}
use libre_drive.P2p.Disk.{create_dir_all, write, exists, remove_file}
use libre_drive.P2p.StorageManager.Fragment.{StoredFragment, first_two, path_of, index_path}
use libre_drive.P2p.StorageManager.Actions.{StorageManager, Node, ◌>>=◌}
use libre_drive.P2p.StorageManager.{
  Crates, save_index, new_fragment, record_fragment, store_fragment, forget, release,
  remove_existing, delete_found, delete_fragment,
}

pub str_eq_ne : (a b : Str) → a ≢ b → str_eq a b ≡ false
str_eq_ne a b ne = elim (Bool-cases (str_eq a b)) [
  | inl same ↦ absurd (ne ((str_eq_iff a b).0 same))
  | inr other ↦ other
]

-- A node with a disk on which every call works.
abbrev pub healthy : StorageManager → Dict Bytes → Node
healthy m files = record { manager = m; disk = record { files = files; faults = [] } }

-- The files after a fragment has been stored, given the index as JSON.
abbrev pub stored_files : Crates → StoredFragment → Bytes → Bytes → Dict Bytes → Dict Bytes
stored_files x f xs json files =
    insert (x.file_of index_path) json (insert (x.file_of f.local_path) xs files)

module _ (x : Crates) (id owner : Str) (xs : Bytes) (expires now : ℤ) (m : StorageManager)
    (files : Dict Bytes)
    (fits : leb (add_u64 m.used_storage_bytes (length xs)) m.max_storage_bytes ≡ true)
    (prefix : Str) (long : first_two id ≡ some prefix) where
  abbrev pub stored : StoredFragment
  stored = new_fragment x id owner xs expires now (path_of prefix id)

  pub store_fragment-eq :
      (json : Bytes)
      → x.to_json (insert id stored m.fragment_index) ≡ ok json
      → store_fragment x id owner xs expires now (healthy m files)
        ≡ (ok stored, healthy (record_fragment stored m) (stored_files x stored xs json files))
  unfolding store_fragment save_index ◌>>=◌ create_dir_all write
  store_fragment-eq json written = rw (fits, long, written)

-- The bytes of the file at a path are gone, if it was there.
abbrev pub removed_file : Str → Dict Bytes → Dict Bytes
removed_file path files = elim (lookup path files) [ none ↦ files | some xs ↦ remove path files ]

remove_existing-eq :
    (path : Str) (files : Dict Bytes)
    → remove_existing path (record { files = files; faults = [] })
      ≡ (ok tt, record { files = removed_file path files; faults = [] })
unfolding remove_existing exists remove_file
remove_existing-eq path files = elim (Option-cases (lookup path files)) [
  | inl e ↦ rw (e, exists, removed_file)
  | inr (xs, e) ↦ rw (e, exists, removed_file)
]

-- On a disk that works, `delete_fragment` removes the entry and the file and frees the space.
pub delete_fragment-eq :
    (x : Crates) (id : Str) (m : StorageManager) (files : Dict Bytes) (f : StoredFragment)
    (json : Bytes)
    → lookup id m.fragment_index ≡ some f
    → x.to_json (remove id m.fragment_index) ≡ ok json
    → delete_fragment x id (healthy m files) ≡ (
      ok tt,
      healthy
          (release f.size_bytes (forget id m))
          (insert (x.file_of index_path) json (removed_file (x.file_of f.local_path) files)),
    )
unfolding delete_fragment delete_found save_index ◌>>=◌ write
delete_fragment-eq x id m files f json there written =
    rw (there, remove_existing-eq (x.file_of f.local_path) files, written)

-- Files written under other names do not change what is read.
pub lookup-stored_files :
    (x : Crates) (path : Str) (f : StoredFragment) (xs b : Bytes) (files : Dict Bytes)
    → path ≢ x.file_of index_path
    → x.file_of f.local_path ≢ path
    → lookup path (stored_files x f xs b files) ≡ lookup path files
lookup-stored_files x path f xs b files index other =
    lookup-insert (x.file_of index_path) path b (insert (x.file_of f.local_path) xs files)
    ∙ rw (str_eq_ne (x.file_of index_path) path (λ e. index (sym e))) (
        lookup-insert (x.file_of f.local_path) path xs files
        ∙ rw (str_eq_ne (x.file_of f.local_path) path other))
