-- ===== src/P2p/StorageManager/Accounting.antt =====
-- storage_protocol.rs: how far `used_storage_bytes` and the index drift apart, and what a restart makes
-- of both.
use libre_drive.Prelude.{
  ℕ, ◌+◌, ◌%◌, ◌<◌, ◌≡◌, refl, ap, ◌∙◌, true, none, some, List, [], ◌∷◌, arith, leb, length,
}
use libre_drive.Prelude.Result.{ok}
use libre_drive.Prelude.Text.{Bytes, Str, text, str_eq_refl}
use libre_drive.Prelude.Word.{u64_mod, add_u64, add_u64-eq}
use libre_drive.Prelude.Int.{ℤ, i64_half}
use libre_drive.Prelude.Dict.{
  Dict, lookup, insert, remove, weight, lookup-insert, lookup-remove, total-insert, total-remove,
}
use libre_drive.P2p.Disk.{
  Disk, Fault, fails, create_dir_all, write, read, exists, remove_file, failure,
}
use libre_drive.P2p.StorageManager.Fragment.{StoredFragment, first_two, index_path}
use libre_drive.P2p.StorageManager.Actions.{StorageManager, Node, ◌>>=◌}
use libre_drive.P2p.StorageManager.{
  Crates, new, install_index, initialize, save_index, record_fragment, store_fragment, forget,
  remove_existing, delete_found, delete_fragment,
}
use libre_drive.P2p.StorageManager.Sound.{indexed_bytes, IsSound}
use libre_drive.P2p.StorageManager.Retrieval.{
  healthy, stored, stored_files, store_fragment-eq, delete_fragment-eq,
}

module _ (x : Crates)
    (json : (index : Dict StoredFragment) → (b : Bytes) × (x.to_json index ≡ ok b)) {offer : ℕ}
    (m : StorageManager) (sound : IsSound offer m) (files : Dict Bytes) (id : Str) where
  -- On a disk that works, for a sound manager with space for the data: `store_fragment` charges the
  -- whole new fragment even where it replaces one with the same id, so the bytes that are charged but
  -- not in the index grow by the size of the replaced fragment (and stay where the id is new).
  pub store_fragment-drift :
      (owner : Str) (xs : Bytes) (expires now : ℤ) (prefix : Str)
      → leb (add_u64 m.used_storage_bytes (length xs)) m.max_storage_bytes ≡ true
      → first_two id ≡ some prefix
      → length xs < i64_half
      → (f : StoredFragment) × (n : Node) × (store_fragment x id owner xs expires now
            (healthy m files)
          ≡ (ok f, n))
        × (n.used_storage_bytes ≡ m.used_storage_bytes + length xs)
        × (n.used_storage_bytes + indexed_bytes m
            ≡ m.used_storage_bytes
              + indexed_bytes n.manager
              + weight (λ g. g.size_bytes) (lookup id m.fragment_index))
  store_fragment-drift owner xs expires now prefix fits long small =
      let f = stored x id owner xs expires now m files fits prefix long in
      let (b, written) = json (insert id f m.fragment_index) in
      let o = sound.offered in
      let c = sound.bounded in
      let sum = add_u64-eq m.used_storage_bytes (length xs) (omega arith) in
      let t = total-insert (λ (g : StoredFragment). g.size_bytes) id f m.fragment_index in
      (
        f,
        healthy (record_fragment f m) (stored_files x f xs b files),
        store_fragment-eq x id owner xs expires now m files fits prefix long b written,
        sum,
        omega arith,
      )

  -- On a disk that works, `delete_fragment` of an id in the index frees its size, and charges exactly
  -- as much less as the index holds less.
  pub delete_fragment-drift :
      (f : StoredFragment)
      → lookup id m.fragment_index ≡ some f
      → (n : Node) × (delete_fragment x id (healthy m files) ≡ (ok tt, n))
        × (lookup id n.fragment_index ≡ none)
        × (n.used_storage_bytes + f.size_bytes ≡ m.used_storage_bytes)
        × (indexed_bytes n.manager + f.size_bytes ≡ indexed_bytes m)
  delete_fragment-drift f there =
      let (b, written) = json (remove id m.fragment_index) in
      let a = sound.accounted in
      let t =
        total-remove (λ (g : StoredFragment). g.size_bytes) id m.fragment_index sound.unique in
      let w : weight (λ (g : StoredFragment). g.size_bytes) (lookup id m.fragment_index)
          ≡ f.size_bytes =
        rw there in
      (
        _,
        delete_fragment-eq x id m files f b there written,
        (lookup-remove id id m.fragment_index ∙ rw (str_eq_refl id)),
        omega arith,
        omega arith,
      )

  -- Where the file of a fragment is there and cannot be removed, `delete_fragment` fails, but the
  -- fragment is gone from the index while its bytes stay charged.
  pub delete_fragment-leaks :
      (f : StoredFragment) (content : Bytes) (message : Str) (later : List Fault)
      → lookup id m.fragment_index ≡ some f
      → lookup (x.file_of f.local_path) files ≡ some content
      → (n : Node) × (delete_fragment x id (record {
        manager = m;
        disk = record { files = files; faults = fails message ∷ later };
      })
          ≡ (failure (text "Failed to delete fragment") message, n))
        × (lookup id n.fragment_index ≡ none)
        × (n.used_storage_bytes ≡ m.used_storage_bytes)
        × (indexed_bytes n.manager + f.size_bytes ≡ indexed_bytes m)
  unfolding delete_fragment delete_found ◌>>=◌ remove_existing exists remove_file
  delete_fragment-leaks f content message later there file =
      let t =
        total-remove (λ (g : StoredFragment). g.size_bytes) id m.fragment_index sound.unique in
      let w : weight (λ (g : StoredFragment). g.size_bytes) (lookup id m.fragment_index)
          ≡ f.size_bytes =
        rw there in
      (
        record { manager = forget id m; disk = record { files = files; faults = later } },
        rw (there, file, exists),
        (lookup-remove id id m.fragment_index ∙ rw (str_eq_refl id)),
        refl,
        omega arith,
      )

module _ (x : Crates) (m : StorageManager) (files : Dict Bytes) (b : Bytes)
    (written : x.to_json m.fragment_index ≡ ok b) (back : x.from_json b ≡ ok m.fragment_index) where
  -- On a disk that works, where JSON can write the index and reads back what it wrote: what
  -- `save_index` wrote, `initialize` of a new node reads back, and it charges exactly the fragments in
  -- the index (as a `u64`).
  pub initialize-save_index :
      (offer : ℕ)
      → (disk : Disk) × (save_index x (healthy m files)
          ≡ (ok tt, record { manager = m; disk = disk }))
        × ((initialize x (record { manager = new offer; disk = disk })).0 ≡ ok tt)
        × (let n = (initialize x (record { manager = new offer; disk = disk })).1 in
            (n.fragment_index ≡ m.fragment_index)
            × (n.used_storage_bytes ≡ indexed_bytes m % u64_mod)
            × (n.max_storage_bytes ≡ offer))
  unfolding save_index initialize ◌>>=◌ write read create_dir_all exists
  initialize-save_index offer =
      let there : lookup (x.file_of index_path) (insert (x.file_of index_path) b files) ≡ some b =
        lookup-insert (x.file_of index_path) (x.file_of index_path) b files
        ∙ rw (str_eq_refl (x.file_of index_path)) in
      (
        record { files = insert (x.file_of index_path) b files; faults = [] },
        rw written,
        ap (λ r. r.0) (started there),
        (
          ap (λ r. r.1.fragment_index) (started there),
          ap (λ r. r.1.used_storage_bytes) (started there),
          ap (λ r. r.1.max_storage_bytes) (started there),
        ),
      )
    where
      started :
          lookup (x.file_of index_path) (insert (x.file_of index_path) b files) ≡ some b
          → initialize x (record {
            manager = new offer;
            disk = record { files = insert (x.file_of index_path) b files; faults = [] };
          })
            ≡ (
              ok tt,
              record {
                manager = install_index m.fragment_index (new offer);
                disk = record { files = insert (x.file_of index_path) b files; faults = [] };
              },
            )
      started there = rw (there, exists, there, back)
