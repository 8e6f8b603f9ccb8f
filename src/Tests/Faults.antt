-- ===== src/Tests/Faults.antt =====
-- storage_protocol.rs: a disk with faults at concrete inputs.
use libre_drive.Prelude.{◌≡◌, refl, false, some, List, [], ◌∷◌, length, ◌⊎◌, ◌≤◌, arith}
use libre_drive.Prelude.Result.{ok}
use libre_drive.Prelude.Text.{Bytes, text, str_eq}
use libre_drive.Prelude.Int.{ℤ, pos, ltb_ℤ}
use libre_drive.Prelude.Dict.{Dict, lookup, insert, remove, IsMap, total}
use libre_drive.Crypto.Hashing.{hash, to_base58}
use libre_drive.P2p.Disk.{
  Disk, works, fails, create_dir_all, write, read, failure, no_such_file, lies, exists,
}
use libre_drive.P2p.StorageManager.Fragment.{
  first_two, path_of, index_path, StoredFragment, path_of-ne-index,
}
use libre_drive.P2p.StorageManager.Actions.{◌>>=◌, Node}
use libre_drive.P2p.StorageManager.{
  new, initialize, save_index, store_fragment, delete_fragment, retrieve_fragment, install_index,
}
use libre_drive.P2p.StorageManager.Calls.{Call, store, perform, run, retrieve, delete, cleanup}
use libre_drive.P2p.StorageManager.Retrieval.{healthy}
use libre_drive.P2p.StorageManager.Genuine.{WasStored, retrieve_fragment-genuine}
use libre_drive.P2p.StorageManager.Dangling.{failing, delete_fragment-dangling}
use libre_drive.Tests.Parts.{plain_hashes-IsHashLib}
use libre_drive.Tests.Numbers.{number_crates, writes_numbers, put_index, reads_numbers}
use libre_drive.P2p.StorageManager.Sound.{indexed_bytes}
use libre_drive.P2p.StorageManager.Invariant.{run-within-offer}
use libre_drive.Tests.Node.{plain_crates, a_fragment, one_fragment, abc_known}

-- The data are not what is written, the index cannot be written, and the file is not what is read.
abbrev faulty : Disk
faulty = record {
  files = [];
  faults = works ∷ lies (text "junk") ∷ fails (text "full") ∷ lies (text "hello") ∷ [];
}

abbrev one_store : List Call
one_store = store (text "abc") (text "alice") (text "hello") (pos 100) (pos 10) ∷ []

abbrev faulty_node : Node
faulty_node = record { manager = new 100; disk = faulty }

given_out :
    (retrieve_fragment plain_crates
      (text "abc")
      (pos 20)
      (run plain_crates faulty_node one_store)).0
    ≡ ok (text "hello")
unfolding run perform store_fragment save_index retrieve_fragment ◌>>=◌ create_dir_all write read
    insert lookup str_eq first_two hash to_base58
given_out = refl

retrieve_fragment-genuine_example :
    ((xs : Bytes) × WasStored (text "abc") xs one_store
      × (hash plain_crates.hashes (text "hello") ≡ hash plain_crates.hashes xs))
    ⊎ ((g : StoredFragment) × (lookup (text "abc") faulty_node.fragment_index ≡ some g)
        × (to_base58 plain_crates.hashes (hash plain_crates.hashes (text "hello"))
            ≡ g.content_hash))
retrieve_fragment-genuine_example =
    retrieve_fragment-genuine plain_crates plain_hashes-IsHashLib faulty_node one_store (text "abc")
      (pos 20) (text "hello") given_out

abbrev saved_index : Bytes
saved_index = length one_fragment.fragment_index ∷ put_index one_fragment.fragment_index

abbrev two_files : Dict Bytes
two_files = (path_of (text "ab") (text "abc"), text "hello") ∷ (index_path, saved_index) ∷ []

fragment_there : lookup (path_of (text "ab") (text "abc")) two_files ≡ some (text "hello")
unfolding lookup str_eq
fragment_there = refl

index_there : lookup index_path two_files ≡ some saved_index
unfolding lookup str_eq
index_there = refl

-- A node is started on them, and the second call of the disk after that fails.
abbrev begun : Node
begun = record {
  manager = new 100;
  disk = record { files = two_files; faults = works ∷ works ∷ works ∷ fails (text "full") ∷ [] };
}

initialize-begun : initialize number_crates begun ≡ (
  ok tt,
  record {
    manager = install_index one_fragment.fragment_index (new 100);
    disk = record { files = two_files; faults = works ∷ fails (text "full") ∷ [] };
  },
)
unfolding initialize ◌>>=◌ read create_dir_all exists
initialize-begun = rw (index_there, exists, index_there, reads_numbers one_fragment.fragment_index)

abbrev history : List Call
history =
    store (text "abd") (text "alice") (text "hello!") (pos 100) (pos 10)
    ∷ retrieve (text "abc") (pos 20)
    ∷ store (text "abc") (text "alice") (text "hello!") (pos 100) (pos 30)
    ∷ cleanup (pos 200)
    ∷ delete (text "abc")
    ∷ []

begun_index : IsMap (initialize number_crates begun).1.fragment_index
unfolding lookup
begun_index = rw initialize-begun (refl, tt)

begun_within : indexed_bytes (initialize number_crates begun).1.manager ≤ 100
unfolding total
begun_within = rw initialize-begun (omega arith)

run-within-offer_example :
    let m = (run number_crates (initialize number_crates begun).1 history).manager in
    IsMap m.fragment_index × (indexed_bytes m ≤ m.used_storage_bytes) × (m.used_storage_bytes ≤ 100)
run-within-offer_example =
    run-within-offer number_crates 100 begun.disk history (omega arith)
      (omega arith, (tt, (omega arith, (tt, (tt, tt))))) begun_index begun_within

delete_fragment-dangling_example :
    let r =
      delete_fragment number_crates
        (text "abc")
        (record { manager = one_fragment; disk = failing two_files (text "full") }) in
    let s = initialize number_crates (healthy (new 100) r.1.disk.files) in
    (r.0 ≡ failure (text "Failed to write index") (text "full"))
    × (s.0 ≡ ok tt)
    × (lookup (text "abc") s.1.fragment_index ≡ some a_fragment)
    × ((later : ℤ)
        → ltb_ℤ (pos 100) later ≡ false
        → (retrieve_fragment number_crates (text "abc") later s.1).0
          ≡ failure (text "Failed to read fragment") no_such_file)
delete_fragment-dangling_example =
    delete_fragment-dangling number_crates (text "abc") one_fragment two_files a_fragment
      (text "full") (writes_numbers (remove (text "abc") one_fragment.fragment_index)).0
      (writes_numbers (remove (text "abc") one_fragment.fragment_index)).1 abc_known (text "hello")
      fragment_there saved_index one_fragment.fragment_index 100
      (path_of-ne-index (text "ab") (text "abc")) index_there
      (reads_numbers one_fragment.fragment_index) abc_known
