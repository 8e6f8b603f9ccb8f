-- ===== src/Tests/Node.antt =====
-- storage_protocol.rs at concrete inputs.
use libre_drive.Prelude.{
  ◌+◌, ◌≡◌, refl, none, some, List, [], ◌∷◌, ◌++◌, arith, take, replicate, true,
}
use libre_drive.Prelude.Result.{ok, err}
use libre_drive.Prelude.Text.{Bytes, text, str_eq}
use libre_drive.Prelude.Int.{pos}
use libre_drive.Prelude.Dict.{Dict, lookup, total, weight}
use libre_drive.P2p.Disk.{fails, failure}
use libre_drive.P2p.StorageManager.Actions.{StorageManager, Node}
use libre_drive.P2p.StorageManager.{Crates, store_fragment, delete_fragment}
use libre_drive.P2p.StorageManager.Fragment.{
  StoredFragment, first_two, path_of, path_of-ne-index, is_plain,
}
use libre_drive.P2p.StorageManager.Names.{Works}
use libre_drive.P2p.StorageManager.Calls.{Call, store, retrieve, delete, cleanup}
use libre_drive.P2p.StorageManager.Sound.{IsSound, indexed_bytes}
use libre_drive.P2p.StorageManager.Retrieval.{healthy}
use libre_drive.P2p.StorageManager.Accounting.{store_fragment-drift, delete_fragment-leaks}
use libre_drive.Tests.Parts.{plain_hashes}

abbrev pub plain_crates : Crates
plain_crates = record {
  file_of = λ path. path;
  hashes = plain_hashes;
  to_json = λ index. ok (text "{}");
  from_json = λ b. err (text "not an index");
}

pub writes : (index : Dict StoredFragment) → (b : Bytes) × (plain_crates.to_json index ≡ ok b)
writes index = (text "{}", refl)

pub plain_crates-Works : Works plain_crates
plain_crates-Works = record {
  written = writes;
  apart = λ p q a b long long' plain plain' e. e;
  index_apart = λ p a long plain. path_of-ne-index p a;
}

abbrev pub a_fragment : StoredFragment
a_fragment = record {
  fragment_id = text "abc";
  owner_id = text "alice";
  size_bytes = 5;
  content_hash = take 32 (text "hello" ++ replicate 32 48);
  created_at = pos 10;
  expires_at = pos 100;
  local_path = path_of (text "ab") (text "abc");
  access_count = 0;
  last_accessed = pos 10;
}

abbrev pub one_fragment : StorageManager
one_fragment = record {
  max_storage_bytes = 100;
  used_storage_bytes = 5;
  fragment_index = (text "abc", a_fragment) ∷ [];
}

one_fragment-IsSound : IsSound 100 one_fragment
unfolding lookup total
one_fragment-IsSound = record {
  unique = (refl, tt);
  accounted = omega arith;
  bounded = omega arith;
  kept = refl;
  offered = omega arith;
}

abbrev one_file : Dict Bytes
one_file = (path_of (text "ab") (text "abc"), text "hello") ∷ []

pub abc_prefix : first_two (text "abc") ≡ some (text "ab")
unfolding first_two
abc_prefix = refl

pub abc_plain : is_plain (text "abc") ≡ true
unfolding is_plain
abc_plain = refl

pub abc_known : lookup (text "abc") one_fragment.fragment_index ≡ some a_fragment
unfolding lookup str_eq
abc_known = refl

abc_file : lookup (path_of (text "ab") (text "abc")) one_file ≡ some (text "hello")
unfolding lookup str_eq
abc_file = refl

abbrev history : List Call
history =
    store (text "abc") (text "alice") (text "hello") (pos 100) (pos 10)
    ∷ retrieve (text "abc") (pos 20)
    ∷ store (text "abc") (text "alice") (text "hello!") (pos 100) (pos 30)
    ∷ cleanup (pos 200)
    ∷ delete (text "abc")
    ∷ []

store_fragment-drift_example :
    (f : StoredFragment) × (n : Node) × (store_fragment plain_crates
        (text "abc")
        (text "alice")
        (text "hello!")
        (pos 90)
        (pos 20)
        (healthy one_fragment one_file)
      ≡ (ok f, n))
    × (n.used_storage_bytes ≡ 11)
    × (n.used_storage_bytes + indexed_bytes one_fragment
        ≡ 5
          + indexed_bytes n.manager
          + weight
              (λ (g : StoredFragment). g.size_bytes)
              (lookup (text "abc") one_fragment.fragment_index))
store_fragment-drift_example =
    store_fragment-drift plain_crates writes one_fragment one_fragment-IsSound one_file (text "abc")
      (text "alice") (text "hello!") (pos 90) (pos 20) (text "ab") refl abc_prefix (omega arith)

delete_fragment-leaks_example :
    (n : Node) × (delete_fragment plain_crates (text "abc") (record {
      manager = one_fragment;
      disk = record { files = one_file; faults = fails (text "busy") ∷ [] };
    })
      ≡ (failure (text "Failed to delete fragment") (text "busy"), n))
    × (lookup (text "abc") n.fragment_index ≡ none)
    × (n.used_storage_bytes ≡ 5)
    × (indexed_bytes n.manager + 5 ≡ indexed_bytes one_fragment)
delete_fragment-leaks_example =
    delete_fragment-leaks plain_crates writes one_fragment one_fragment-IsSound one_file
      (text "abc") a_fragment (text "hello") (text "busy") [] abc_known abc_file
