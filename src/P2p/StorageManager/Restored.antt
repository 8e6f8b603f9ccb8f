-- ===== src/P2p/StorageManager/Restored.antt =====
-- storage_protocol.rs: what the disk is worth to a node that is started on it.
use libre_drive.Prelude.{ℕ, ◌≡◌, refl, sym, ◌∙◌, subst, none, some, []}
use libre_drive.Prelude.Result.{ok}
use libre_drive.Prelude.Text.{Bytes, Str, str_eq_refl}
use libre_drive.Prelude.Dict.{Dict, lookup, insert, IsMap, lookup-insert}
use libre_drive.P2p.Disk.{create_dir_all, read, exists}
use libre_drive.P2p.StorageManager.Fragment.{StoredFragment, index_path}
use libre_drive.P2p.StorageManager.Actions.{StorageManager, ◌>>=◌}
use libre_drive.P2p.StorageManager.{Crates, new, install_index, initialize}
use libre_drive.P2p.StorageManager.Retrieval.{healthy}
use libre_drive.P2p.StorageManager.View.{View}
use libre_drive.P2p.StorageManager.Implements.{Matches, Implements, view-Implements}

-- The JSON of an index is read back as the same map, in whatever order.
abbrev pub ReadsBack : Crates → Type 0
ReadsBack x =
    (index : Dict StoredFragment) (b : Bytes)
    → IsMap index
    → x.to_json index ≡ ok b
    → (back : Dict StoredFragment) × (x.from_json b ≡ ok back)
      × IsMap back
      × ((j : Str) → lookup j back ≡ lookup j index)

-- A node that is started on the files stands for a view.
pub record Restored (x : Crates) (files : Dict Bytes) (v : View) (offer : ℕ) : Type 0 where
  pub manager : StorageManager
  pub outcome : initialize x (healthy (new offer) files) ≡ (ok tt, healthy manager files)
  pub implemented : Implements x manager files v

abbrev pub Recoverable : Crates → Dict Bytes → View → Type 0
Recoverable x files v = (offer : ℕ) → Restored x files v offer

pub view-Recoverable :
    (x : Crates) (files : Dict Bytes) (v w : View)
    → ((j : Str) → v j ≡ w j)
    → Recoverable x files v
    → Recoverable x files w
view-Recoverable x files v w same r offer =
    let k = r offer in
    record {
      manager = k.manager;
      outcome = k.outcome;
      implemented = view-Implements x k.manager files v w same k.implemented;
    }

-- An index with the same entries stands for the same view.
same_index-Implements :
    (x : Crates) (m n : StorageManager) (files : Dict Bytes) (v : View)
    → IsMap n.fragment_index
    → ((j : Str) → lookup j n.fragment_index ≡ lookup j m.fragment_index)
    → Implements x m files v
    → Implements x n files v
same_index-Implements x m n files v unique same h = record {
  unique = unique;
  matches = λ j. subst (λ o. Matches x files j o (v j)) (sym (same j)) (h.matches j);
}

pub started :
    (x : Crates) (offer : ℕ) (files : Dict Bytes) (b : Bytes) (back : Dict StoredFragment)
    → lookup (x.file_of index_path) files ≡ some b
    → x.from_json b ≡ ok back
    → initialize x (healthy (new offer) files)
      ≡ (ok tt, healthy (install_index back (new offer)) files)
unfolding initialize ◌>>=◌ read create_dir_all exists
started x offer files b back there parsed = rw (there, exists, there, parsed)

-- Right after the index was written, the files are worth the view.
pub written-Recoverable :
    (x : Crates) (m : StorageManager) (files : Dict Bytes) (v : View) (b : Bytes)
    → ReadsBack x
    → x.to_json m.fragment_index ≡ ok b
    → Implements x m (insert (x.file_of index_path) b files) v
    → Recoverable x (insert (x.file_of index_path) b files) v
written-Recoverable x m files v b reads written h offer =
    let there =
      lookup-insert (x.file_of index_path) (x.file_of index_path) b files
      ∙ rw (str_eq_refl (x.file_of index_path)) in
    let (back, parsed, unique, same) = reads m.fragment_index b h.unique written in
    record {
      manager = install_index back (new offer);
      outcome = started x offer (insert (x.file_of index_path) b files) b back there parsed;
      implemented =
          same_index-Implements x m (install_index back (new offer))
            (insert (x.file_of index_path) b files) v unique same h;
    }

-- A node that is started on no files stands for the view of no fragments.
pub empty-Recoverable : (x : Crates) (v : View) → ((j : Str) → v j ≡ none) → Recoverable x [] v
unfolding initialize ◌>>=◌ create_dir_all exists lookup
empty-Recoverable x v empty offer = record {
  manager = new offer;
  outcome = refl;
  implemented = record { unique = tt; matches = λ j. rw (empty j) tt };
}
