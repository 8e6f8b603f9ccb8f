-- ===== src/P2p/StorageManager/Outcomes.antt =====
-- storage_protocol.rs: what a call comes to on a disk that works, and a deletion.
use libre_drive.P2p.StorageManager.Names.{Works}
use libre_drive.Prelude.{
  ℕ, ◌^◌, ◌≤◌, ◌<◌, length, ◌≡◌, refl, subst, inl, inr, Option, none, some, arith, Bool-cases,
  Option-cases,
}
use libre_drive.Prelude.Result.{Result, ok}
use libre_drive.Prelude.Text.{Bytes, Str, str_eq, str_eq_iff}
use libre_drive.Prelude.Dict.{Dict, lookup, insert, remove, length-remove}
use libre_drive.P2p.{P2pError}
use libre_drive.P2p.StorageManager.Fragment.{StoredFragment, index_path}
use libre_drive.P2p.StorageManager.Actions.{StorageManager, Node, ◌>>=◌}
use libre_drive.P2p.StorageManager.{Crates, forget, release, delete_found, delete_fragment}
use libre_drive.P2p.StorageManager.Retrieval.{healthy, removed_file, delete_fragment-eq}
use libre_drive.P2p.StorageManager.Restored.{
  ReadsBack, Recoverable, view-Recoverable, written-Recoverable,
}
use libre_drive.P2p.StorageManager.View.{Entry, View, update}
use libre_drive.P2p.StorageManager.Implements.{
  Matches, Implements, delete-Implements, view-Implements,
}

pub unshown :
    (x : Crates) (files : Dict Bytes) (id : Str) (o : Option StoredFragment) (e : Option Entry)
    → o ≡ none
    → Matches x files id o e
    → e ≡ none
unshown x files id none none eq k = refl
unshown x files id (some f) e eq k = absurd (ground arith)
unshown x files id none (some e) eq k = absurd k

-- Updating an id to what it has changes nothing.
pub update_same :
    (id : Str) (v : View) (o : Option Entry) → v id ≡ o → (j : Str) → v j ≡ update id o v j
update_same id v o at j = elim (Bool-cases (str_eq id j)) [
  | inl same ↦ rw same (subst (λ k. v k ≡ o) ((str_eq_iff id j).0 same) at)
  | inr other ↦ rw other
]

module _ (x : Crates) (laws : Works x) where
  -- A call on a disk that works, with certain files and a view before it: the outcome; a state that
  -- implements the view after it, with at most `n` entries; and, if JSON reads back what it wrote and
  -- `n` is below 2^32, the files are worth the view after it to a node that starts on them if they were
  -- worth the view before it.
  pub record Ends (n : ℕ) (old : Dict Bytes) (w : View) {A : Type 0} (r : Result P2pError A × Node)
      (q : Result P2pError A) (v : View) : Type 0 where
    pub manager : StorageManager
    pub files : Dict Bytes
    pub outcome : r ≡ (q, healthy manager files)
    pub implemented : Implements x manager files v
    pub within : length manager.fragment_index ≤ n
    pub recovers : ReadsBack x → n < 2 ^ 32 → Recoverable x old w → Recoverable x files v

  gone :
      (m : StorageManager) (files : Dict Bytes) (v : View)
      → Implements x m files v
      → (id : Str) → lookup id m.fragment_index ≡ none
      → (j : Str) → v j ≡ update id none v j
  gone m files v h id absent = update_same id v none (unshown x files id _ _ absent (h.matches id))

  pub delete-Ends :
      (id : Str) (m : StorageManager) (files : Dict Bytes) (v : View)
      → Implements x m files v
      → Ends
          (length m.fragment_index)
          files
          v
          (delete_fragment x id (healthy m files))
          (ok tt)
          (update id none v)
  unfolding delete_fragment delete_found ◌>>=◌
  delete-Ends id m files v h = elim (Option-cases (lookup id m.fragment_index)) [
    | inl absent ↦ record {
      manager = m;
      files = files;
      outcome = rw absent;
      implemented = view-Implements x m files v (update id none v) (gone m files v h id absent) h;
      within = omega arith;
      recovers =
          λ reads small. view-Recoverable x files v (update id none v) (gone m files v h id absent);
    }
    | inr (f, there) ↦
        let (b, written) = laws.written (remove id m.fragment_index) in
        record {
          manager = release f.size_bytes (forget id m);
          files = insert (x.file_of index_path) b (removed_file (x.file_of f.local_path) files);
          outcome = delete_fragment-eq x id m files f b there written;
          implemented = after f b there;
          within = length-remove id m.fragment_index;
          recovers = λ reads small old.
              written-Recoverable x (release f.size_bytes (forget id m))
                (removed_file (x.file_of f.local_path) files) (update id none v) b reads written
                (after f b there);
        }
  ]
    where
      after :
          (f : StoredFragment) (b : Bytes)
          → lookup id m.fragment_index ≡ some f
          → Implements x
              (release f.size_bytes (forget id m))
              (insert (x.file_of index_path) b (removed_file (x.file_of f.local_path) files))
              (update id none v)
      after f b there = delete-Implements x laws m files v h id f b there
