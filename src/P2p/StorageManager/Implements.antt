-- ===== src/P2p/StorageManager/Implements.antt =====
-- storage_protocol.rs: when an index and the files on the disk stand for a map of View, and that storing,
-- deleting and changing an entry keep this.
use libre_drive.P2p.StorageManager.Names.{Works}
use libre_drive.Prelude.{
  ◌≡◌, refl, sym, ap, ◌∙◌, subst, ◌≢◌, inl, inr, false, true, Option, none, some, arith,
  if◌then◌else◌, Bool-cases, Option-cases,
}
use libre_drive.Prelude.Text.{Bytes, Str, str_eq, str_eq_iff, str_eq_refl}
use libre_drive.Prelude.Int.{ℤ}
use libre_drive.Prelude.Dict.{
  Dict, lookup, insert, IsMap, lookup-insert, lookup-remove, insert-IsMap, remove-IsMap,
}
use libre_drive.Crypto.Hashing.{hash, to_base58}
use libre_drive.P2p.StorageManager.Fragment.{
  StoredFragment, first_two, path_of, index_path, path_of-injective, is_plain,
}
use libre_drive.P2p.StorageManager.Actions.{StorageManager}
use libre_drive.P2p.StorageManager.{
  Crates, new_fragment, record_fragment, forget, release, put_fragment,
}
use libre_drive.P2p.StorageManager.Retrieval.{
  str_eq_ne, stored_files, removed_file, lookup-stored_files,
}
use libre_drive.P2p.StorageManager.View.{Entry, View, update}

-- An entry of the index and its file show an entry of the map.
pub record Shows (x : Crates) (files : Dict Bytes) (j : Str) (f : StoredFragment) (e : Entry)
    : Type 0 where
  pub owned : f.owner_id ≡ e.owner
  pub expiring : f.expires_at ≡ e.expires
  pub filed : lookup (x.file_of f.local_path) files ≡ some e.contents
  pub hashed : f.content_hash ≡ to_base58 x.hashes (hash x.hashes e.contents)
  pub prefix : Str
  pub long : first_two j ≡ some prefix
  pub placed : f.local_path ≡ path_of prefix j
  pub plain : is_plain j ≡ true

abbrev pub Matches : Crates → Dict Bytes → Str → Option StoredFragment → Option Entry → Type 0
Matches x files j none none = Unit
Matches x files j (some f) (some e) = Shows x files j f e
Matches x files j _ _ = ⊥

pub record Implements (x : Crates) (m : StorageManager) (files : Dict Bytes) (v : View)
    : Type 0 where
  pub unique : IsMap m.fragment_index
  pub matches : (j : Str) → Matches x files j (lookup j m.fragment_index) (v j)

-- A change of the file system that keeps the file of an id.
refile :
    (x : Crates) (files files' : Dict Bytes) (j : Str) (o : Option StoredFragment)
    (e : Option Entry)
    → ((f : StoredFragment)
        → o ≡ some f
        → lookup (x.file_of f.local_path) files' ≡ lookup (x.file_of f.local_path) files)
    → Matches x files j o e
    → Matches x files' j o e
refile x files files' j none none same h = tt
refile x files files' j (some f) (some e) same h = record {
  owned = h.owned;
  expiring = h.expiring;
  filed = same f refl ∙ h.filed;
  hashed = h.hashed;
  prefix = h.prefix;
  long = h.long;
  placed = h.placed;
  plain = h.plain;
}
refile x files files' j none (some e) same h = absurd h
refile x files files' j (some f) none same h = absurd h

-- Where the file of an entry of the index is.
place :
    (x : Crates) (files : Dict Bytes) (j : Str) (o : Option StoredFragment) (e : Option Entry)
    → Matches x files j o e
    → (f : StoredFragment) → o ≡ some f
    → (q : Str) × (first_two j ≡ some q) × (is_plain j ≡ true) × (f.local_path ≡ path_of q j)
place x files j none none h f at = absurd (ground arith)
place x files j (some g) (some e) h f at =
    let same : g ≡ f = ground arith in
    (
      h.prefix,
      h.long,
      h.plain,
      subst (λ (k : StoredFragment). k.local_path ≡ path_of h.prefix j) same h.placed,
    )
place x files j none (some e) h f at = absurd h
place x files j (some g) none h f at = absurd h

-- The file of an entry is not the index.
not_index :
    (x : Crates) (laws : Works x) (files : Dict Bytes) (j : Str) (o : Option StoredFragment)
    (e : Option Entry)
    → Matches x files j o e
    → (f : StoredFragment) → o ≡ some f
    → x.file_of f.local_path ≢ x.file_of index_path
not_index x laws files j o e h f at same =
    let (q, long, plain, placed) = place x files j o e h f at in
    laws.index_apart q j long plain (ap x.file_of (sym placed) ∙ same)

lookup-removed_file :
    (p q : Str) (files : Dict Bytes)
    → str_eq p q ≡ false
    → lookup q (removed_file p files) ≡ lookup q files
lookup-removed_file p q files other = elim (Option-cases (lookup p files)) [
  | inl e ↦ rw (e, removed_file)
  | inr (xs, e) ↦ rw (e, removed_file) (lookup-remove p q files ∙ rw other)
]

module _ (x : Crates) (laws : Works x) (m : StorageManager) (files : Dict Bytes) (v : View)
    (h : Implements x m files v) where
  apart :
      (id prefix j : Str) (f : StoredFragment)
      → first_two id ≡ some prefix
      → is_plain id ≡ true
      → str_eq id j ≡ false
      → lookup j m.fragment_index ≡ some f
      → x.file_of (path_of prefix id) ≢ x.file_of f.local_path
  apart id prefix j f long plain other at e =
      let (q, long', plain', placed) = place x files j _ _ (h.matches j) f at in
      let texts = laws.apart prefix q id j long long' plain plain' (e ∙ ap x.file_of placed) in
      let same = path_of-injective prefix q id j long long' texts in
      absurd (ground (arith, str_eq_iff id j, same))

  -- One id changed on both sides, where the files of the other ids stay.
  at_update :
      (id : Str) (files' : Dict Bytes) (o : Option StoredFragment) (e : Option Entry)
      → Matches x files' id o e
      → ((j : Str) (f : StoredFragment)
          → str_eq id j ≡ false
          → lookup j m.fragment_index ≡ some f
          → lookup (x.file_of f.local_path) files' ≡ lookup (x.file_of f.local_path) files)
      → (j : Str)
      → Matches x files' j (if str_eq id j then o else lookup j m.fragment_index) (update id e v j)
  at_update id files' o e here same j = elim (Bool-cases (str_eq id j)) [
    | inl eq ↦ rw eq (subst (λ k. Matches x files' k o e) ((str_eq_iff id j).0 eq) here)
    | inr other ↦
        rw other (refile x files files' j _ _ (λ f there. same j f other there) (h.matches j))
  ]

  pub store-Implements :
      (id prefix owner : Str) (xs b : Bytes) (expires now : ℤ)
      → first_two id ≡ some prefix
      → is_plain id ≡ true
      → let f = new_fragment x id owner xs expires now (path_of prefix id) in
        Implements x
          (record_fragment f m)
          (stored_files x f xs b files)
          (update id (some (record { owner = owner; contents = xs; expires = expires })) v)
  store-Implements id prefix owner xs b expires now long plain =
      let f = new_fragment x id owner xs expires now (path_of prefix id) in
      let files' = stored_files x f xs b files in
      let file = x.file_of f.local_path in
      let here : Shows x files' id f (record { owner = owner; contents = xs; expires = expires }) =
        record {
          owned = refl;
          expiring = refl;
          filed =
              lookup-insert (x.file_of index_path) file b (insert file xs files)
              ∙ rw
                  (str_eq_ne (x.file_of index_path) file
                    (λ e. laws.index_apart prefix id long plain (sym e)))
                  (lookup-insert file file xs files ∙ rw (str_eq_refl file));
          hashed = refl;
          prefix = prefix;
          long = long;
          placed = refl;
          plain = plain;
        } in
      record {
        unique = insert-IsMap id f m.fragment_index h.unique;
        matches = λ j. rw (lookup-insert id j f m.fragment_index) (
            at_update id files' (some f) _ here
              (λ k g other there.
                lookup-stored_files x (x.file_of g.local_path) f xs b files
                  (not_index x laws files k _ _ (h.matches k) g there)
                  (apart id prefix k g long plain other there))
              j);
      }

  pub delete-Implements :
      (id : Str) (f : StoredFragment) (b : Bytes)
      → lookup id m.fragment_index ≡ some f
      → Implements x
          (release f.size_bytes (forget id m))
          (insert (x.file_of index_path) b (removed_file (x.file_of f.local_path) files))
          (update id none v)
  delete-Implements id f b there =
      let gone = removed_file (x.file_of f.local_path) files in
      let files' = insert (x.file_of index_path) b gone in
      let (p, long, plain, placed) = place x files id _ _ (h.matches id) f there in
      record {
        unique = remove-IsMap id m.fragment_index h.unique;
        matches = λ j. rw (lookup-remove id j m.fragment_index) (
            at_update id files' none none tt
              (λ k g other there'.
                lookup-insert (x.file_of index_path) (x.file_of g.local_path) b gone
                ∙ rw
                    (str_eq_ne (x.file_of index_path) (x.file_of g.local_path)
                      (λ e. not_index x laws files k _ _ (h.matches k) g there' (sym e)))
                    (lookup-removed_file (x.file_of f.local_path) (x.file_of g.local_path) files (
                      str_eq_ne (x.file_of f.local_path) (x.file_of g.local_path) (λ e.
                        apart id p k g long plain other there' (ap x.file_of (sym placed) ∙ e)))))
              j);
      }

  -- An entry that keeps its owner, path and hash, and the index written.
  pub put-Implements :
      (id : Str) (f g : StoredFragment) (e e' : Entry)
      → lookup id m.fragment_index ≡ some f
      → v id ≡ some e
      → ((files' : Dict Bytes) → Shows x files' id f e → Shows x files' id g e')
      → Implements x (put_fragment id g m) files (update id (some e') v)
  put-Implements id f g e e' there shown change =
      let here : Matches x files id (some f) (some e) =
        subst (λ o. Matches x files id o (some e)) there
          (subst (λ o. Matches x files id (lookup id m.fragment_index) o) shown (h.matches id)) in
      record {
        unique = insert-IsMap id g m.fragment_index h.unique;
        matches = λ j. rw (lookup-insert id j g m.fragment_index) (
            at_update id files (some g) (some e') (change files here) (λ k f' other there'. refl)
              j);
      }

-- Writing the index changes no fragment's file.
pub index-Implements :
    (x : Crates) (laws : Works x) (m : StorageManager) (files : Dict Bytes) (v : View) (b : Bytes)
    → Implements x m files v
    → Implements x m (insert (x.file_of index_path) b files) v
index-Implements x laws m files v b h = record {
  unique = h.unique;
  matches = λ j.
      refile x files (insert (x.file_of index_path) b files) j _ _
        (λ f there.
          lookup-insert (x.file_of index_path) (x.file_of f.local_path) b files
          ∙ rw (
              str_eq_ne (x.file_of index_path) (x.file_of f.local_path)
                (λ e. not_index x laws files j _ _ (h.matches j) f there (sym e))))
        (h.matches j);
}

-- Views that agree on every id are implemented alike.
pub view-Implements :
    (x : Crates) (m : StorageManager) (files : Dict Bytes) (v w : View)
    → ((j : Str) → v j ≡ w j)
    → Implements x m files v
    → Implements x m files w
view-Implements x m files v w same h = record {
  unique = h.unique;
  matches =
      λ j. subst (λ e. Matches x files j (lookup j m.fragment_index) e) (same j) (h.matches j);
}
