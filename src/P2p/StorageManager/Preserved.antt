-- ===== src/P2p/StorageManager/Preserved.antt =====
-- storage_protocol.rs: a predicate that each change of a manager keeps is kept by every call, whatever
-- the disk does.
use libre_drive.Prelude.{ℕ, ◌≡◌, refl, true, some, leb, Option, none, List, [], ◌∷◌}
use libre_drive.Prelude.Text.{Str, Bytes}
use libre_drive.Prelude.Word.{add_u64}
use libre_drive.Prelude.Int.{ℤ, add_i64}
use libre_drive.Prelude.Dict.{lookup, map_values}
use libre_drive.P2p.StorageManager.Fragment.{StoredFragment, path_of}
use libre_drive.P2p.StorageManager.Actions.{StorageManager, Node}
use libre_drive.P2p.StorageManager.{
  record_fragment, forget, release, put_fragment, Crates, new, save_index, new_fragment,
  store_fragment, delete_found, delete_fragment, touch, retrieve_fragment, set_expiry, extend_found,
  extend_fragment, renew, days, extend_owner_fragments, delete_all, cleanup_expired,
}
use libre_drive.P2p.StorageManager.Calls.{
  Call, store, retrieve, delete, extend, extend_owner, cleanup, perform,
}
use libre_drive.P2p.StorageManager.Holds.{
  Holds, bind-Holds, lift-Holds, on_disk-Holds, get-Holds, modify-Holds, pure-Holds, io-Holds,
  result-Holds, if-Holds, guard-ok, ok_or-some,
}

-- What a predicate on managers, with one on new fragments, needs so that every call keeps it.
pub record IsPreserved (P : StorageManager → Type 0) (New : StoredFragment → Type 0) : Type 0 where
  pub recorded :
      (f : StoredFragment) (m : StorageManager)
      → P m
      → New f
      → leb (add_u64 m.used_storage_bytes f.size_bytes) m.max_storage_bytes ≡ true
      → P (record_fragment f m)
  pub forgotten : (id : Str) (m : StorageManager) → P m → P (forget id m)
  pub released :
      (id : Str) (f : StoredFragment) (m : StorageManager)
      → P m
      → lookup id m.fragment_index ≡ some f
      → P (release f.size_bytes (forget id m))
  pub changed :
      (id : Str) (f g : StoredFragment) (m : StorageManager)
      → P m
      → lookup id m.fragment_index ≡ some f
      → g.size_bytes ≡ f.size_bytes
      → g.content_hash ≡ f.content_hash
      → P (put_fragment id g m)
  pub renewed :
      (owner : Str) (expires : ℤ) (m : StorageManager)
      → P m
      → P (record m { fragment_index = map_values (renew owner expires) m.fragment_index })

-- The fragments that a call makes satisfy a predicate.
abbrev pub Brings : (StoredFragment → Type 0) → Crates → Call → Type 0
Brings New x (store id owner xs expires now) =
    (path : Str) → New (new_fragment x id owner xs expires now path)
Brings New x _ = Unit

module _ {P : StorageManager → Type 0} {New : StoredFragment → Type 0}
    (kept : IsPreserved P New) where
  pub save_index-Holds : (x : Crates) (s : Node) → P s.manager → Holds P (save_index x s)
  unfolding save_index
  save_index-Holds x s h = get-Holds s _ (lift-Holds _ s _ h (λ index_data _. io-Holds s _ h))

  store_fragment-Holds :
      (x : Crates) (id owner : Str) (xs : Bytes) (expires now : ℤ) (s : Node)
      → ((path : Str) → New (new_fragment x id owner xs expires now path))
      → P s.manager
      → Holds P (store_fragment x id owner xs expires now s)
  unfolding store_fragment
  store_fragment-Holds x id owner xs expires now s small h = get-Holds s _ (
      lift-Holds _ s _ h λ _ fits. lift-Holds _ s _ h λ prefix _. on_disk-Holds _ s _ h λ _ d.
        on_disk-Holds _ _ _ h λ _ d'.
          let f = new_fragment x id owner xs expires now (path_of prefix id) in
          let h' = kept.recorded f s.manager h (small (path_of prefix id)) (guard-ok _ _ fits) in
          modify-Holds _ _ _
            (bind-Holds _ _ _ (save_index-Holds x _ h') (λ _ t k. pure-Holds t _ k)))

  delete_found-Holds :
      (x : Crates) (id : Str) (o : Option StoredFragment) (s : Node)
      → lookup id s.manager.fragment_index ≡ o
      → P s.manager
      → Holds P (delete_found x id o s)
  unfolding delete_found
  delete_found-Holds x id none s e h = pure-Holds s tt h
  delete_found-Holds x id (some f) s e h = modify-Holds s _ _ (
      on_disk-Holds _ _ _ (kept.forgotten id s.manager h)
        λ _ d. modify-Holds _ _ _ (save_index-Holds x _ (kept.released id f s.manager h e)))

  delete_fragment-Holds :
      (x : Crates) (id : Str) (s : Node) → P s.manager → Holds P (delete_fragment x id s)
  unfolding delete_fragment
  delete_fragment-Holds x id s h = get-Holds s _ (delete_found-Holds x id _ s refl h)

  retrieve_fragment-Holds :
      (x : Crates) (id : Str) (now : ℤ) (s : Node)
      → P s.manager
      → Holds P (retrieve_fragment x id now s)
  unfolding retrieve_fragment
  retrieve_fragment-Holds x id now s h = get-Holds s _ (
      lift-Holds _ s _ h λ f there.
        if-Holds s _ _ _
          (bind-Holds _ s _ (delete_fragment-Holds x id s h) (λ _ t k. result-Holds t _ k))
          (let h' =
              kept.changed id f (touch now f) s.manager h (ok_or-some _ _ f there) refl refl in
            modify-Holds s _ _ (on_disk-Holds _ _ _ h' (λ xs d. result-Holds _ _ h'))))

  extend_found-Holds :
      (x : Crates) (id : Str) (expires : ℤ) (o : Option StoredFragment) (s : Node)
      → lookup id s.manager.fragment_index ≡ o
      → P s.manager
      → Holds P (extend_found x id expires o s)
  unfolding extend_found
  extend_found-Holds x id expires none s e h = pure-Holds s tt h
  extend_found-Holds x id expires (some f) s e h =
      modify-Holds s _ _
        (save_index-Holds x _ (kept.changed id f (set_expiry expires f) s.manager h e refl refl))

  extend_fragment-Holds :
      (x : Crates) (id : Str) (expires : ℤ) (s : Node)
      → P s.manager
      → Holds P (extend_fragment x id expires s)
  unfolding extend_fragment
  extend_fragment-Holds x id expires s h =
      get-Holds s _ (extend_found-Holds x id expires _ s refl h)

  extend_owner_fragments-Holds :
      (x : Crates) (owner : Str) (n : ℕ) (now : ℤ) (s : Node)
      → P s.manager
      → Holds P (extend_owner_fragments x owner n now s)
  unfolding extend_owner_fragments
  extend_owner_fragments-Holds x owner n now s h =
      let h' = kept.renewed owner (add_i64 now (days n)) s.manager h in
      get-Holds s _ (
        modify-Holds s _ _ (
          bind-Holds _ _ _ (if-Holds _ _ _ _ (save_index-Holds x _ h') (pure-Holds _ tt h'))
            (λ _ t k. pure-Holds t _ k)))

  delete_all-Holds :
      (x : Crates) (ids : List Str) (s : Node) → P s.manager → Holds P (delete_all x ids s)
  unfolding delete_all
  delete_all-Holds x [] s h = pure-Holds s tt h
  delete_all-Holds x (id ∷ ids) s h =
      bind-Holds _ s _ (delete_fragment-Holds x id s h) (λ _ t k. delete_all-Holds x ids t k)

  cleanup_expired-Holds :
      (x : Crates) (now : ℤ) (s : Node) → P s.manager → Holds P (cleanup_expired x now s)
  unfolding cleanup_expired
  cleanup_expired-Holds x now s h =
      get-Holds s _ (bind-Holds _ s _ (delete_all-Holds x _ s h) (λ _ t k. pure-Holds t _ k))

  -- Every call keeps it.
  pub perform-keeps :
      (x : Crates) (c : Call) (s : Node) → Brings New x c → P s.manager → P (perform x c s).manager
  unfolding perform
  perform-keeps x (store id owner xs expires now) s new h =
      (store_fragment-Holds x id owner xs expires now s new h).holds
  perform-keeps x (retrieve id now) s new h = (retrieve_fragment-Holds x id now s h).holds
  perform-keeps x (delete id) s new h = (delete_fragment-Holds x id s h).holds
  perform-keeps x (extend id expires) s new h = (extend_fragment-Holds x id expires s h).holds
  perform-keeps x (extend_owner owner n now) s new h =
      (extend_owner_fragments-Holds x owner n now s h).holds
  perform-keeps x (cleanup now) s new h = (cleanup_expired-Holds x now s h).holds
