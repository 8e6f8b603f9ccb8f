-- ===== src/P2p/StorageManager/Invariant.antt =====
-- storage_protocol.rs: whatever is called on an initialized node and whatever the disk does, the index stays a map and the
-- fragments in it stay within the space that the node offers.
use libre_drive.Prelude.{ℕ, ◌≤◌, ◌<◌, ◌≡◌, refl, List, [], ◌∷◌, arith, All, ◌%◌, sym, subst}
use libre_drive.Prelude.Text.{Str}
use libre_drive.Prelude.Int.{ℤ, i64_half}
use libre_drive.Prelude.Dict.{total, IsMap, map_values-IsMap, total-map_values}
use libre_drive.P2p.Disk.{Disk}
use libre_drive.P2p.StorageManager.Fragment.{StoredFragment}
use libre_drive.P2p.StorageManager.Actions.{Node, StorageManager}
use libre_drive.P2p.StorageManager.{Crates, new, renew, initialize}
use libre_drive.P2p.StorageManager.Holds.{
  Holds, on_disk-Holds, get-Holds, if-Holds, lift-Holds, assign-Holds, pure-Holds,
}
use libre_drive.Prelude.Word.{u64_mod}
use libre_drive.P2p.StorageManager.Calls.{
  Call, store, retrieve, delete, extend, extend_owner, cleanup, perform, run, InMemory,
}
use libre_drive.P2p.StorageManager.Preserved.{IsPreserved, perform-keeps}
use libre_drive.P2p.StorageManager.Sound.{
  indexed_bytes, IsSound, record_fragment-IsSound, forget-IsSound, release-IsSound,
  put_fragment-IsSound,
}

renew-size :
    (owner : Str) (expires : ℤ) (f : StoredFragment)
    → (renew owner expires f).size_bytes ≡ f.size_bytes
renew-size owner expires f = ground arith

module _ {offer : ℕ} where
  IsSound-IsPreserved : IsPreserved (IsSound offer) (λ f. f.size_bytes < i64_half)
  IsSound-IsPreserved = record {
    recorded = record_fragment-IsSound;
    forgotten = forget-IsSound;
    released = release-IsSound;
    changed = λ id f g m h there same hash. put_fragment-IsSound id f g m h there same;
    renewed = λ owner expires m h.
        let a = h.accounted in
        let t =
          total-map_values (λ (f : StoredFragment). f.size_bytes) (renew owner expires)
            m.fragment_index (renew-size owner expires) in
        record {
          unique = map_values-IsMap (renew owner expires) m.fragment_index h.unique;
          accounted = omega arith;
          bounded = h.bounded;
          kept = h.kept;
          offered = h.offered;
        };
  }

  -- Every call keeps a manager sound, whatever it is given and whatever the disk does, and also where it
  -- fails or panics. (The data to store has fewer than 2^63 bytes.)
  pub perform-IsSound :
      (x : Crates) (c : Call) (s : Node)
      → InMemory c
      → IsSound offer s.manager
      → IsSound offer (perform x c s).manager
  perform-IsSound x (store id owner xs expires now) s small h =
      perform-keeps IsSound-IsPreserved x (store id owner xs expires now) s (λ path. small) h
  perform-IsSound x (retrieve id now) s small h =
      perform-keeps IsSound-IsPreserved x (retrieve id now) s tt h
  perform-IsSound x (delete id) s small h = perform-keeps IsSound-IsPreserved x (delete id) s tt h
  perform-IsSound x (extend id expires) s small h =
      perform-keeps IsSound-IsPreserved x (extend id expires) s tt h
  perform-IsSound x (extend_owner owner n now) s small h =
      perform-keeps IsSound-IsPreserved x (extend_owner owner n now) s tt h
  perform-IsSound x (cleanup now) s small h =
      perform-keeps IsSound-IsPreserved x (cleanup now) s tt h

  run-IsSound :
      (x : Crates) (s : Node) (cs : List Call)
      → All InMemory cs
      → IsSound offer s.manager
      → IsSound offer (run x s cs).manager
  unfolding run
  run-IsSound x s [] small h = h
  run-IsSound x s (c ∷ cs) small h =
      run-IsSound x (perform x c s) cs small.1 (perform-IsSound x c s small.0 h)

-- What `initialize` of a new node leaves: all and only the fragments in the index are charged.
record Charged (offer : ℕ) (m : StorageManager) : Type 0 where
  charged : m.used_storage_bytes ≡ indexed_bytes m % u64_mod
  offers : m.max_storage_bytes ≡ offer

initialize-Charged :
    (x : Crates) (offer : ℕ) (s : Node)
    → s.manager ≡ new offer
    → Holds (Charged offer) (initialize x s)
unfolding initialize total
initialize-Charged x offer s fresh =
    let h : Charged offer s.manager =
      subst (Charged offer) (sym fresh) (record { charged = omega arith; offers = refl }) in
    on_disk-Holds _ s _ h λ _ d. get-Holds _ _ (
      if-Holds _ _ _ _
        (on_disk-Holds _ _ _ h λ b d'.
          lift-Holds _ _ _ h
            λ index parsed. assign-Holds _ _ (record { charged = refl; offers = h.offers }))
        (pure-Holds _ tt h))

-- A new node that offers less than 2^63 bytes is initialized on any disk, with whatever outcome. If the
-- index that it then has is without duplicate ids and within the offer (`initialize` does not check
-- this), then after any history of the other calls, and any failures of the disk, the node holds an
-- index without duplicate ids whose fragments have together at most the offered bytes.
pub run-within-offer :
    (x : Crates) (offer : ℕ) (disk : Disk) (cs : List Call)
    → offer < i64_half
    → All InMemory cs
    → let s = (initialize x (record { manager = new offer; disk = disk })).1 in
      IsMap s.fragment_index
      → indexed_bytes s.manager ≤ offer
      → let m = (run x s cs).manager in
        IsMap m.fragment_index
        × (indexed_bytes m ≤ m.used_storage_bytes)
        × (m.used_storage_bytes ≤ offer)
run-within-offer x offer disk cs small bounds unique below =
    let s = (initialize x (record { manager = new offer; disk = disk })).1 in
    let c = (initialize-Charged x offer (record { manager = new offer; disk = disk }) refl).holds in
    let e = c.charged in
    let start : IsSound offer s.manager = record {
      unique = unique;
      accounted = omega arith;
      bounded = omega arith;
      kept = c.offers;
      offered = small;
    } in
    let h = run-IsSound x s cs bounds start in (h.unique, h.accounted, h.bounded)
