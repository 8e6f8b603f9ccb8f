-- ===== src/P2p/StorageManager/Cleanup.antt =====
-- storage_protocol.rs: renewing the fragments of an owner, and removing expired ones.
use libre_drive.Prelude.{
  ℕ, ◌%◌, ◌^◌, ◌≡◌, refl, inl, inr, Bool, true, false, Option, none, some, List, [], ◌∷◌, arith,
  ltb, if◌then◌else◌, Bool-cases,
}
use libre_drive.Prelude.Result.{ok}
use libre_drive.Prelude.Text.{Bytes, Str, str_eq, str_eq_iff}
use libre_drive.Prelude.Int.{ℤ, ltb_ℤ, add_i64}
use libre_drive.Prelude.Dict.{
  Dict, lookup, insert, values, map_values, IsMap, map_option, lookup-map_values,
}
use libre_drive.P2p.Disk.{write}
use libre_drive.P2p.StorageManager.Fragment.{StoredFragment, index_path}
use libre_drive.P2p.StorageManager.Actions.{StorageManager, Node, ◌>>=◌, branch}
use libre_drive.P2p.StorageManager.{
  Crates, save_index, expired_ids, renew, days, count_owned, extend_owner_fragments,
}
use libre_drive.P2p.StorageManager.Retrieval.{healthy}

abbrev pub elem_ids : Str → List Str → Bool
elem_ids j [] = false
elem_ids j (id ∷ ids) = if str_eq id j then true else elem_ids j ids

abbrev pub is_expired : ℤ → StoredFragment → Bool
is_expired now f = ltb_ℤ f.expires_at now

abbrev pub expired_at : ℤ → Option StoredFragment → Bool
expired_at now none = false
expired_at now (some f) = is_expired now f

-- The ids that are collected are those of expired entries.
pub elem-expired_ids :
    (now : ℤ) (j : Str) (index : Dict StoredFragment)
    → IsMap index
    → elem_ids j (expired_ids now index) ≡ expired_at now (lookup j index)
unfolding expired_ids lookup
elem-expired_ids now j [] u = refl
elem-expired_ids now j ((id, f) ∷ index) u =
    ground (arith, str_eq_iff id j, elem-expired_ids now j index u.1)

module _ (x : Crates)
    (json : (index : Dict StoredFragment) → (b : Bytes) × (x.to_json index ≡ ok b)) where
  -- On a disk that works and with an index that JSON can write: `extend_owner_fragments` succeeds with
  -- the number of the owner's fragments (as a `u32`), gives each of these the expiration time that
  -- lies the given days after now, and leaves the fragments of other owners as they are. The space
  -- used does not change.
  pub extend_owner_fragments-renews :
      (owner : Str) (n : ℕ) (now : ℤ) (m : StorageManager) (files : Dict Bytes)
      → (s : Node) × (extend_owner_fragments x owner n now (healthy m files)
          ≡ (ok (count_owned owner (values m.fragment_index) % 2 ^ 32), s))
        × ((j : Str)
            → lookup j s.fragment_index
              ≡ map_option
                  (λ f.
                    if str_eq f.owner_id owner
                    then record f { expires_at = add_i64 now (days n) }
                    else f)
                  (lookup j m.fragment_index))
        × (s.used_storage_bytes ≡ m.used_storage_bytes)
  unfolding extend_owner_fragments save_index ◌>>=◌ write
  extend_owner_fragments-renews owner n now m files =
      let count = count_owned owner (values m.fragment_index) % 2 ^ 32 in
      let index = map_values (renew owner (add_i64 now (days n))) m.fragment_index in
      let m' = record m { fragment_index = index } in
      let (b, written) = json index in
      elim (Bool-cases (ltb 0 count)) [
        | inl some_owned ↦ (
          healthy m' (insert (x.file_of index_path) b files),
          rw (some_owned, branch, written),
          (λ j. lookup-map_values (renew owner (add_i64 now (days n))) j m.fragment_index),
          refl,
        )
        | inr none_owned ↦ (
          healthy m' files,
          rw (none_owned, branch),
          (λ j. lookup-map_values (renew owner (add_i64 now (days n))) j m.fragment_index),
          refl,
        )
      ]
