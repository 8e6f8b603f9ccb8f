-- ===== src/P2p/StorageManager/Sound.antt =====
-- storage_protocol.rs: when a manager is sound, and that each step of the methods keeps it so.
use libre_drive.Prelude.{ℕ, ◌≤◌, ◌<◌, ◌≡◌, true, some, arith, leb}
use libre_drive.Prelude.Text.{Str}
use libre_drive.Prelude.Word.{add_u64, add_u64-eq}
use libre_drive.Prelude.Int.{i64_half}
use libre_drive.Prelude.Dict.{
  lookup, total, weight, IsMap, total-insert, total-remove, insert-IsMap, remove-IsMap,
}
use libre_drive.P2p.StorageManager.Fragment.{StoredFragment}
use libre_drive.P2p.StorageManager.Actions.{StorageManager}
use libre_drive.P2p.StorageManager.{record_fragment, forget, release, put_fragment}

-- The bytes of the fragments in the index.
abbrev pub indexed_bytes : StorageManager → ℕ
indexed_bytes m = total (λ f. f.size_bytes) m.fragment_index

-- No id twice; the fragments are paid for in `used_storage_bytes`, which stays within the offer; the
-- manager still offers what it was made with, which is below 2^63.
pub record IsSound (offer : ℕ) (m : StorageManager) : Type 0 where
  pub unique : IsMap m.fragment_index
  pub accounted : indexed_bytes m ≤ m.used_storage_bytes
  pub bounded : m.used_storage_bytes ≤ offer
  pub kept : m.max_storage_bytes ≡ offer
  pub offered : offer < i64_half

module _ {offer : ℕ} where
  pub record_fragment-IsSound :
      (f : StoredFragment) (m : StorageManager)
      → IsSound offer m
      → f.size_bytes < i64_half
      → leb (add_u64 m.used_storage_bytes f.size_bytes) m.max_storage_bytes ≡ true
      → IsSound offer (record_fragment f m)
  record_fragment-IsSound f m h small fits =
      let b = h.bounded in
      let o = h.offered in
      let k = h.kept in
      let a = h.accounted in
      let sum = add_u64-eq m.used_storage_bytes f.size_bytes (omega arith) in
      let t =
        total-insert (λ (g : StoredFragment). g.size_bytes) f.fragment_id f m.fragment_index in
      let le : add_u64 m.used_storage_bytes f.size_bytes ≤ m.max_storage_bytes = ground arith in
      record {
        unique = insert-IsMap f.fragment_id f m.fragment_index h.unique;
        accounted = omega arith;
        bounded = omega arith;
        kept = k;
        offered = o;
      }

  pub forget-IsSound :
      (id : Str) (m : StorageManager) → IsSound offer m → IsSound offer (forget id m)
  forget-IsSound id m h =
      let a = h.accounted in
      let t = total-remove (λ (g : StoredFragment). g.size_bytes) id m.fragment_index h.unique in
      record {
        unique = remove-IsMap id m.fragment_index h.unique;
        accounted = omega arith;
        bounded = h.bounded;
        kept = h.kept;
        offered = h.offered;
      }

  pub release-IsSound :
      (id : Str) (f : StoredFragment) (m : StorageManager)
      → IsSound offer m
      → lookup id m.fragment_index ≡ some f
      → IsSound offer (release f.size_bytes (forget id m))
  release-IsSound id f m h there =
      let a = h.accounted in
      let b = h.bounded in
      let t = total-remove (λ (g : StoredFragment). g.size_bytes) id m.fragment_index h.unique in
      let w : weight (λ (g : StoredFragment). g.size_bytes) (lookup id m.fragment_index)
          ≡ f.size_bytes =
        rw there in
      record {
        unique = remove-IsMap id m.fragment_index h.unique;
        accounted = omega arith;
        bounded = omega arith;
        kept = h.kept;
        offered = h.offered;
      }

  -- Replacing an entry by one of the same size.
  pub put_fragment-IsSound :
      (id : Str) (f g : StoredFragment) (m : StorageManager)
      → IsSound offer m
      → lookup id m.fragment_index ≡ some f
      → g.size_bytes ≡ f.size_bytes
      → IsSound offer (put_fragment id g m)
  put_fragment-IsSound id f g m h there same =
      let a = h.accounted in
      let t = total-insert (λ (g : StoredFragment). g.size_bytes) id g m.fragment_index in
      let w : weight (λ (g : StoredFragment). g.size_bytes) (lookup id m.fragment_index)
          ≡ f.size_bytes =
        rw there in
      record {
        unique = insert-IsMap id g m.fragment_index h.unique;
        accounted = omega arith;
        bounded = h.bounded;
        kept = h.kept;
        offered = h.offered;
      }
