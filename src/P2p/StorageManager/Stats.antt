-- ===== src/P2p/StorageManager/Stats.antt =====
-- storage_protocol.rs: `stats`.
use libre_drive.Prelude.{
  ℕ, ◌+◌, ◌-◌, ◌*◌, ◌≤◌, ◌≡◌, refl, inl, inr, Bool, true, false, List, [], ◌∷◌, map, arith,
  if◌then◌else◌, Bool-cases, length, filter, length-map,
}
use libre_drive.Prelude.Text.{Str, str_eq}
use libre_drive.Prelude.Int.{ℤ, pos, ltb_ℤ, sub_i64}
use libre_drive.Prelude.Dict.{Dict, values}
use libre_drive.P2p.StorageManager.Actions.{StorageManager}
use libre_drive.P2p.StorageManager.Fragment.{StoredFragment}
use libre_drive.P2p.StorageManager.Sound.{IsSound}

pub record StorageStats : Type 0 where
  pub total_offered : ℕ
  pub used_bytes : ℕ
  pub available_bytes : ℕ
  pub fragment_count : ℕ
  pub unique_owners : ℕ
  pub fragments_expiring_soon : ℕ

unfoldable pub is_elem : Str → List Str → Bool
is_elem s [] = false
is_elem s (t ∷ ts) = if str_eq s t then true else is_elem s ts

-- Each text once, as in a HashSet.
unfoldable pub distinct : List Str → List Str
distinct [] = []
distinct (s ∷ ss) = let rest = distinct ss in if is_elem s rest then rest else s ∷ rest

-- Within 7 days.
unfoldable pub expires_soon : ℤ → StoredFragment → Bool
expires_soon now f = ltb_ℤ (sub_i64 f.expires_at now) (pos (7 * 24 * 60 * 60))

-- `stats`
unfoldable pub stats : StorageManager → ℤ → StorageStats
stats m now = record {
  total_offered = m.max_storage_bytes;
  used_bytes = m.used_storage_bytes;
  available_bytes = m.max_storage_bytes - m.used_storage_bytes;
  fragment_count = length m.fragment_index;
  unique_owners = length (distinct (map (λ f. f.owner_id) (values m.fragment_index)));
  fragments_expiring_soon = length (filter (expires_soon now) (values m.fragment_index));
}

length-distinct : (ss : List Str) → length (distinct ss) ≤ length ss
unfolding distinct
length-distinct [] = omega arith
length-distinct (s ∷ ss) = elim (Bool-cases (is_elem s (distinct ss))) [
  | inl e ↦ rw e (omega (arith, length-distinct ss))
  | inr e ↦ rw e (omega (arith, length-distinct ss))
]

length-filter :
    (p : StoredFragment → Bool) (fs : List StoredFragment) → length (filter p fs) ≤ length fs
length-filter p [] = omega arith
length-filter p (f ∷ fs) = elim (Bool-cases (p f)) [
  | inl e ↦ rw e (omega (arith, length-filter p fs))
  | inr e ↦ rw e (omega (arith, length-filter p fs))
]

length-values : (m : Dict StoredFragment) → length (values m) ≡ length m
length-values [] = refl
length-values (e ∷ m) = omega (arith, length-values m)

-- For a manager that is sound (as every history of calls leaves it): the used and the available bytes
-- are together the offered ones, and there are at most as many owners, and fragments that expire
-- soon, as fragments.
pub stats-bounds :
    {offer : ℕ} (m : StorageManager) (now : ℤ)
    → IsSound offer m
    → let s = stats m now in
      (s.used_bytes + s.available_bytes ≡ offer)
      × (s.total_offered ≡ offer)
      × (s.unique_owners ≤ s.fragment_count)
      × (s.fragments_expiring_soon ≤ s.fragment_count)
unfolding stats
stats-bounds m now sound =
    let b = sound.bounded in
    let k = sound.kept in
    let v = length-values m.fragment_index in
    (
      omega arith,
      k,
      omega (
        arith,
        length-distinct (map (λ f. f.owner_id) (values m.fragment_index)),
        length-map (values m.fragment_index) (λ (f : StoredFragment). f.owner_id),
      ),
      omega (arith, length-filter (expires_soon now) (values m.fragment_index)),
    )
