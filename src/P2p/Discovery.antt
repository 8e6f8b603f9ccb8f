-- ===== src/P2p/Discovery.antt =====
-- rust_core/src/p2p/discovery.rs: the known peers and the choice of storage peers. `f32` is the parameter
-- `Scores`; the time is an argument.
use libre_drive.Prelude.{
  ℕ, ◌%◌, min, Bool, false, ◌&&◌, not, Option, none, some, List, [], ◌∷◌, map, ltb, leb,
  if◌then◌else◌, sum, length, take, filter,
}
use libre_drive.Prelude.Text.{Str}
use libre_drive.Prelude.Word.{u64_mod}
use libre_drive.Prelude.Int.{ℤ, pos, ltb_ℤ, leb_ℤ, add_i64, sub_i64}
use libre_drive.Prelude.Dict.{Dict, lookup, insert, retain, values}
pub mod Single
pub mod Selection
pub mod Pruning
pub mod Blacklist
pub mod Unselected
use Prim.Native.Nat.{Ordering}
use libre_drive.P2p.Discovery.Single.{Scores, score_lt, score_ge}

-- The addresses are never read.
pub record PeerInfo (F : Type 0) : Type 0 where
  pub peer_id : Str
  pub storage_offered : ℕ
  pub storage_available : ℕ
  pub reliability : F
  pub latency_ms : ℕ
  pub last_seen : ℤ
  pub behind_nat : Bool
  pub agent_version : Str

pub record PeerManager (F : Type 0) : Type 0 where
  pub peers : Dict (PeerInfo F)
  pub blacklist : Dict ℤ
  pub min_reliability : F
  pub max_age_seconds : ℤ

abbrev pub pushed : {A : Type 0} → A → Option (List A) → Option (List A)
pushed a none = none
pushed a (some l) = some (a ∷ l)

-- into_iter().take(count)
abbrev pub first : {A : Type 0} → ℕ → Option (List A) → Option (List A)
first count none = none
first count (some l) = some (take count l)

-- Whether an entry of the blacklist is in force.
abbrev pub in_force : ℤ → Option ℤ → Bool
in_force now none = false
in_force now (some expiry) = ltb_ℤ now expiry

module _ (fl : Scores) where
  -- `PeerInfo::new`
  abbrev pub new_peer : Str → ℤ → PeerInfo fl.F
  new_peer peer_id now = record {
    peer_id = peer_id;
    storage_offered = 0;
    storage_available = 0;
    reliability = fl.decimal 5 1;
    latency_ms = 0;
    last_seen = now;
    behind_nat = false;
    agent_version = [];
  }

  -- `PeerInfo::touch`
  abbrev pub touch_peer : ℤ → PeerInfo fl.F → PeerInfo fl.F
  touch_peer now p = record p { last_seen = now }

  -- `PeerInfo::is_stale`
  unfoldable pub is_stale : ℤ → ℤ → PeerInfo fl.F → Bool
  is_stale max_age now p = ltb_ℤ max_age (sub_i64 now p.last_seen)

  -- `PeerInfo::score`
  unfoldable pub score : PeerInfo fl.F → fl.F
  score p =
      let latency_score =
        fl.sub (fl.decimal 1 0) (fl.div (fl.of_u64 (min p.latency_ms 1000)) (fl.decimal 1000 0)) in
      let availability_ratio =
        if ltb 0 p.storage_offered
        then fl.div (fl.of_u64 p.storage_available) (fl.of_u64 p.storage_offered)
        else fl.decimal 0 0 in
      fl.add
        (fl.add (fl.mul p.reliability (fl.decimal 4 1)) (fl.mul latency_score (fl.decimal 3 1)))
        (fl.mul availability_ratio (fl.decimal 3 1))

  -- `PeerManager::new`
  abbrev pub new : PeerManager fl.F
  new = record {
    peers = [];
    blacklist = [];
    min_reliability = fl.decimal 3 1;
    max_age_seconds = pos 3600;
  }

  -- `add_peer`
  unfoldable pub add_peer : PeerManager fl.F → PeerInfo fl.F → ℤ → PeerManager fl.F
  add_peer m p now = record m { peers = insert p.peer_id (touch_peer now p) m.peers }

  -- `get_peer`
  abbrev pub get_peer : PeerManager fl.F → Str → Option (PeerInfo fl.F)
  get_peer m id = lookup id m.peers

  -- `blacklist_peer`
  unfoldable pub blacklist_peer : PeerManager fl.F → Str → ℤ → ℤ → PeerManager fl.F
  blacklist_peer m id duration now = record m {
    blacklist = insert id (add_i64 now duration) m.blacklist;
  }

  -- (x).clamp(0.0, 1.0)
  unfoldable pub clamp : fl.F → fl.F
  clamp x =
      if score_lt fl x (fl.decimal 0 0)
      then fl.decimal 0 0
      else if score_lt fl (fl.decimal 1 0) x
      then fl.decimal 1 0
      else x

  -- The body of `update_reliability`, for the peer of the id.
  unfoldable pub update_found :
      PeerManager fl.F → Str → fl.F → ℤ → Option (PeerInfo fl.F) → PeerManager fl.F
  update_found m id delta now none = m
  update_found m id delta now (some p) =
      let reliability = clamp (fl.add p.reliability delta) in
      let m' = record m { peers = insert id (record p { reliability = reliability }) m.peers } in
      if score_lt fl reliability (fl.decimal 1 1) then blacklist_peer m' id (pos 3600) now else m'

  -- `update_reliability`
  unfoldable pub update_reliability : PeerManager fl.F → Str → fl.F → ℤ → PeerManager fl.F
  update_reliability m id delta now = update_found m id delta now (lookup id m.peers)

  -- `is_blacklisted`
  unfoldable pub is_blacklisted : PeerManager fl.F → Str → ℤ → Bool
  is_blacklisted m id now = in_force now (lookup id m.blacklist)

  -- `prune_stale`
  unfoldable pub prune_stale : PeerManager fl.F → ℤ → PeerManager fl.F
  prune_stale m now = record m {
    peers = retain (λ p. leb_ℤ (sub_i64 now p.last_seen) m.max_age_seconds) m.peers;
    blacklist = retain (λ expiry. ltb_ℤ now expiry) m.blacklist;
  }

  -- The filter of `healthy_peers`.
  unfoldable pub is_healthy : PeerManager fl.F → ℤ → PeerInfo fl.F → Bool
  is_healthy m now p =
      not (is_blacklisted m p.peer_id now)
      && score_ge fl p.reliability m.min_reliability
      && not (is_stale m.max_age_seconds now p)

  -- The filter of `select_storage_peers`.
  unfoldable pub is_candidate : PeerManager fl.F → ℕ → ℤ → PeerInfo fl.F → Bool
  is_candidate m required_bytes now p =
      not (is_blacklisted m p.peer_id now)
      && score_ge fl p.reliability m.min_reliability
      && leb required_bytes p.storage_available
      && not (is_stale m.max_age_seconds now p)

  -- One peer put into a sorted list, before those that do not score higher; `none` is the panic of
  -- `partial_cmp(..).unwrap()`.
  abbrev pub settle :
      PeerInfo fl.F
      → PeerInfo fl.F
      → List (PeerInfo fl.F)
      → Option (List (PeerInfo fl.F))
      → Option Ordering
      → Option (List (PeerInfo fl.F))
  settle p q qs rest none = none
  settle p q qs rest (some Ordering.gt) = pushed q rest
  settle p q qs rest (some Ordering.eq) = some (p ∷ q ∷ qs)
  settle p q qs rest (some Ordering.lt) = some (p ∷ q ∷ qs)

  unfoldable pub place : PeerInfo fl.F → List (PeerInfo fl.F) → Option (List (PeerInfo fl.F))
  place p [] = some (p ∷ [])
  place p (q ∷ qs) = settle p q qs (place p qs) (fl.partial_cmp (score q) (score p))

  abbrev pub place_in :
      PeerInfo fl.F → Option (List (PeerInfo fl.F)) → Option (List (PeerInfo fl.F))
  place_in p none = none
  place_in p (some qs) = place p qs

  -- candidates.sort_by(|a, b| b.score().partial_cmp(&a.score()).unwrap()), a stable sort
  unfoldable pub sort_by_score : List (PeerInfo fl.F) → Option (List (PeerInfo fl.F))
  sort_by_score [] = some []
  sort_by_score (p ∷ ps) = place_in p (sort_by_score ps)

  -- `select_storage_peers`
  unfoldable pub select_storage_peers : PeerManager fl.F → ℕ → ℕ → ℤ → Option (List (PeerInfo fl.F))
  select_storage_peers m required_bytes count now =
      first count (sort_by_score (filter (is_candidate m required_bytes now) (values m.peers)))

  -- `healthy_peers`
  unfoldable pub healthy_peers : PeerManager fl.F → ℤ → List (PeerInfo fl.F)
  healthy_peers m now = filter (is_healthy m now) (values m.peers)

  -- `total_available_storage`
  unfoldable pub total_available_storage : PeerManager fl.F → ℤ → ℕ
  total_available_storage m now =
      sum (map (λ p. p.storage_available) (healthy_peers m now)) % u64_mod

  -- `peer_count` and `healthy_peer_count`
  abbrev pub peer_count : PeerManager fl.F → ℕ
  peer_count m = length m.peers

  abbrev pub healthy_peer_count : PeerManager fl.F → ℤ → ℕ
  healthy_peer_count m now = length (healthy_peers m now)
