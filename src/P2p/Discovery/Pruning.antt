-- ===== src/P2p/Discovery/Pruning.antt =====
-- discovery.rs: what `prune_stale` removes.
use libre_drive.Prelude.{◌≡◌, refl, ap, ◌∙◌, not, Option, none, some, arith}
use libre_drive.Prelude.Text.{Str}
use libre_drive.Prelude.Int.{ℤ, ◌≤ℤ◌, ltb_ℤ, leb_ℤ, sub_i64}
use libre_drive.Prelude.Dict.{lookup, IsMap, keep_if, lookup-retain}
use libre_drive.P2p.Discovery.Single.{Scores}
use libre_drive.P2p.Discovery.{
  PeerInfo, PeerManager, get_peer, is_stale, in_force, is_blacklisted, prune_stale,
}

stays_fresh : (a b : ℤ) → leb_ℤ a b ≡ not (ltb_ℤ b a)
stays_fresh a b = ground arith

still_in_force :
    (now later : ℤ) (o : Option ℤ)
    → now ≤ℤ later
    → in_force later (keep_if (λ expiry. ltb_ℤ now expiry) o) ≡ in_force later o
still_in_force now later none h = refl
still_in_force now later (some expiry) h = ground arith

-- For a manager without duplicate ids: after `prune_stale`, an id gives its peer exactly if it did
-- before and the peer is not stale, and from then on the same ids count as blacklisted as without the
-- pruning.
pub prune_stale-keeps :
    (fl : Scores) (m : PeerManager fl.F) (now later : ℤ) (id : Str)
    → IsMap m.peers
    → IsMap m.blacklist
    → now ≤ℤ later
    → (get_peer fl (prune_stale fl m now) id
        ≡ keep_if (λ p. not (is_stale fl m.max_age_seconds now p)) (get_peer fl m id))
      × (is_blacklisted fl (prune_stale fl m now) id later ≡ is_blacklisted fl m id later)
unfolding prune_stale is_blacklisted is_stale
prune_stale-keeps fl m now later id unique listed after = (
  (lookup-retain _ id m.peers unique ∙ fresh (lookup id m.peers)),
  ap (in_force later) (lookup-retain _ id m.blacklist listed)
      ∙ still_in_force now later (lookup id m.blacklist) after,
)
  where
    fresh :
        (o : Option (PeerInfo fl.F))
        → keep_if (λ (p : PeerInfo fl.F). leb_ℤ (sub_i64 now p.last_seen) m.max_age_seconds) o
          ≡ keep_if
              (λ (p : PeerInfo fl.F). not (ltb_ℤ m.max_age_seconds (sub_i64 now p.last_seen)))
              o
    fresh none = refl
    fresh (some p) = rw (stays_fresh (sub_i64 now p.last_seen) m.max_age_seconds)
