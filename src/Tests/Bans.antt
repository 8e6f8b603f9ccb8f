-- ===== src/Tests/Bans.antt =====
-- discovery.rs: a ban at concrete inputs.
use libre_drive.Prelude.{ℕ, ◌≡◌, refl, some, List, [], ◌∷◌, arith, All, filter}
use libre_drive.Prelude.Text.{text, str_eq}
use libre_drive.Prelude.Int.{pos, add_i64}
use libre_drive.Prelude.Dict.{lookup, values}
use libre_drive.P2p.Discovery.{
  PeerInfo, PeerManager, get_peer, clamp, is_candidate, update_reliability, select_storage_peers,
  healthy_peers,
}
use libre_drive.P2p.Discovery.Blacklist.{PeerEvent, added, rated, banned, pruned, run}
use libre_drive.P2p.Discovery.Unselected.{Other, update_reliability-unselected}
use libre_drive.Tests.Peers.{thousandths, thousandths-IsNumeric, peer, candidates_numeric}

-- A peer that is nearly worn out, and another one.
abbrev worn : PeerInfo ℕ
worn = record (peer (text "worn") 10) { reliability = 20 }

abbrev two_peers : PeerManager ℕ
two_peers = record {
  peers = (text "worn", worn) ∷ (text "fast", peer (text "fast") 20) ∷ [];
  blacklist = [];
  min_reliability = 300;
  max_age_seconds = pos 3600;
}

-- It announces itself again, with a new reliability, and others are rated, banned and pruned.
abbrev peer_events : List (PeerEvent ℕ)
peer_events =
    added (peer (text "worn") 5) (pos 1010)
    ∷ rated (text "worn") 300 (pos 1020)
    ∷ banned (text "other") (pos 10) (pos 1030)
    ∷ pruned (pos 2000)
    ∷ []

worn_known : get_peer thousandths two_peers (text "worn") ≡ some worn
unfolding lookup str_eq
worn_known = refl

abbrev after_bans : PeerManager ℕ
after_bans =
    run thousandths (update_reliability thousandths two_peers (text "worn") 10 (pos 1000))
      peer_events

update_reliability-unselected_example :
    (chosen : List (PeerInfo ℕ)) × (select_storage_peers thousandths after_bans 10 2 (pos 4000)
      ≡ some chosen)
    × All (Other thousandths (text "worn")) chosen
    × All (Other thousandths (text "worn")) (healthy_peers thousandths after_bans (pos 4000))
unfolding clamp add_i64 str_eq
update_reliability-unselected_example =
    update_reliability-unselected thousandths thousandths-IsNumeric two_peers (text "worn") worn 10
      (pos 1000) (pos 4000) peer_events 10 2 tt worn_known refl
      (tt, ((λ e. omega arith), ((λ e. absurd (ground (arith, e))), (refl, tt)))) refl
      (candidates_numeric
        (filter (is_candidate thousandths after_bans 10 (pos 4000)) (values after_bans.peers)))
