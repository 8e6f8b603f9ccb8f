-- ===== src/P2p/Discovery/Unselected.antt =====
-- discovery.rs: a peer that is blacklisted is not chosen, whatever else happens.
use libre_drive.Prelude.{
  ℕ, zero, suc, ◌≡◌, subst, ◌≢◌, inl, inr, Bool, true, Option, none, some, List, [], ◌∷◌, arith,
  Bool-cases, All, take, filter,
}
use libre_drive.Prelude.Text.{Str}
use libre_drive.Prelude.Int.{ℤ, pos, ltb_ℤ, add_i64}
use libre_drive.Prelude.Dict.{values, IsMap}
use Prim.Native.Nat.{Ordering}
use libre_drive.P2p.Discovery.Single.{Scores, score_lt, IsNumeric}
use libre_drive.P2p.Discovery.{
  PeerInfo, PeerManager, first, get_peer, clamp, update_reliability, is_blacklisted, is_healthy,
  score, is_candidate, settle, place, place_in, sort_by_score, select_storage_peers, healthy_peers,
}
use libre_drive.P2p.Discovery.Selection.{HasNumber, select_storage_peers-best}
use libre_drive.P2p.Discovery.Blacklist.{
  PeerEvent, KeepsBan, run, IsBanned, run-IsBanned, bad_rating-IsBanned,
}

module _ (fl : Scores) where
  abbrev pub Other : Str → PeerInfo fl.F → Type 0
  Other id p = p.peer_id ≢ id

  filtered :
      (id : Str) (test : PeerInfo fl.F → Bool)
      → ((p : PeerInfo fl.F) → test p ≡ true → Other id p)
      → (ps : List (PeerInfo fl.F)) → All (Other id) (filter test ps)
  filtered id test h [] = tt
  filtered id test h (p ∷ ps) = elim (Bool-cases (test p)) [
    | inl passes ↦ rw passes (h p passes, filtered id test h ps)
    | inr fails ↦ rw fails (filtered id test h ps)
  ]

  -- A list, if there is one, of other peers.
  abbrev Others : Str → Option (List (PeerInfo fl.F)) → Type 0
  Others id none = Unit
  Others id (some ps) = All (Other id) ps

  place-Others :
      (id : Str) (p : PeerInfo fl.F) (qs : List (PeerInfo fl.F))
      → Other id p
      → All (Other id) qs
      → Others id (place fl p qs)
  unfolding place
  place-Others id p [] h hs = (h, tt)
  place-Others id p (q ∷ qs) h hs =
      settled (place fl p qs) (fl.partial_cmp (score fl q) (score fl p))
        (place-Others id p qs h hs.1)
    where
      settled :
          (rest : Option (List (PeerInfo fl.F))) (o : Option Ordering)
          → Others id rest
          → Others id (settle fl p q qs rest o)
      settled rest none k = tt
      settled none (some Ordering.gt) k = tt
      settled (some r) (some Ordering.gt) k = (hs.0, k)
      settled rest (some Ordering.eq) k = (h, hs)
      settled rest (some Ordering.lt) k = (h, hs)

  sort-Others :
      (id : Str) (ps : List (PeerInfo fl.F)) → All (Other id) ps → Others id (sort_by_score fl ps)
  unfolding sort_by_score
  sort-Others id [] h = tt
  sort-Others id (p ∷ ps) h = placed (sort_by_score fl ps) (sort-Others id ps h.1)
    where
      placed : (o : Option (List (PeerInfo fl.F))) → Others id o → Others id (place_in fl p o)
      placed none k = tt
      placed (some qs) k = place-Others id p qs h.0 k

  take-Others :
      (id : Str) (n : ℕ) (ps : List (PeerInfo fl.F))
      → All (Other id) ps
      → All (Other id) (take n ps)
  take-Others id zero ps h = tt
  take-Others id (suc n) [] h = tt
  take-Others id (suc n) (p ∷ ps) h = (h.0, take-Others id n ps h.1)

  first-Others :
      (id : Str) (n : ℕ) (o : Option (List (PeerInfo fl.F))) → Others id o → Others id (first n o)
  first-Others id n none h = tt
  first-Others id n (some ps) h = take-Others id n ps h

  module _ (id : Str) (expiry later : ℤ) (m : PeerManager fl.F) (before : ltb_ℤ later expiry ≡ true)
      (h : IsBanned fl id expiry m) where
    is_blacklisted-banned :
        (p : PeerInfo fl.F) → p.peer_id ≡ id → is_blacklisted fl m p.peer_id later ≡ true
    unfolding is_blacklisted
    is_blacklisted-banned p same = let late = h.late in rw (same, h.listed) (ground arith)

    is_candidate-Other :
        (required_bytes : ℕ) (p : PeerInfo fl.F)
        → is_candidate fl m required_bytes later p ≡ true
        → Other id p
    unfolding is_candidate
    is_candidate-Other required_bytes p passes same =
        let b = is_blacklisted-banned p same in absurd (ground arith)

    is_healthy-Other : (p : PeerInfo fl.F) → is_healthy fl m later p ≡ true → Other id p
    unfolding is_healthy
    is_healthy-Other p passes same = let b = is_blacklisted-banned p same in absurd (ground arith)

    select-Others :
        (required_bytes count : ℕ)
        → Others id (select_storage_peers fl m required_bytes count later)
    unfolding select_storage_peers
    select-Others required_bytes count =
        first-Others id count _
          (sort-Others id _ (filtered id _ (is_candidate-Other required_bytes) (values m.peers)))

    healthy-Others : All (Other id) (healthy_peers fl m later)
    unfolding healthy_peers
    healthy-Others = filtered id _ is_healthy-Other (values m.peers)

  -- A known peer whose rating falls below 0.1 is not chosen in the hour after: whatever peers are added
  -- (also itself again, with a new reliability), rated or banned and whatever is pruned in between, as long
  -- as nothing ends its ban before the hour is over, `select_storage_peers` (where the scores of the
  -- candidates are numbers, so that it does not panic) and `healthy_peers` return other peers only.
  pub update_reliability-unselected :
      {IsNumber : fl.F → Type 0} (laws : IsNumeric fl IsNumber) (m : PeerManager fl.F) (id : Str)
      (p : PeerInfo fl.F) (delta : fl.F) (now later : ℤ) (es : List (PeerEvent fl.F))
      (required_bytes count : ℕ)
      → IsMap m.blacklist
      → get_peer fl m id ≡ some p
      → score_lt fl (clamp fl (fl.add p.reliability delta)) (fl.decimal 1 1) ≡ true
      → All (KeepsBan id (add_i64 now (pos 3600))) es
      → ltb_ℤ later (add_i64 now (pos 3600)) ≡ true
      → let m' = run fl (update_reliability fl m id delta now) es in
        All (HasNumber fl laws) (filter (is_candidate fl m' required_bytes later) (values m'.peers))
        → (chosen : List (PeerInfo fl.F)) × (select_storage_peers fl m' required_bytes count later
            ≡ some chosen)
          × All (Other id) chosen
          × All (Other id) (healthy_peers fl m' later)
  update_reliability-unselected laws m id p delta now later es required_bytes count unique known low
        quiet before numbers =
      let expiry = add_i64 now (pos 3600) in
      let m' = run fl (update_reliability fl m id delta now) es in
      let h =
        run-IsBanned fl es (update_reliability fl m id delta now) id expiry quiet
          (bad_rating-IsBanned fl m id p delta now unique known low) in
      let (chosen, _, e, _, _, _, _) =
        select_storage_peers-best fl laws m' required_bytes count later numbers in
      (
        chosen,
        e,
        subst (Others id) e (select-Others id expiry later m' before h required_bytes count),
        healthy-Others id expiry later m' before h,
      )
