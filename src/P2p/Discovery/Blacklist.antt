-- ===== src/P2p/Discovery/Blacklist.antt =====
-- discovery.rs: how long a peer stays blacklisted.
use libre_drive.Prelude.{
  ◌≡◌, ap, ◌∙◌, inl, inr, true, Option, none, some, List, [], ◌∷◌, arith, Bool-cases, All,
}
use libre_drive.Prelude.Text.{Str, str_eq, str_eq_refl}
use libre_drive.Prelude.Int.{ℤ, pos, ◌≤ℤ◌, ltb_ℤ, add_i64}
use libre_drive.Prelude.Dict.{
  lookup, insert, IsMap, lookup-insert, insert-IsMap, keep_if, lookup-retain, retain-IsMap,
}
use libre_drive.P2p.Discovery.Single.{Scores, score_lt}
use libre_drive.P2p.Discovery.{
  PeerInfo, PeerManager, get_peer, add_peer, blacklist_peer, clamp, update_found,
  update_reliability, prune_stale,
}

-- A call of a `PeerManager` that changes it, the time last.
pub data PeerEvent (F : Type 0) : Type 0 where
  added : PeerInfo F → ℤ → PeerEvent F
  rated : Str → F → ℤ → PeerEvent F
  banned : Str → ℤ → ℤ → PeerEvent F
  pruned : ℤ → PeerEvent F

-- An event that does not bring the end of the ban of an id before a time: a pruning before that time, and
-- any other event but a new ban of the id that ends earlier. (A bad rating is a ban for an hour.)
abbrev pub KeepsBan : {F : Type 0} → Str → ℤ → PeerEvent F → Type 0
KeepsBan id expiry (added p now) = Unit
KeepsBan id expiry (rated j delta now) = str_eq j id ≡ true → expiry ≤ℤ add_i64 now (pos 3600)
KeepsBan id expiry (banned j duration now) = str_eq j id ≡ true → expiry ≤ℤ add_i64 now duration
KeepsBan id expiry (pruned now) = ltb_ℤ now expiry ≡ true

module _ (fl : Scores) where
  unfoldable pub perform : PeerManager fl.F → PeerEvent fl.F → PeerManager fl.F
  perform m (added p now) = add_peer fl m p now
  perform m (rated id delta now) = update_reliability fl m id delta now
  perform m (banned id duration now) = blacklist_peer fl m id duration now
  perform m (pruned now) = prune_stale fl m now

  unfoldable pub run : PeerManager fl.F → List (PeerEvent fl.F) → PeerManager fl.F
  run m [] = m
  run m (e ∷ es) = run (perform m e) es

  -- An id is banned up to a time at least.
  pub record IsBanned (id : Str) (expiry : ℤ) (m : PeerManager fl.F) : Type 0 where
    pub unique : IsMap m.blacklist
    pub until : ℤ
    pub listed : lookup id m.blacklist ≡ some until
    pub late : expiry ≤ℤ until

  blacklist_peer-IsBanned :
      (m : PeerManager fl.F) (id j : Str) (expiry duration now : ℤ)
      → (str_eq j id ≡ true → expiry ≤ℤ add_i64 now duration)
      → IsBanned id expiry m
      → IsBanned id expiry (blacklist_peer fl m j duration now)
  unfolding blacklist_peer
  blacklist_peer-IsBanned m id j expiry duration now ends h = elim (Bool-cases (str_eq j id)) [
    | inl here ↦ record {
      unique = insert-IsMap j (add_i64 now duration) m.blacklist h.unique;
      until = add_i64 now duration;
      listed = lookup-insert j id (add_i64 now duration) m.blacklist ∙ rw here;
      late = ends here;
    }
    | inr other ↦ record {
      unique = insert-IsMap j (add_i64 now duration) m.blacklist h.unique;
      until = h.until;
      listed = lookup-insert j id (add_i64 now duration) m.blacklist ∙ rw other h.listed;
      late = h.late;
    }
  ]

  update_found-IsBanned :
      (m : PeerManager fl.F) (id j : Str) (expiry : ℤ) (delta : fl.F) (now : ℤ)
      (o : Option (PeerInfo fl.F))
      → (str_eq j id ≡ true → expiry ≤ℤ add_i64 now (pos 3600))
      → IsBanned id expiry m
      → IsBanned id expiry (update_found fl m j delta now o)
  unfolding update_found
  update_found-IsBanned m id j expiry delta now none ends h = h
  update_found-IsBanned m id j expiry delta now (some p) ends h =
      let rel = clamp fl (fl.add p.reliability delta) in
      let m' = record m { peers = insert j (record p { reliability = rel }) m.peers } in
      let h' : IsBanned id expiry m' = record {
        unique = h.unique;
        until = h.until;
        listed = h.listed;
        late = h.late;
      } in
      elim (Bool-cases (score_lt fl rel (fl.decimal 1 1))) [
        | inl low ↦ rw low (blacklist_peer-IsBanned m' id j expiry (pos 3600) now ends h')
        | inr fine ↦ rw fine h'
      ]

  prune_stale-IsBanned :
      (m : PeerManager fl.F) (id : Str) (expiry now : ℤ)
      → ltb_ℤ now expiry ≡ true
      → IsBanned id expiry m
      → IsBanned id expiry (prune_stale fl m now)
  unfolding prune_stale
  prune_stale-IsBanned m id expiry now before h =
      let late = h.late in
      let valid : ltb_ℤ now h.until ≡ true = ground arith in
      record {
        unique = retain-IsMap (λ t. ltb_ℤ now t) m.blacklist h.unique;
        until = h.until;
        listed =
            lookup-retain (λ t. ltb_ℤ now t) id m.blacklist h.unique
            ∙ ap (keep_if (λ t. ltb_ℤ now t)) h.listed
            ∙ rw valid;
        late = h.late;
      }

  perform-IsBanned :
      (m : PeerManager fl.F) (id : Str) (expiry : ℤ) (e : PeerEvent fl.F)
      → KeepsBan id expiry e
      → IsBanned id expiry m
      → IsBanned id expiry (perform m e)
  unfolding perform add_peer update_reliability
  perform-IsBanned m id expiry (added p now) k h = record {
    unique = h.unique;
    until = h.until;
    listed = h.listed;
    late = h.late;
  }
  perform-IsBanned m id expiry (rated j delta now) k h =
      update_found-IsBanned m id j expiry delta now (lookup j m.peers) k h
  perform-IsBanned m id expiry (banned j duration now) k h =
      blacklist_peer-IsBanned m id j expiry duration now k h
  perform-IsBanned m id expiry (pruned now) k h = prune_stale-IsBanned m id expiry now k h

  pub run-IsBanned :
      (es : List (PeerEvent fl.F)) (m : PeerManager fl.F) (id : Str) (expiry : ℤ)
      → All (KeepsBan id expiry) es
      → IsBanned id expiry m
      → IsBanned id expiry (run m es)
  unfolding run
  run-IsBanned [] m id expiry k h = h
  run-IsBanned (e ∷ es) m id expiry k h =
      run-IsBanned es (perform m e) id expiry k.1 (perform-IsBanned m id expiry e k.0 h)

  pub bad_rating-IsBanned :
      (m : PeerManager fl.F) (id : Str) (p : PeerInfo fl.F) (delta : fl.F) (now : ℤ)
      → IsMap m.blacklist
      → get_peer fl m id ≡ some p
      → score_lt fl (clamp fl (fl.add p.reliability delta)) (fl.decimal 1 1) ≡ true
      → IsBanned id (add_i64 now (pos 3600)) (update_reliability fl m id delta now)
  unfolding update_reliability update_found blacklist_peer
  bad_rating-IsBanned m id p delta now unique known low =
      rw (known, low)
        (record {
          unique = insert-IsMap id (add_i64 now (pos 3600)) m.blacklist unique;
          until = add_i64 now (pos 3600);
          listed = lookup-insert id id (add_i64 now (pos 3600)) m.blacklist ∙ rw (str_eq_refl id);
          late = omega arith;
        })
