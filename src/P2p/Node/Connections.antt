-- ===== src/P2p/Node/Connections.antt =====
-- The connections that a swarm of libp2p keeps, and the events that it raises for them.
use libre_drive.Prelude.{ℕ, suc, ◌<◌, ◌≡◌, refl, List, [], ◌∷◌, ◌++◌, arith, if◌then◌else◌}
use libre_drive.Prelude.Text.{Str, str_eq}
use libre_drive.P2p.Libp2p.{
  BehaviourEvent, SwarmEvent, new_listen_addr, connection_established, connection_closed, behaviour,
  other_event,
}

-- The connections that are open, each with its peer.
abbrev pub Connections : Type 0
Connections = List (ℕ × Str)

-- How many of them a peer has
unfoldable pub open_count : Str → Connections → ℕ
open_count p [] = 0
open_count p ((i, q) ∷ cs) = if str_eq q p then suc (open_count p cs) else open_count p cs

-- What a swarm may raise when it keeps at most `limit` connections with one peer, and which connections
-- are open then.
pub data Raises (M F : Type 0) (limit : ℕ)
    : Connections → SwarmEvent M F → Connections → Type 0 where
  opens :
      (p : Str) (i : ℕ) (cs : Connections)
      → open_count p cs < limit
      → Raises M F limit cs (connection_established p i) ((i, p) ∷ cs)
  closes :
      (p : Str) (i : ℕ) (before after : Connections)
      → Raises M F limit
          (before ++ (i, p) ∷ after)
          (connection_closed p i (open_count p (before ++ after)))
          (before ++ after)
  reports : (e : BehaviourEvent M F) (cs : Connections) → Raises M F limit cs (behaviour e) cs
  listens : (a : M) (cs : Connections) → Raises M F limit cs (new_listen_addr a) cs
  other : (cs : Connections) → Raises M F limit cs other_event cs

pub data Trace (M F : Type 0) (limit : ℕ)
    : Connections → List (SwarmEvent M F) → Connections → Type 0 where
  begin : (cs : Connections) → Trace M F limit cs [] cs
  step :
      {a b c : Connections} {e : SwarmEvent M F} {es : List (SwarmEvent M F)}
      → Raises M F limit a e b
      → Trace M F limit b es c
      → Trace M F limit a (e ∷ es) c

pub open_count-middle :
    (p q : Str) (i : ℕ) (before after : Connections)
    → open_count p (before ++ (i, q) ∷ after) ≡ (
        if str_eq q p then suc (open_count p (before ++ after)) else open_count p (before ++ after))
unfolding open_count
open_count-middle p q i [] after = refl
open_count-middle p q i ((j, r) ∷ before) after =
    ground (arith, open_count-middle p q i before after)
