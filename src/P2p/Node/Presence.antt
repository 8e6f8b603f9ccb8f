-- ===== src/P2p/Node/Presence.antt =====
-- p2p/node.rs: the connected peers of a node, against the connections that are open.
use libre_drive.Prelude.{
  ℕ, ◌≤◌, ◌<◌, ◌≡◌, refl, sym, ◌∙◌, ◌↔◌, none, some, List, [], ◌∷◌, map, arith,
}
use libre_drive.Prelude.Text.{Str, str_eq_iff, str_eq_refl}
use libre_drive.Prelude.Dict.{lookup, lookup-insert, lookup-remove}
use libre_drive.P2p.Libp2p.{
  Libp2p, BehaviourEvent, SwarmEvent, connection_established, connection_closed, mdns_discovered,
  found_record, gossipsub_message, request_message, response_message, identify_received,
  other_behaviour,
}
use libre_drive.P2p.Node.{P2pNode}
use libre_drive.P2p.Node.Loop.{add_addresses, handle_behaviour_event, handle_event, run}
use libre_drive.P2p.Node.Connections.{
  Connections, open_count, Raises, opens, closes, reports, listens, other, Trace, begin, step,
  open_count-middle,
}

module _ {F : Type 0} (net : Libp2p F) where
  -- The peer is in the set.
  abbrev pub Listed : Str → P2pNode net → Type 0
  Listed p n = lookup p n.connected_peers ≡ some tt

  connected_peers-add_addresses :
      (peers : List (Str × net.Multiaddr)) (n : P2pNode net)
      → (add_addresses net peers n).connected_peers ≡ n.connected_peers
  unfolding add_addresses
  connected_peers-add_addresses [] n = refl
  connected_peers-add_addresses (e ∷ peers) n = connected_peers-add_addresses peers _

  pub connected_peers-behaviour :
      (e : BehaviourEvent net.Multiaddr F) (n : P2pNode net)
      → (handle_behaviour_event net e n).connected_peers ≡ n.connected_peers
  unfolding handle_behaviour_event
  connected_peers-behaviour (mdns_discovered peers) n = connected_peers-add_addresses peers n
  connected_peers-behaviour (found_record k v) n = refl
  connected_peers-behaviour (gossipsub_message m s) n = refl
  connected_peers-behaviour (request_message p r) n = refl
  connected_peers-behaviour (response_message p r) n = refl
  connected_peers-behaviour (identify_received p addrs) n =
      connected_peers-add_addresses (map (λ addr. (p, addr)) addrs) n
  connected_peers-behaviour other_behaviour n = refl

  -- The peers that are listed have a connection.
  abbrev AreOpen : P2pNode net → Connections → Type 0
  AreOpen n cs = (p : Str) → Listed p n → 0 < open_count p cs

  handle-AreOpen :
      {limit : ℕ} {a b : Connections} {e : SwarmEvent net.Multiaddr F}
      → Raises net.Multiaddr F limit a e b
      → (n : P2pNode net) → AreOpen n a
      → AreOpen (handle_event net e n) b
  unfolding handle_event open_count
  handle-AreOpen (opens p i cs few) n inv q listed =
      ground (arith, lookup-insert p q tt n.connected_peers, inv q)
  handle-AreOpen (closes p i before after) n inv q listed =
      ground
        (arith, lookup-remove p q n.connected_peers, inv q, open_count-middle q p i before after)
  handle-AreOpen (reports e cs) n inv q listed =
      inv q (rw (sym (connected_peers-behaviour e n)) listed)
  handle-AreOpen (listens addr cs) n inv q listed = inv q listed
  handle-AreOpen (other cs) n inv q listed = inv q listed

  run-AreOpen :
      {limit : ℕ} {a b : Connections} {es : List (SwarmEvent net.Multiaddr F)}
      → Trace net.Multiaddr F limit a es b
      → (n : P2pNode net) → AreOpen n a
      → AreOpen (run net es n) b
  unfolding run
  run-AreOpen (begin cs) n inv = inv
  run-AreOpen (step r t) n inv = run-AreOpen t _ (handle-AreOpen r _ inv)

  -- Every listed peer has an open connection, however many connections with one peer are allowed.
  pub Listed-open_count :
      (limit : ℕ) {cs : Connections} {es : List (SwarmEvent net.Multiaddr F)} (n : P2pNode net)
      → n.connected_peers ≡ []
      → Trace net.Multiaddr F limit [] es cs
      → (p : Str) → Listed p (run net es n)
      → 0 < open_count p cs
  unfolding lookup
  Listed-open_count limit n nobody t =
      run-AreOpen t n
        λ q listed. let unlisted : lookup q n.connected_peers ≡ none = rw nobody refl in cc

  -- One connection with a peer at most, and those with one are listed.
  record AreListed (n : P2pNode net) (cs : Connections) (p : Str) : Type 0 where
    at_most_one : open_count p cs ≤ 1
    in_set : 0 < open_count p cs → Listed p n

  handle-AreListed :
      {a b : Connections} {e : SwarmEvent net.Multiaddr F}
      → Raises net.Multiaddr F 1 a e b
      → (n : P2pNode net) → ((p : Str) → AreListed n a p)
      → (p : Str) → AreListed (handle_event net e n) b p
  unfolding handle_event open_count
  handle-AreListed (opens p i cs few) n inv q =
      let h = inv q in
      record {
        at_most_one = ground (arith, h.at_most_one, str_eq_iff p q, few);
        in_set = λ some_open.
            ground (arith, lookup-insert p q tt n.connected_peers, h.in_set, some_open);
      }
  handle-AreListed (closes p i before after) n inv q =
      let h = inv q in
      record {
        at_most_one = ground (arith, h.at_most_one, open_count-middle q p i before after);
        in_set = λ some_open. ground (
          arith,
          lookup-remove p q n.connected_peers,
          h.in_set,
          h.at_most_one,
          some_open,
          open_count-middle q p i before after,
        );
      }
  handle-AreListed (reports e cs) n inv q = record {
    at_most_one = (inv q).at_most_one;
    in_set = λ some_open. rw (connected_peers-behaviour e n) ((inv q).in_set some_open);
  }
  handle-AreListed (listens addr cs) n inv q = record {
    at_most_one = (inv q).at_most_one;
    in_set = (inv q).in_set;
  }
  handle-AreListed (other cs) n inv q = record {
    at_most_one = (inv q).at_most_one;
    in_set = (inv q).in_set;
  }

  run-AreListed :
      {a b : Connections} {es : List (SwarmEvent net.Multiaddr F)}
      → Trace net.Multiaddr F 1 a es b
      → (n : P2pNode net) → ((p : Str) → AreListed n a p)
      → (p : Str) → AreListed (run net es n) b p
  unfolding run
  run-AreListed (begin cs) n inv = inv
  run-AreListed (step r t) n inv = run-AreListed t _ (
      handle-AreListed r _
        λ p. record { at_most_one = (inv p).at_most_one; in_set = (inv p).in_set })

  open_count-Listed :
      {cs : Connections} {es : List (SwarmEvent net.Multiaddr F)} (n : P2pNode net)
      → Trace net.Multiaddr F 1 [] es cs
      → (p : Str) → 0 < open_count p cs
      → Listed p (run net es n)
  unfolding open_count
  open_count-Listed n t p some_open =
      (run-AreListed t n (λ q. record { at_most_one = omega arith; in_set = λ h. ground arith })
          p).in_set
        some_open

  -- When the swarm keeps at most one connection with a peer, a node that lists no peer at first lists,
  -- after any run, exactly the peers that have an open connection.
  pub Listed-iff-open_count :
      {cs : Connections} {es : List (SwarmEvent net.Multiaddr F)} (n : P2pNode net)
      → n.connected_peers ≡ []
      → Trace net.Multiaddr F 1 [] es cs
      → (p : Str) → Listed p (run net es n) ↔ (0 < open_count p cs)
  Listed-iff-open_count n nobody t p = (Listed-open_count 1 n nobody t p, open_count-Listed n t p)

  -- Where two connections with a peer are allowed, there are events, for any node, peer and two
  -- connections, after which the peer has the first connection open and is not listed: the second was
  -- closed.
  pub second_connection-unlisted :
      (n : P2pNode net) (p : Str) (i j : ℕ)
      → (es : List (SwarmEvent net.Multiaddr F)) × Trace net.Multiaddr F 2 [] es ((i, p) ∷ [])
        × (open_count p ((i, p) ∷ []) ≡ 1)
        × (lookup p (run net es n).connected_peers ≡ none)
  unfolding run handle_event open_count
  second_connection-unlisted n p i j = (
    connection_established p i
        ∷ connection_established p j
        ∷ connection_closed p j (open_count p ((i, p) ∷ []))
        ∷ [],
    step (opens p i [] (omega arith)) (
        step (opens p j ((i, p) ∷ []) (ground (arith, str_eq_refl p)))
          (step (closes p j [] ((i, p) ∷ [])) (begin ((i, p) ∷ [])))),
    ground (arith, str_eq_refl p),
    lookup-remove p p _ ∙ ground (arith, str_eq_refl p),
  )
