-- ===== src/P2p/Node/Delivery.antt =====
-- p2p/node.rs: what a node tells its listener, and what it asks of the swarm.
use libre_drive.Prelude.{◌≡◌, refl, sym, ap, ◌∙◌, List, [], ◌∷◌, ◌++◌, append-nil, append_assoc}
use libre_drive.Prelude.Text.{Str}
use mathlib.Core.List.{map-append}
use libre_drive.P2p.Libp2p.{
  Libp2p, given, raised, add_address, SwarmEvent, new_listen_addr, connection_established,
  connection_closed, behaviour, other_event, mdns_discovered, found_record, gossipsub_message,
  request_message, response_message, identify_received, other_behaviour,
}
use libre_drive.P2p.Node.{P2pNode, tell}
use libre_drive.P2p.Node.Loop.{add_addresses, handle_behaviour_event, handle_event, run}
use libre_drive.P2p.Node.Announced.{
  collect, collect-append, collect-collect, told_request, told_response, arrived_request,
  arrived_response, found_addresses, added, command, replay, replay-append, announced,
  request_announced, response_announced,
}

-- What handling one event leaves
record Handled {F : Type 0} (net : Libp2p F) (e : SwarmEvent net.Multiaddr F) (n m : P2pNode net)
    : Type 0 where
  told : m.events ≡ n.events ++ announced e
  asked : collect command m.swarm ≡ collect command n.swarm ++ added (found_addresses e)
  peers : m.connected_peers ≡ replay (announced e) n.connected_peers

module _ {F : Type 0} (net : Libp2p F) where
  add_addresses-Adds :
      (addrs : List (Str × net.Multiaddr)) (n : P2pNode net)
      → ((add_addresses net addrs n).events ≡ n.events)
        × ((add_addresses net addrs n).connected_peers ≡ n.connected_peers)
        × (collect command (add_addresses net addrs n).swarm
            ≡ collect command n.swarm ++ added addrs)
  unfolding add_addresses collect
  add_addresses-Adds [] n = (refl, refl, sym (append-nil _))
  add_addresses-Adds ((p, a) ∷ addrs) n =
      let (told, peers, asked) = add_addresses-Adds addrs (tell net (add_address p a) n) in
      (
        told,
        peers,
        asked
            ∙ ap (λ r. r ++ added addrs)
                (collect-append command n.swarm (given (add_address p a) ∷ []))
            ∙ append_assoc (collect command n.swarm) (add_address p a ∷ []) (added addrs),
      )

  adds-Handled :
      (e : SwarmEvent net.Multiaddr F) (n : P2pNode net)
      → announced e ≡ []
      → Handled net e n (add_addresses net (found_addresses e) n)
  unfolding replay
  adds-Handled e n silent =
      let (told, peers, asked) = add_addresses-Adds (found_addresses e) n in
      record {
        told = told ∙ rw silent (sym (append-nil n.events));
        asked = asked;
        peers = rw silent peers;
      }

  quiet-Handled :
      (e : SwarmEvent net.Multiaddr F) (n m : P2pNode net)
      → m.events ≡ n.events ++ announced e
      → m.swarm ≡ n.swarm
      → found_addresses e ≡ []
      → m.connected_peers ≡ replay (announced e) n.connected_peers
      → Handled net e n m
  quiet-Handled e n m told same nothing peers = record {
    told = told;
    asked = ap (collect command) same ∙ rw nothing (sym (append-nil _));
    peers = peers;
  }

  handle_event-Handled :
      (e : SwarmEvent net.Multiaddr F) (n : P2pNode net) → Handled net e n (handle_event net e n)
  unfolding handle_event handle_behaviour_event replay
  handle_event-Handled (new_listen_addr address) n = quiet-Handled _ n _ refl refl refl refl
  handle_event-Handled (connection_established p i) n = quiet-Handled _ n _ refl refl refl refl
  handle_event-Handled (connection_closed p i left) n = quiet-Handled _ n _ refl refl refl refl
  handle_event-Handled (behaviour (found_record k v)) n = quiet-Handled _ n _ refl refl refl refl
  handle_event-Handled (behaviour (gossipsub_message m s)) n =
      quiet-Handled _ n _ refl refl refl refl
  handle_event-Handled (behaviour (request_message p r)) n = quiet-Handled _ n _ refl refl refl refl
  handle_event-Handled (behaviour (response_message p r)) n =
      quiet-Handled _ n _ refl refl refl refl
  handle_event-Handled (behaviour (mdns_discovered addrs)) n =
      adds-Handled (behaviour (mdns_discovered addrs)) n refl
  handle_event-Handled (behaviour (identify_received p addrs)) n =
      adds-Handled (behaviour (identify_received p addrs)) n refl
  handle_event-Handled (behaviour other_behaviour) n =
      quiet-Handled _ n _ (sym (append-nil _)) refl refl refl
  handle_event-Handled other_event n = quiet-Handled _ n _ (sym (append-nil _)) refl refl refl

  -- What a run of the loop leaves
  record Ran (es : List (SwarmEvent net.Multiaddr F)) (n m : P2pNode net) : Type 0 where
    told : m.events ≡ n.events ++ collect announced es
    asked : collect command m.swarm ≡ collect command n.swarm ++ added (collect found_addresses es)
    peers : m.connected_peers ≡ replay (collect announced es) n.connected_peers

  run-Ran : (es : List (SwarmEvent net.Multiaddr F)) (n : P2pNode net) → Ran es n (run net es n)
  unfolding run collect replay
  run-Ran [] n = record { told = sym (append-nil _); asked = sym (append-nil _); peers = refl }
  run-Ran (e ∷ es) n =
      let h = handle_event-Handled e (record n { swarm = n.swarm ++ raised e ∷ [] }) in
      let r = run-Ran es (handle_event net e (record n { swarm = n.swarm ++ raised e ∷ [] })) in
      record {
        told =
            r.told
            ∙ ap (λ t. t ++ collect announced es) h.told
            ∙ append_assoc n.events (announced e) _;
        asked =
            r.asked
            ∙ ap (λ t. t ++ added (collect found_addresses es))
                (h.asked
                  ∙ ap (λ t. t ++ added (found_addresses e))
                      (collect-append command n.swarm (raised e ∷ []) ∙ append-nil _))
            ∙ append_assoc (collect command n.swarm) _ _
            ∙ ap (λ t. collect command n.swarm ++ t) (sym (map-append _ (found_addresses e) _));
        peers =
            r.peers
            ∙ ap (replay (collect announced es)) h.peers
            ∙ sym (replay-append (announced e) _ n.connected_peers);
      }

  -- Whatever events the swarm raises, the listener is told of exactly the requests and the responses
  -- that arrive, each once and in their order, and the only commands that the swarm is given are to add
  -- the addresses that it found by mDNS or was told by an identified peer, in their order.
  pub run-delivers :
      (es : List (SwarmEvent net.Multiaddr F)) (n : P2pNode net)
      → (collect told_request (run net es n).events
          ≡ collect told_request n.events ++ collect arrived_request es)
        × (collect told_response (run net es n).events
            ≡ collect told_response n.events ++ collect arrived_response es)
        × (collect command (run net es n).swarm
            ≡ collect command n.swarm ++ added (collect found_addresses es))
  run-delivers es n =
      let r = run-Ran es n in
      (
        ap (collect told_request) r.told
            ∙ collect-append told_request n.events (collect announced es)
            ∙ ap (λ t. collect told_request n.events ++ t)
                (collect-collect announced told_request arrived_request es request_announced),
        ap (collect told_response) r.told
            ∙ collect-append told_response n.events (collect announced es)
            ∙ ap (λ t. collect told_response n.events ++ t)
                (collect-collect announced told_response arrived_response es response_announced),
        r.asked,
      )

  -- A listener who replays the events of connections knows the connected peers.
  pub replay-run :
      (es : List (SwarmEvent net.Multiaddr F)) (n : P2pNode net)
      → replay n.events [] ≡ n.connected_peers
      → replay (run net es n).events [] ≡ (run net es n).connected_peers
  replay-run es n before =
      let r = run-Ran es n in
      ap (λ t. replay t []) r.told
      ∙ replay-append n.events (collect announced es) []
      ∙ ap (replay (collect announced es)) before
      ∙ sym r.peers
