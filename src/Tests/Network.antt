-- ===== src/Tests/Network.antt =====
-- A small swarm that answers as libp2p does where the examples need it, and the examples of a node.
use libre_drive.Prelude.{
  ℕ, ◌<◌, ◌≡◌, refl, ◌↔◌, Bool, true, false, none, some, List, [], ◌∷◌, ◌++◌, arith, if◌then◌else◌,
  length,
}
use libre_drive.Prelude.Result.{Result, ok, err}
use libre_drive.Prelude.Text.{Bytes, Str, text, str_eq}
use libre_drive.Prelude.Dict.{lookup}
use libre_drive.P2p.{dht}
use libre_drive.P2p.Messages.{get_storage_info, deleted}
use libre_drive.P2p.Libp2p.{
  Libp2p, Protocol, p2p, other_protocol, Happening, given, Command, add_address, bootstrap,
  SwarmEvent, connection_established, connection_closed, behaviour, request_message,
  response_message, mdns_discovered,
}
use libre_drive.P2p.Node.{P2pNode, P2pNodeConfig}
use libre_drive.P2p.Node.Control.{start}
use libre_drive.P2p.Node.Loop.{run}
use libre_drive.P2p.Node.Startup.{Gives, plan, start-Gives}
use libre_drive.P2p.Node.Isolation.{told_to_listen, start-isolated}
use libre_drive.P2p.Node.Connections.{open_count, opens, closes, Trace, begin, step}
use libre_drive.P2p.Node.Presence.{Listed, Listed-iff-open_count, second_connection-unlisted}
use libre_drive.P2p.Node.Announced.{
  collect, told_request, told_response, arrived_request, arrived_response, found_addresses, added,
  command,
}
use libre_drive.P2p.Node.Delivery.{run-delivers}

-- Whether the swarm was told of a peer
abbrev knows_peer : {M F : Type 0} → List (Happening M F) → Bool
knows_peer [] = false
knows_peer (given (add_address p a) ∷ hs) = true
knows_peer (_ ∷ hs) = knows_peer hs

abbrev bootstrapped : {M F : Type 0} → List (Happening M F) → Command M → Result Str (Unit {0})
bootstrapped log bootstrap = if knows_peer log then ok tt else err (text "No known peers.")
bootstrapped log c = ok tt

-- An address is its list of protocols, and f32 is ℕ.
abbrev small_net : Libp2p ℕ
small_net = record {
  Multiaddr = List Protocol;
  parse_multiaddr = λ s. some (other_protocol ∷ other_protocol ∷ []);
  protocols = λ a. a;
  SecretKey = Bytes;
  secret_key = λ b. ok b;
  peer_id_of = λ k. k;
  Builder = Unit;
  with_tcp = λ k. ok tt;
  with_quic = λ b. b;
  with_relay_client = λ b. ok b;
  mdns_new = λ p. some tt;
  gossipsub_config = λ n b. some tt;
  gossipsub_new = λ k. some tt;
  with_behaviour = λ b s. ok b;
  with_idle_connection_timeout = λ n b. b;
  answer = bootstrapped;
  handle = λ log c. length log;
}

abbrev local_address : List Protocol
local_address = other_protocol ∷ other_protocol ∷ []

abbrev bob_address : List Protocol
bob_address = other_protocol ∷ p2p (text "bob") ∷ []

abbrev idle_node : P2pNode small_net
idle_node = record {
  local_peer_id = text "alice";
  swarm = [];
  events = [];
  connected_peers = [];
  peer_storage_info = [];
}

abbrev config_of : List (List Protocol) → P2pNodeConfig (List Protocol)
config_of bootstrap_nodes = record {
  bootstrap_nodes = bootstrap_nodes;
  enable_mdns = true;
  enable_relay = true;
  listen_addresses = local_address ∷ [];
  external_address = none;
}

start-Gives_example :
    Gives small_net
      (plan small_net (config_of (bob_address ∷ [])))
      idle_node
      (start small_net (config_of (bob_address ∷ [])) idle_node)
start-Gives_example = start-Gives small_net (config_of (bob_address ∷ [])) idle_node

lonely :
    (addrs : List (List Protocol))
    → bootstrapped (told_to_listen small_net addrs) bootstrap ≡ err (text "No known peers.")
lonely [] = refl
lonely (a ∷ addrs) = lonely addrs

start-isolated_example :
    (m : Str) × (start small_net (config_of (local_address ∷ [])) idle_node ≡ (
      err (dht m),
      record idle_node {
        swarm = told_to_listen small_net (local_address ∷ []) ++ given bootstrap ∷ [];
      },
    ))
start-isolated_example =
    start-isolated small_net (config_of (local_address ∷ [])) idle_node local_address [] refl refl
      (refl, tt) (λ log. (refl, tt)) (λ addrs. (text "No known peers.", lonely addrs))

abbrev some_events : List (SwarmEvent (List Protocol) ℕ)
some_events =
    connection_established (text "bob") 0
    ∷ behaviour (request_message (text "bob") get_storage_info)
    ∷ behaviour (mdns_discovered ((text "carol", local_address) ∷ []))
    ∷ behaviour (response_message (text "bob") (deleted (text "abc") []))
    ∷ []

run-delivers_example :
    (collect told_request (run small_net some_events idle_node).events
      ≡ [] ++ collect arrived_request some_events)
    × (collect told_response (run small_net some_events idle_node).events
        ≡ [] ++ collect arrived_response some_events)
    × (collect command (run small_net some_events idle_node).swarm
        ≡ [] ++ added (collect found_addresses some_events))
unfolding collect
run-delivers_example = run-delivers small_net some_events idle_node

abbrev two_peers : List (SwarmEvent (List Protocol) ℕ)
two_peers =
    connection_established (text "bob") 0
    ∷ connection_established (text "carol") 1
    ∷ connection_closed (text "bob") 0 0
    ∷ []

two_peers-Trace : Trace (List Protocol) ℕ 1 [] two_peers ((1, text "carol") ∷ [])
unfolding open_count str_eq
two_peers-Trace = step (opens (text "bob") 0 [] (omega arith)) (
    step (opens (text "carol") 1 ((0, text "bob") ∷ []) (omega arith))
      (step (closes (text "bob") 0 ((1, text "carol") ∷ []) []) (begin ((1, text "carol") ∷ []))))

Listed-iff-open_count_example :
    Listed small_net (text "carol") (run small_net two_peers idle_node)
    ↔ (0 < open_count (text "carol") ((1, text "carol") ∷ []))
Listed-iff-open_count_example =
    Listed-iff-open_count small_net idle_node refl two_peers-Trace (text "carol")

second_connection-unlisted_example :
    (es : List (SwarmEvent (List Protocol) ℕ)) × Trace
      (List Protocol)
      ℕ
      2
      []
      es
      ((0, text "bob") ∷ [])
    × (open_count (text "bob") ((0, text "bob") ∷ []) ≡ 1)
    × (lookup (text "bob") (run small_net es idle_node).connected_peers ≡ none)
second_connection-unlisted_example = second_connection-unlisted small_net idle_node (text "bob") 0 1
