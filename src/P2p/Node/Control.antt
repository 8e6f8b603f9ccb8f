-- ===== src/P2p/Node/Control.antt =====
-- p2p/node.rs: the commands to a node.
use libre_drive.Prelude.{ℕ, Option, none, some, List, [], ◌∷◌}
use libre_drive.Prelude.Result.{Result, ok, err, panic, map_err}
use libre_drive.Prelude.Text.{Bytes, Str, text}
use libre_drive.P2p.{P2pError, transport, protocol, dht}
use libre_drive.P2p.Messages.{StorageRequest}
use libre_drive.P2p.Libp2p.{
  Libp2p, Protocol, p2p, other_protocol, Command, listen_on, add_address, bootstrap, subscribe,
  publish_message, put_record, get_record, send_request,
}
use libre_drive.P2p.Node.{P2pNode, P2pNodeConfig, tell}

-- The `find_map` of `extract_peer_id`
abbrev pub first_peer : List Protocol → Option Str
first_peer [] = none
first_peer (p2p peer_id ∷ ps) = some peer_id
first_peer (other_protocol ∷ ps) = first_peer ps

module _ {F : Type 0} (net : Libp2p F) where
  -- What a method returns, with the node that it leaves.
  abbrev pub Outcome : Type 0
  Outcome = Result P2pError (Unit {0}) × P2pNode net

  -- The `?` after a call: what follows runs on the node that the call left.
  abbrev pub and_then : Outcome → (P2pNode net → Outcome) → Outcome
  and_then (ok u, n) next = next n
  and_then (err e, n) next = (err e, n)
  and_then (panic, n) next = (panic, n)

  -- A command, its error turned into one of the node's.
  unfoldable pub ask : (Str → P2pError) → Command net.Multiaddr → P2pNode net → Outcome
  ask error c n = (map_err error (net.answer n.swarm c), tell net c n)

  -- `extract_peer_id`
  abbrev pub extract_peer_id : net.Multiaddr → Option Str
  extract_peer_id addr = first_peer (net.protocols addr)

  -- `subscribe_to_topic`
  abbrev pub subscribe_to_topic : Str → P2pNode net → Outcome
  subscribe_to_topic topic n = ask protocol (subscribe topic) n

  -- `publish`
  abbrev pub publish : Str → Bytes → P2pNode net → Outcome
  publish topic contents n = ask protocol (publish_message topic contents) n

  -- `put_dht`
  abbrev pub put_dht : Bytes → Bytes → P2pNode net → Outcome
  put_dht key value n =
      ask dht (put_record (record { key = key; value = value; publisher = some n.local_peer_id })) n

  -- `get_dht`
  unfoldable pub get_dht : Bytes → P2pNode net → ℕ × P2pNode net
  get_dht key n = (net.handle n.swarm (get_record key), tell net (get_record key) n)

  -- `send_storage_request`
  unfoldable pub send_storage_request : Str → StorageRequest → P2pNode net → ℕ × P2pNode net
  send_storage_request peer request n =
      (net.handle n.swarm (send_request peer request), tell net (send_request peer request) n)

  -- The first loop of `start`
  unfoldable pub listen_all : List net.Multiaddr → P2pNode net → Outcome
  listen_all [] n = (ok tt, n)
  listen_all (addr ∷ addrs) n = and_then (ask transport (listen_on addr) n) (listen_all addrs)

  -- The body of the second loop of `start`
  abbrev pub add_bootstrap_node : Option Str → net.Multiaddr → P2pNode net → P2pNode net
  add_bootstrap_node none addr n = n
  add_bootstrap_node (some peer_id) addr n = tell net (add_address peer_id addr) n

  -- The second loop of `start`
  unfoldable pub add_bootstrap_nodes : List net.Multiaddr → P2pNode net → P2pNode net
  add_bootstrap_nodes [] n = n
  add_bootstrap_nodes (addr ∷ addrs) n =
      add_bootstrap_nodes addrs (add_bootstrap_node (extract_peer_id addr) addr n)

  -- The bootstrap of `start`
  unfoldable pub bootstrap_kademlia : List net.Multiaddr → P2pNode net → Outcome
  bootstrap_kademlia [] n = (ok tt, n)
  bootstrap_kademlia (addr ∷ addrs) n = ask dht bootstrap n

  -- `start`
  unfoldable pub start : P2pNodeConfig net.Multiaddr → P2pNode net → Outcome
  start config n = and_then (listen_all config.listen_addresses n) λ n.
      and_then
        (bootstrap_kademlia config.bootstrap_nodes (add_bootstrap_nodes config.bootstrap_nodes n))
        λ n. and_then (subscribe_to_topic (text "cloudp2p/heartbeats") n) λ n.
          and_then (subscribe_to_topic (text "cloudp2p/storage/offers") n)
            λ n. subscribe_to_topic (text "cloudp2p/storage/requests") n
