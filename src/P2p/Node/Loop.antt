-- ===== src/P2p/Node/Loop.antt =====
-- p2p/node.rs: the event loop.
use libre_drive.Prelude.{some, List, [], ◌∷◌, ◌++◌, map}
use libre_drive.Prelude.Text.{Str}
use libre_drive.Prelude.Dict.{insert, remove}
use libre_drive.P2p.Libp2p.{
  Libp2p, raised, add_address, BehaviourEvent, mdns_discovered, found_record, gossipsub_message,
  request_message, response_message, identify_received, other_behaviour, SwarmEvent,
  new_listen_addr, connection_established, connection_closed, behaviour, other_event,
}
use libre_drive.P2p.Node.{
  P2pNode, peer_connected, peer_disconnected, storage_request, storage_response, gossip_message,
  dht_value, listening, tell, send,
}

module _ {F : Type 0} (net : Libp2p F) where
  -- for (peer_id, addr) in peers { kademlia.add_address(&peer_id, addr) }
  unfoldable pub add_addresses : List (Str × net.Multiaddr) → P2pNode net → P2pNode net
  add_addresses [] n = n
  add_addresses ((peer_id, addr) ∷ peers) n =
      add_addresses peers (tell net (add_address peer_id addr) n)

  -- `handle_behaviour_event`; a request is announced, and its channel is dropped.
  unfoldable pub handle_behaviour_event : BehaviourEvent net.Multiaddr F → P2pNode net → P2pNode net
  handle_behaviour_event (mdns_discovered peers) n = add_addresses peers n
  handle_behaviour_event (found_record key value) n = send net (dht_value key value) n
  handle_behaviour_event (gossipsub_message message propagation_source) n =
      send net (gossip_message message.topic message.contents (some propagation_source)) n
  handle_behaviour_event (request_message peer request) n =
      send net (storage_request peer request) n
  handle_behaviour_event (response_message peer response) n =
      send net (storage_response peer response) n
  handle_behaviour_event (identify_received peer_id listen_addrs) n =
      add_addresses (map (λ addr. (peer_id, addr)) listen_addrs) n
  handle_behaviour_event other_behaviour n = n

  -- The body of the loop of `run`
  unfoldable pub handle_event : SwarmEvent net.Multiaddr F → P2pNode net → P2pNode net
  handle_event (new_listen_addr address) n = send net (listening address) n
  handle_event (connection_established peer_id i) n =
      send net (peer_connected peer_id)
        (record n { connected_peers = insert peer_id tt n.connected_peers })
  handle_event (connection_closed peer_id i left) n =
      send net (peer_disconnected peer_id)
        (record n { connected_peers = remove peer_id n.connected_peers })
  handle_event (behaviour event) n = handle_behaviour_event event n
  handle_event other_event n = n

  -- `run`, for as long as the swarm raises these events.
  unfoldable pub run : List (SwarmEvent net.Multiaddr F) → P2pNode net → P2pNode net
  run [] n = n
  run (e ∷ es) n = run es (handle_event e (record n { swarm = n.swarm ++ raised e ∷ [] }))
