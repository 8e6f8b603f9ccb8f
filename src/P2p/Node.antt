-- ===== src/P2p/Node.antt =====
-- rust_core/src/p2p/node.rs: `P2PNode`. The swarm is what it has been through; the unbounded channel of
-- events is the list of those that were sent and not yet received.
use libre_drive.Prelude.{
  ℕ, ◌+◌, ◌-◌, ◌/◌, Bool, true, Option, none, List, [], ◌∷◌, ◌++◌, map, length,
}
use libre_drive.Prelude.Result.{Result, ok, ◌>>=◌, ◌>>◌, or_panic}
use libre_drive.Prelude.Text.{Bytes, Str, text}
use libre_drive.Prelude.Int.{ℤ}
use libre_drive.Prelude.Dict.{Dict}
use libre_drive.P2p.Messages.{StorageRequest, StorageResponse}
use libre_drive.P2p.Libp2p.{Libp2p, Happening, Command, given}
pub mod Build
pub mod Control
pub mod Loop
pub mod Startup
pub mod Isolation
pub mod Connections
pub mod Presence
pub mod Announced
pub mod Delivery

abbrev pub protocol_version : Str
protocol_version = text "/cloudp2p/1.0.0"

abbrev pub storage_protocol_name : Str
storage_protocol_name = text "/cloudp2p/storage/1.0.0"

-- `P2PNodeConfig`
pub record P2pNodeConfig (M : Type 0) : Type 0 where
  pub bootstrap_nodes : List M
  pub enable_mdns : Bool
  pub enable_relay : Bool
  pub listen_addresses : List M
  pub external_address : Option M

-- `P2PEvent`
pub data P2pEvent (M F : Type 0) : Type 0 where
  peer_connected : (peer : Str) → P2pEvent M F
  peer_disconnected : (peer : Str) → P2pEvent M F
  storage_request : (peer : Str) (request : StorageRequest) → P2pEvent M F
  storage_response : (peer : Str) (response : StorageResponse F) → P2pEvent M F
  gossip_message : (topic : Str) (contents : Bytes) (source : Option Str) → P2pEvent M F
  dht_value : (key value : Bytes) → P2pEvent M F
  network_status : (connected_peers : ℕ) (listening_addresses : List M) → P2pEvent M F
  listening : (address : M) → P2pEvent M F
  error_event : (message : Str) → P2pEvent M F

-- `PeerStorageInfo`
pub record PeerStorageInfo (F : Type 0) : Type 0 where
  pub offered : ℕ
  pub used : ℕ
  pub last_heartbeat : ℤ
  pub reputation : F

module _ {F : Type 0} (net : Libp2p F) where
  -- `P2PNode`; a set of peers is a map to `Unit`.
  pub record P2pNode : Type 0 where
    pub local_peer_id : Str
    pub swarm : List (Happening net.Multiaddr F)
    pub events : List (P2pEvent net.Multiaddr F)
    pub connected_peers : Dict (Unit {0})
    pub peer_storage_info : Dict (PeerStorageInfo F)

  -- `P2PNodeConfig::default`
  unfoldable pub default_config : Result Str (P2pNodeConfig net.Multiaddr)
  default_config = do
    tcp ← or_panic (net.parse_multiaddr (text "/ip4/0.0.0.0/tcp/0"))
    quic ← or_panic (net.parse_multiaddr (text "/ip4/0.0.0.0/udp/0/quic-v1"))
    ok (record {
      bootstrap_nodes = [];
      enable_mdns = true;
      enable_relay = true;
      listen_addresses = tcp ∷ quic ∷ [];
      external_address = none;
    })

  -- The swarm is given a command, whose answer is not used.
  abbrev pub tell : Command net.Multiaddr → P2pNode → P2pNode
  tell c n = record n { swarm = n.swarm ++ given c ∷ [] }

  -- self.event_tx.send(e)
  abbrev pub send : P2pEvent net.Multiaddr F → P2pNode → P2pNode
  send e n = record n { events = n.events ++ e ∷ [] }

  -- `connected_peers_count`
  abbrev pub connected_peers_count : P2pNode → ℕ
  connected_peers_count n = length n.connected_peers

  -- The method `connected_peers`
  abbrev pub list_connected_peers : P2pNode → List Str
  list_connected_peers n = map (λ e. e.0) n.connected_peers
