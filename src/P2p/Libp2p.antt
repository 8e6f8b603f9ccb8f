-- ===== src/P2p/Libp2p.antt =====
-- What p2p/node.rs uses of libp2p: the events that the swarm raises, the commands that it is given, and
-- the parameter `Libp2p`. A peer is named by the bytes of its id; an event keeps what its handler reads
-- and, of a connection, which one it is and how many the peer has left.
use libre_drive.Prelude.{ℕ, Bool, Option, List}
use libre_drive.Prelude.Result.{Result}
use libre_drive.Prelude.Text.{Bytes, Str}
use libre_drive.P2p.Messages.{StorageRequest, StorageResponse}

-- What node.rs tells apart of the protocols in an address.
pub data Protocol : Type 0 where
  p2p : (peer_id : Str) → Protocol
  other_protocol : Protocol

pub record GossipMessage : Type 0 where
  pub source : Option Str
  pub topic : Str
  pub contents : Bytes

-- `CloudP2PBehaviourEvent`, as far as it is handled.
pub data BehaviourEvent (M F : Type 0) : Type 0 where
  mdns_discovered : (peers : List (Str × M)) → BehaviourEvent M F
  found_record : (key value : Bytes) → BehaviourEvent M F
  gossipsub_message : (message : GossipMessage) (propagation_source : Str) → BehaviourEvent M F
  request_message : (peer : Str) (request : StorageRequest) → BehaviourEvent M F
  response_message : (peer : Str) (response : StorageResponse F) → BehaviourEvent M F
  identify_received : (peer_id : Str) (listen_addrs : List M) → BehaviourEvent M F
  other_behaviour : BehaviourEvent M F

pub data SwarmEvent (M F : Type 0) : Type 0 where
  new_listen_addr : (address : M) → SwarmEvent M F
  connection_established : (peer_id : Str) (connection_id : ℕ) → SwarmEvent M F
  connection_closed : (peer_id : Str) (connection_id num_established : ℕ) → SwarmEvent M F
  behaviour : BehaviourEvent M F → SwarmEvent M F
  other_event : SwarmEvent M F

-- `kad::Record`, without the expiry, which is never set.
pub record DhtRecord : Type 0 where
  pub key : Bytes
  pub value : Bytes
  pub publisher : Option Str

pub data Command (M : Type 0) : Type 0 where
  listen_on : M → Command M
  add_address : (peer_id : Str) (address : M) → Command M
  bootstrap : Command M
  subscribe : (topic : Str) → Command M
  publish_message : (topic : Str) (contents : Bytes) → Command M
  put_record : DhtRecord → Command M
  get_record : (key : Bytes) → Command M
  send_request : (peer : Str) (request : StorageRequest) → Command M

-- What the swarm has been through: it was given a command, or it raised an event.
pub data Happening (M F : Type 0) : Type 0 where
  given : Command M → Happening M F
  raised : SwarmEvent M F → Happening M F

-- The settings that the builder gets for the behaviours.
pub record BehaviourSettings : Type 0 where
  pub kad_protocol : Str
  pub kad_query_timeout : ℕ
  pub kad_server : Bool
  pub identify_protocol : Str
  pub agent_version : Str
  pub gossip_heartbeat : ℕ
  pub gossip_strict : Bool
  pub storage_protocol : Str

-- The answers of the swarm depend on all that it has been through. `mdns_new`, `gossipsub_config` and
-- `gossipsub_new` have no value where the source's `expect` panics.
pub record Libp2p (F : Type 0) : Type 1 where
  pub Multiaddr : Type 0
  pub parse_multiaddr : Str → Option Multiaddr
  pub protocols : Multiaddr → List Protocol
  pub SecretKey : Type 0
  pub secret_key : Bytes → Result Str SecretKey
  pub peer_id_of : SecretKey → Str
  pub Builder : Type 0
  pub with_tcp : SecretKey → Result Str Builder
  pub with_quic : Builder → Builder
  pub with_relay_client : Builder → Result Str Builder
  pub mdns_new : Str → Option (Unit {0})
  pub gossipsub_config : ℕ → Bool → Option (Unit {0})
  pub gossipsub_new : SecretKey → Option (Unit {0})
  pub with_behaviour : Builder → BehaviourSettings → Result Str Builder
  pub with_idle_connection_timeout : ℕ → Builder → Builder
  pub answer : List (Happening Multiaddr F) → Command Multiaddr → Result Str (Unit {0})
  pub handle : List (Happening Multiaddr F) → Command Multiaddr → ℕ
