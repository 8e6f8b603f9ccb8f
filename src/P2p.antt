-- ===== src/P2p.antt =====
-- rust_core/src/p2p/: the storage of fragments for other peers, the protocol's messages, and the
-- choice of peers.
use libre_drive.Prelude.Text.{Str}
pub mod Disk
pub mod Discovery
pub mod Protocol
pub mod Messages
pub mod Libp2p
pub mod Node
pub mod StorageManager

-- mod.rs: `P2PError`.
pub data P2pError : Type 0 where
  initialization_failed : Str → P2pError
  connection_failed : Str → P2pError
  peer_not_found : Str → P2pError
  transport : Str → P2pError
  protocol : Str → P2pError
  dht : Str → P2pError
  timeout : P2pError
