-- ===== src/Lib.antt =====
-- The storage core of LibreDrive: rust_core/src.
--
-- A file is encrypted in chunks, serialized, cut into shards by an erasure code, and the shards are
-- kept by other peers; a node keeps fragments for others within the space that it offers, and a quota
-- account says how much a user may upload. The files here follow the source:
--   Crypto/Encryption   rust_core/src/crypto/encryption.rs (EncryptionKey, FileEncryptor)
--   Crypto/Derivation   derive_file_key and derive_key_from_password
--   Crypto/Hashing      rust_core/src/crypto/hashing.rs (ContentHash, IncrementalHasher); Reading:
--                       hash_file_chunked; Merkle: MerkleTree
--   Identity            rust_core/src/identity/mod.rs (UserIdentity, HeartbeatMessage); SeedPhrase: seed.rs and
--                       the creation and recovery of an identity; Keys: keys.rs
--   Storage/Erasure     rust_core/src/storage/erasure.rs (ErasureEncoder, ErasureDecoder)
--   Storage/FileManager rust_core/src/storage/file_manager.rs (prepare_upload, reconstruct_file); Index:
--                       the operations on the file index; Progress: the progress channels
--   Storage/Quota       rust_core/src/storage/quota.rs (UserQuota in User, QuotaManager); History:
--                       histories of calls
--   P2p/StorageManager  rust_core/src/p2p/storage_protocol.rs (StorageManager); Actions: the methods as
--                       actions on the manager and the disk; Calls: histories of calls;
--                       View: what the calls mean on a store without disk, index and space;
--                       Restart: a node that is started on the files of another; Names: what
--                       serde and the file system are relied on
--   P2p/Discovery       rust_core/src/p2p/discovery.rs (PeerInfo, PeerManager); Blacklist: histories of
--                       calls
--   P2p/Protocol        rust_core/src/p2p/protocol.rs (StorageContract); Reading: reading back its numbers
--   P2p/Messages        rust_core/src/p2p/protocol.rs (requests, responses, FragmentMetadata)
--   P2p/Node            rust_core/src/p2p/node.rs (P2PNode); Build: new; Control: start and the commands;
--                       Loop: run; Connections: what a swarm may raise
--   P2p/Libp2p          what node.rs uses of libp2p
--   CloudNode           rust_core/src/lib.rs (CloudP2PNode)
--   P2p/Disk            what storage_protocol.rs uses of tokio::fs, with a script of failures and lies
--   Durability          an upload whose shards are kept by nodes: the file manager over the storage manager
--   Prelude             shared notation, lists, text, machine words, i64, maps, results, chunks
--   Tests               concrete parts and examples
-- Functions keep the names of the source; where one name stands for several methods, the comment above
-- the definition names the method. A field `data` is `contents`, `UserQuota::can_upload` is
-- `user_can_upload`, `FileManager::search` is `search_files`.
--
-- Parameters, with their documented behaviour as hypotheses: aes_gcm (Aead), blake3, hex and bs58
-- (HashLib), hkdf, sha2 and ed25519_dalek (IdentityLib), bip39 (Bip39), argon2 and base64
-- (PasswordLib), libp2p (Libp2p), reed_solomon_erasure (ReedSolomon), bincode and
-- mime_guess (Externals), serde_json (functions to_json and from_json), std::io::Read (Reader), the
-- operating system's resolution of paths (`file_of` of Crates), f64 (Floats), f32 (Scores),
-- to_lowercase.
-- Random bytes, the time and what a file or reader gives are arguments.
--
-- Conventions: u64 and usize are natural numbers that wrap around at 2^64 (release mode), i64 are the
-- integers of Prelude/Int wrapped at 2^63; the length of a buffer in memory is a plain number. A result has a
-- third case for a panic. A map is an association list; the order of a HashMap is that order. A file on
-- the disk is named by what the parameter `file_of` makes of its path below the storage path: two paths
-- may lead to one file. `Works` says that paths of plain names (ids of letters, digits, - and _) do not.
--
-- Recursion: `chunks` runs on the length of the list, `levels` (the loop of compute_root) on the number
-- of leaves, both enough; `hash_reads` on a number of rounds, of which more than there are bytes to read
-- are enough; `show` prints the 20 digits that a u64 can have.
--
-- The swarm of libp2p is the list of what has happened to it, the commands that it was given and the
-- events that it raised, and its answers are a function of that list; tasks and channels are that order
-- of events and a list of those not yet received.
--
-- Not modelled: the accessors that only return a field, `set_identity` (the value is never read), the
-- ratios that are only reported, directories (a call that fails because of one is a failure of the
-- disk), the fields of libp2p's events that no handler reads, and the Flutter application.

pub mod Prelude
pub mod Crypto
pub mod Tests
pub mod Storage
pub mod Identity
pub mod P2p
pub mod CloudNode
pub mod Durability
