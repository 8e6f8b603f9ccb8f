-- ===== src/CloudNode.antt =====
-- rust_core/src/lib.rs: the node that an application creates or recovers. The message of an
-- `std::io::Error` stands for it.
use libre_drive.Prelude.{ℕ, ◌*◌, ◌/◌, Bool, true, Option, List, []}
use libre_drive.Prelude.Result.{Result, ok, ◌>>=◌, ◌>>◌, map_err}
use libre_drive.Prelude.Text.{Bytes, Str, text}
use libre_drive.Identity.Library.{IdentityLib}
use libre_drive.Identity.{IdentityError, UserIdentity}
use libre_drive.Identity
use libre_drive.Identity.SeedPhrase.{Bip39, generate}
use libre_drive.Identity.SeedPhrase
use libre_drive.Crypto.{CryptoError}
use libre_drive.P2p.{P2pError}
use libre_drive.Storage.{StorageError}
pub mod Recovery

-- `CloudP2PError`
pub data CloudP2pError : Type 0 where
  crypto : CryptoError → CloudP2pError
  identity : IdentityError → CloudP2pError
  p2p : P2pError → CloudP2pError
  storage : StorageError → CloudP2pError
  serialization : Str → CloudP2pError
  io : Str → CloudP2pError

-- `CloudP2PConfig`
pub record CloudP2pConfig : Type 0 where
  pub storage_offered_bytes : ℕ
  pub storage_quota_bytes : ℕ
  pub expiration_days : ℕ
  pub bootstrap_nodes : List Str
  pub data_path : Str
  pub enable_relay : Bool
  pub enable_mdns : Bool

-- `CloudP2PConfig::default`
unfoldable pub default_config : CloudP2pConfig
default_config = record {
  storage_offered_bytes = 10 * 1024 * 1024 * 1024;
  storage_quota_bytes = 10 * 1024 * 1024 * 1024;
  expiration_days = 90;
  bootstrap_nodes = [];
  data_path = text "./cloudp2p_data";
  enable_relay = true;
  enable_mdns = true;
}

-- `CloudP2PNode`
pub record CloudP2pNode : Type 0 where
  pub identity : UserIdentity
  pub config : CloudP2pConfig

module _ (bip : Bip39) (lib : IdentityLib) where
  -- `CloudP2PNode::from_seed_phrase`
  unfoldable pub from_seed_phrase :
      Str → Option Str → CloudP2pConfig → Result CloudP2pError CloudP2pNode
  from_seed_phrase seed_phrase password config = do
    user ← map_err identity (SeedPhrase.from_seed_phrase bip lib seed_phrase password)
    ok (record { identity = user; config = config })

  -- `CloudP2PNode::new`; `random n` is what the generator puts into n bytes.
  unfoldable pub new :
      (ℕ → Bytes) → Option Str → CloudP2pConfig → Result CloudP2pError (CloudP2pNode × Str)
  new random password config = do
    (user, seed_phrase) ← map_err identity (generate bip lib random password)
    ok (record { identity = user; config = config }, seed_phrase)

-- `CloudP2PNode::public_id`
abbrev pub public_id : IdentityLib → CloudP2pNode → Str
public_id lib node = Identity.public_id lib node.identity
