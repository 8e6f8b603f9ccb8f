-- ===== src/P2p/Node/Build.antt =====
-- p2p/node.rs: the key of a node and its construction.
use libre_drive.Prelude.{◌≡◌, refl, true, Option, none, some, []}
use libre_drive.Prelude.Result.{Result, ok, err, panic, ◌>>=◌, map_err, or_panic}
use libre_drive.Prelude.Text.{Str, text}
use libre_drive.Identity.Library.{IdentityLib}
use libre_drive.Identity.{UserIdentity}
use libre_drive.P2p.{P2pError, initialization_failed}
use libre_drive.P2p.Libp2p.{Libp2p, BehaviourSettings}
use libre_drive.P2p.Node.{P2pNode, protocol_version, storage_protocol_name}

-- format!("cloudp2p/{}", env!("CARGO_PKG_VERSION")), of the Cargo.toml here.
abbrev agent : Str
agent = text "cloudp2p/0.1.0"

abbrev pub settings : BehaviourSettings
settings = record {
  kad_protocol = protocol_version;
  kad_query_timeout = 60;
  kad_server = true;
  identify_protocol = protocol_version;
  agent_version = agent;
  gossip_heartbeat = 10;
  gossip_strict = true;
  storage_protocol = storage_protocol_name;
}

-- A result with a property, or a failed initialization, or a panic.
pub data Builds {A : Type 0} (P : A → Type 0) : Result P2pError A → Type 0 where
  built : (a : A) → P a → Builds P (ok a)
  refused : (m : Str) → Builds P (err (initialization_failed m))
  panicked : Builds P panic

-- With no property
abbrev Any : {A : Type 0} → A → Type 0
Any a = Unit

then-Builds :
    {A B : Type 0} {P : A → Type 0} {Q : B → Type 0} (r : Result P2pError A)
    (next : A → Result P2pError B)
    → Builds P r
    → ((a : A) → P a → Builds Q (next a))
    → Builds Q (r >>= next)
then-Builds _ next (built a p) k = k a p
then-Builds _ next (refused m) k = refused m
then-Builds _ next panicked k = panicked

map_err-Builds : {A : Type 0} (r : Result Str A) → Builds Any (map_err initialization_failed r)
map_err-Builds (ok a) = built a tt
map_err-Builds (err m) = refused m
map_err-Builds panic = panicked

or_panic-Builds : {A : Type 0} (o : Option A) → Builds Any (or_panic o)
or_panic-Builds none = panicked
or_panic-Builds (some a) = built a tt

module _ {F : Type 0} (net : Libp2p F) where
  -- `derive_libp2p_keypair`; a key pair is given by its secret key.
  unfoldable pub derive_libp2p_keypair : IdentityLib → UserIdentity → Result P2pError net.SecretKey
  derive_libp2p_keypair lib identity = do
    libp2p_seed ← map_err initialization_failed (
        lib.hkdf (text "cloudp2p-libp2p") identity.signing_keys.signing_key (text "libp2p-ed25519")
          32)
    map_err initialization_failed (net.secret_key libp2p_seed)

  -- The closure that `build_swarm` gives to `with_behaviour`: three constructors are expected to succeed.
  unfoldable pub make_behaviours : net.SecretKey → Result P2pError BehaviourSettings
  make_behaviours keypair = do
    mdns ← or_panic (net.mdns_new (net.peer_id_of keypair))
    config ← or_panic (net.gossipsub_config settings.gossip_heartbeat settings.gossip_strict)
    gossipsub ← or_panic (net.gossipsub_new keypair)
    ok settings

  -- `build_swarm`
  unfoldable pub build_swarm : net.SecretKey → Result P2pError net.Builder
  build_swarm keypair = do
    tcp ← map_err initialization_failed (net.with_tcp keypair)
    relayed ← map_err initialization_failed (net.with_relay_client (net.with_quic tcp))
    behaviours ← make_behaviours keypair
    complete ← map_err initialization_failed (net.with_behaviour relayed behaviours)
    ok (net.with_idle_connection_timeout 60 complete)

  -- `P2PNode::new`; the configuration is only handed to `build_swarm`, which does not read it.
  unfoldable pub new_node : IdentityLib → UserIdentity → Result P2pError (P2pNode net)
  new_node lib identity = do
    keypair ← derive_libp2p_keypair lib identity
    swarm ← build_swarm keypair
    ok (record {
      local_peer_id = net.peer_id_of keypair;
      swarm = [];
      events = [];
      connected_peers = [];
      peer_storage_info = [];
    })

  -- Nothing has happened to a node.
  pub record IsFresh (n : P2pNode net) : Type 0 where
    pub no_happening : n.swarm ≡ []
    pub no_event : n.events ≡ []
    pub no_peer : n.connected_peers ≡ []
    pub no_storage_info : n.peer_storage_info ≡ []

  make_behaviours-Builds : (keypair : net.SecretKey) → Builds Any (make_behaviours keypair)
  unfolding make_behaviours
  make_behaviours-Builds keypair =
      then-Builds _ _ (or_panic-Builds (net.mdns_new (net.peer_id_of keypair))) λ mdns p.
        then-Builds _ _ (or_panic-Builds (net.gossipsub_config _ _)) λ config p.
          then-Builds _ _ (or_panic-Builds (net.gossipsub_new keypair))
            λ gossipsub p. built settings tt

  build_swarm-Builds : (keypair : net.SecretKey) → Builds Any (build_swarm keypair)
  unfolding build_swarm
  build_swarm-Builds keypair = then-Builds _ _ (map_err-Builds (net.with_tcp keypair)) λ tcp p.
      then-Builds _ _ (map_err-Builds (net.with_relay_client (net.with_quic tcp))) λ relayed p.
        then-Builds _ _ (make_behaviours-Builds keypair) λ behaviours p.
          then-Builds _ _ (map_err-Builds (net.with_behaviour relayed behaviours))
            λ complete p. built _ tt

  -- `new` gives a fresh node, or fails with `InitializationFailed`, or panics; the outcome depends on
  -- nothing of the identity but its signing key.
  pub new_node-Builds :
      (lib : IdentityLib) (u v : UserIdentity)
      → u.signing_keys.signing_key ≡ v.signing_keys.signing_key
      → Builds IsFresh (new_node lib u) × (new_node lib u ≡ new_node lib v)
  unfolding new_node derive_libp2p_keypair
  new_node-Builds lib u v same = (
    then-Builds _ _
        (then-Builds _ _ (map_err-Builds (lib.hkdf _ _ _ _))
          λ seed p. map_err-Builds (net.secret_key seed))
        λ keypair p. then-Builds _ _ (build_swarm-Builds keypair) λ swarm q.
          built _ (record {
            no_happening = refl;
            no_event = refl;
            no_peer = refl;
            no_storage_info = refl;
          }),
    rw same,
  )
