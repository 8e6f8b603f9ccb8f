-- ===== src/P2p/Node/Startup.antt =====
-- p2p/node.rs: what `start` does, as a list of commands.
use libre_drive.Prelude.{
  ◌≡◌, refl, sym, subst, Option, none, some, List, [], ◌∷◌, ◌++◌, map, append_assoc,
}
use libre_drive.Prelude.Result.{Result, ok, err, panic, map_err}
use libre_drive.Prelude.Text.{Str, text}
use libre_drive.P2p.{P2pError, transport, protocol, dht}
use libre_drive.P2p.Libp2p.{
  Libp2p, Happening, Command, listen_on, add_address, bootstrap, subscribe, publish_message,
  put_record, get_record, send_request,
}
use libre_drive.P2p.Node.{P2pNode, P2pNodeConfig, tell}
use libre_drive.P2p.Node.Control.{
  Outcome, and_then, ask, extract_peer_id, add_bootstrap_node, listen_all, add_bootstrap_nodes,
  bootstrap_kademlia, subscribe_to_topic, start,
}

module _ {F : Type 0} (net : Libp2p F) where
  -- The outcome of one command as the node reports it; some answers are not looked at.
  abbrev pub reply :
      List (Happening net.Multiaddr F) → Command net.Multiaddr → Result P2pError (Unit {0})
  reply log (listen_on a) = map_err transport (net.answer log (listen_on a))
  reply log bootstrap = map_err dht (net.answer log bootstrap)
  reply log (subscribe t) = map_err protocol (net.answer log (subscribe t))
  reply log (publish_message t xs) = map_err protocol (net.answer log (publish_message t xs))
  reply log (put_record r) = map_err dht (net.answer log (put_record r))
  reply log (add_address p a) = ok tt
  reply log (get_record k) = ok tt
  reply log (send_request p r) = ok tt

  -- Commands are given in turn until one fails: the outcome is that failure, and the node has been
  -- given the commands up to that one, and is otherwise as it was.
  pub data Gives : List (Command net.Multiaddr) → P2pNode net → Outcome net → Type 0 where
    finished : {n : P2pNode net} → Gives [] n (ok tt, n)
    succeeds :
        {n : P2pNode net} {c : Command net.Multiaddr} {cs : List (Command net.Multiaddr)}
        {o : Outcome net}
        → reply n.swarm c ≡ ok tt
        → Gives cs (tell net c n) o
        → Gives (c ∷ cs) n o
    fails :
        {n : P2pNode net} {c : Command net.Multiaddr} {cs : List (Command net.Multiaddr)}
        {e : P2pError}
        → reply n.swarm c ≡ err e
        → Gives (c ∷ cs) n (err e, tell net c n)
    panics :
        {n : P2pNode net} {c : Command net.Multiaddr} {cs : List (Command net.Multiaddr)}
        → reply n.swarm c ≡ panic
        → Gives (c ∷ cs) n (panic, tell net c n)

  abbrev pub known : net.Multiaddr → Option Str → List (Command net.Multiaddr)
  known a none = []
  known a (some p) = add_address p a ∷ []

  -- The peers that the addresses of the bootstrap nodes name
  unfoldable pub known_nodes : List net.Multiaddr → List (Command net.Multiaddr)
  known_nodes [] = []
  known_nodes (a ∷ addrs) = known a (extract_peer_id net a) ++ known_nodes addrs

  unfoldable pub bootstraps : List net.Multiaddr → List (Command net.Multiaddr)
  bootstraps [] = []
  bootstraps (a ∷ addrs) = bootstrap ∷ []

  -- The commands of `start`
  unfoldable pub plan : P2pNodeConfig net.Multiaddr → List (Command net.Multiaddr)
  plan config =
      map listen_on config.listen_addresses
      ++ (known_nodes config.bootstrap_nodes ++ (bootstraps config.bootstrap_nodes ++ topics))
    where
      topics : List (Command net.Multiaddr)
      topics =
          subscribe (text "cloudp2p/heartbeats")
          ∷ subscribe (text "cloudp2p/storage/offers")
          ∷ subscribe (text "cloudp2p/storage/requests")
          ∷ []

  and_then-Gives :
      {cs ds : List (Command net.Multiaddr)} {n : P2pNode net} {o : Outcome net}
      (next : P2pNode net → Outcome net)
      → Gives cs n o
      → ((n' : P2pNode net) → Gives ds n' (next n'))
      → Gives (cs ++ ds) n (and_then net o next)
  and_then-Gives next (finished {n}) k = k n
  and_then-Gives next (succeeds e g) k = succeeds e (and_then-Gives next g k)
  and_then-Gives next (fails e) k = fails e
  and_then-Gives next (panics e) k = panics e

  one-Gives :
      (c : Command net.Multiaddr) (n : P2pNode net) (r : Result P2pError (Unit {0}))
      → reply n.swarm c ≡ r
      → Gives (c ∷ []) n (r, tell net c n)
  one-Gives c n (ok tt) e = succeeds e finished
  one-Gives c n (err m) e = fails e
  one-Gives c n panic e = panics e

  listen_all-Gives :
      (addrs : List net.Multiaddr) (n : P2pNode net)
      → Gives (map listen_on addrs) n (listen_all net addrs n)
  unfolding listen_all ask
  listen_all-Gives [] n = finished
  listen_all-Gives (a ∷ addrs) n =
      and_then-Gives (listen_all net addrs) (one-Gives (listen_on a) n _ refl)
        (listen_all-Gives addrs)

  add_bootstrap_node-Gives :
      (a : net.Multiaddr) (found : Option Str) {ds : List (Command net.Multiaddr)} {n : P2pNode net}
      {o : Outcome net}
      → Gives ds (add_bootstrap_node net found a n) o
      → Gives (known a found ++ ds) n o
  add_bootstrap_node-Gives a none g = g
  add_bootstrap_node-Gives a (some p) g = succeeds refl g

  add_bootstrap_nodes-Gives :
      (addrs : List net.Multiaddr) {ds : List (Command net.Multiaddr)} {n : P2pNode net}
      {o : Outcome net}
      → Gives ds (add_bootstrap_nodes net addrs n) o
      → Gives (known_nodes addrs ++ ds) n o
  unfolding add_bootstrap_nodes known_nodes
  add_bootstrap_nodes-Gives [] g = g
  add_bootstrap_nodes-Gives (a ∷ addrs) {ds} {n} {o} g =
      subst (λ cs. Gives cs n o)
        (sym (append_assoc (known a (extract_peer_id net a)) (known_nodes addrs) ds))
        (add_bootstrap_node-Gives a (extract_peer_id net a) (add_bootstrap_nodes-Gives addrs g))

  bootstrap_kademlia-Gives :
      (addrs : List net.Multiaddr) (n : P2pNode net)
      → Gives (bootstraps addrs) n (bootstrap_kademlia net addrs n)
  unfolding bootstraps bootstrap_kademlia ask
  bootstrap_kademlia-Gives [] n = finished
  bootstrap_kademlia-Gives (a ∷ addrs) n = one-Gives bootstrap n _ refl

  subscribe_to_topic-Gives :
      (topic : Str) (n : P2pNode net)
      → Gives (subscribe topic ∷ []) n (subscribe_to_topic net topic n)
  unfolding ask
  subscribe_to_topic-Gives topic n = one-Gives (subscribe topic) n _ refl

  -- The plan of a configuration is to listen on each address, to add each bootstrap address that names
  -- a peer, to bootstrap if there is a bootstrap address, and to subscribe to three topics. `start` gives
  -- these commands in turn, up to the first that fails: its outcome is that failure, of the transport,
  -- the DHT or the protocol, after the command, or success when none fails. The node is otherwise as
  -- it was.
  pub start-Gives :
      (config : P2pNodeConfig net.Multiaddr) (n : P2pNode net)
      → Gives (plan config) n (start net config n)
  unfolding plan start
  start-Gives config n = and_then-Gives _ (listen_all-Gives config.listen_addresses n) λ m.
      add_bootstrap_nodes-Gives config.bootstrap_nodes (
        and_then-Gives _ (bootstrap_kademlia-Gives config.bootstrap_nodes _) λ m.
          and_then-Gives _ (subscribe_to_topic-Gives (text "cloudp2p/heartbeats") m) λ m.
            and_then-Gives _ (subscribe_to_topic-Gives (text "cloudp2p/storage/offers") m)
              λ m. subscribe_to_topic-Gives (text "cloudp2p/storage/requests") m)
