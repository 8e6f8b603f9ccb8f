-- ===== src/P2p/Node/Isolation.antt =====
-- p2p/node.rs: bootstrap addresses that name no peer.
use libre_drive.Prelude.{
  ◌≡◌, refl, sym, ap, ◌∙◌, none, List, [], ◌∷◌, ◌++◌, map, append-nil, append_assoc, All,
}
use libre_drive.Prelude.Result.{ok, err}
use libre_drive.Prelude.Text.{Str}
use libre_drive.P2p.{dht}
use libre_drive.P2p.Libp2p.{Libp2p, Happening, given, listen_on, bootstrap}
use libre_drive.P2p.Node.{P2pNode, P2pNodeConfig, tell}
use libre_drive.P2p.Node.Control.{
  ask, extract_peer_id, listen_all, add_bootstrap_nodes, bootstrap_kademlia, start,
}

module _ {F : Type 0} (net : Libp2p F) where
  -- What a swarm has been through that was told to listen on addresses.
  abbrev pub told_to_listen : List net.Multiaddr → List (Happening net.Multiaddr F)
  told_to_listen addrs = map (λ a. given (listen_on a)) addrs

  listen_all-ok :
      (addrs : List net.Multiaddr) (n : P2pNode net)
      → ((log : List (Happening net.Multiaddr F))
          → All (λ a. net.answer log (listen_on a) ≡ ok tt) addrs)
      → listen_all net addrs n ≡ (ok tt, record n { swarm = n.swarm ++ told_to_listen addrs })
  unfolding listen_all ask
  listen_all-ok [] n can = ap (λ s. (ok tt, record n { swarm = s })) (sym (append-nil n.swarm))
  listen_all-ok (a ∷ addrs) n can = rw ((can n.swarm).0) (
      listen_all-ok addrs (tell net (listen_on a) n) (λ log. (can log).1)
      ∙ ap (λ s. (ok tt, record n { swarm = s }))
          (append_assoc n.swarm (given (listen_on a) ∷ []) (told_to_listen addrs)))

  add_bootstrap_nodes-none :
      (addrs : List net.Multiaddr) (n : P2pNode net)
      → All (λ a. extract_peer_id net a ≡ none) addrs
      → add_bootstrap_nodes net addrs n ≡ n
  unfolding add_bootstrap_nodes
  add_bootstrap_nodes-none [] n all = refl
  add_bootstrap_nodes-none (a ∷ addrs) n (nobody, all) =
      rw nobody (add_bootstrap_nodes-none addrs n all)

  -- Where there are bootstrap addresses, none of them names a peer, and the node can listen: on a new
  -- swarm `start` fails with an error of the DHT, before it subscribes to a topic. (A swarm that was only
  -- told to listen knows no peer, so it cannot bootstrap.)
  pub start-isolated :
      (config : P2pNodeConfig net.Multiaddr) (n : P2pNode net) (a : net.Multiaddr)
      (addrs : List net.Multiaddr)
      → n.swarm ≡ []
      → config.bootstrap_nodes ≡ a ∷ addrs
      → All (λ a. extract_peer_id net a ≡ none) config.bootstrap_nodes
      → ((log : List (Happening net.Multiaddr F))
          → All (λ a. net.answer log (listen_on a) ≡ ok tt) config.listen_addresses)
      → ((addrs : List net.Multiaddr)
          → (m : Str) × (net.answer (told_to_listen addrs) bootstrap ≡ err m))
      → (m : Str) × (start net config n ≡ (
        err (dht m),
        record n { swarm = told_to_listen config.listen_addresses ++ given bootstrap ∷ [] },
      ))
  unfolding start bootstrap_kademlia ask
  start-isolated config n a addrs fresh some_nodes nobody can lonely =
      let (m, e) = lonely config.listen_addresses in
      (
        m,
        rw (
          listen_all-ok config.listen_addresses n can,
          fresh,
          add_bootstrap_nodes-none config.bootstrap_nodes
              (record n { swarm = told_to_listen config.listen_addresses }) nobody,
          some_nodes,
          e,
        ),
      )
