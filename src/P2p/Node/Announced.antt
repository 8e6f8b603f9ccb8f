-- ===== src/P2p/Node/Announced.antt =====
-- p2p/node.rs: the events of the swarm, and what a node's listener should hear of them.
use libre_drive.Prelude.{◌≡◌, refl, sym, ap, ◌∙◌, some, List, [], ◌∷◌, ◌++◌, map, append_assoc}
use libre_drive.Prelude.Text.{Str}
use libre_drive.Prelude.Dict.{Dict, insert, remove}
use mathlib.Core.Path.{ap₂}
use libre_drive.P2p.Messages.{StorageRequest, StorageResponse}
use libre_drive.P2p.Libp2p.{
  Happening, given, raised, Command, add_address, SwarmEvent, new_listen_addr,
  connection_established, connection_closed, behaviour, other_event, mdns_discovered, found_record,
  gossipsub_message, request_message, response_message, identify_received, other_behaviour,
}
use libre_drive.P2p.Node.{
  P2pEvent, peer_connected, peer_disconnected, storage_request, storage_response, gossip_message,
  dht_value, listening,
}

-- What the members of a list give, in order.
unfoldable pub collect : {A B : Type 0} → (A → List B) → List A → List B
collect f [] = []
collect f (x ∷ xs) = f x ++ collect f xs

pub collect-append :
    {A B : Type 0} (f : A → List B) (xs ys : List A)
    → collect f (xs ++ ys) ≡ collect f xs ++ collect f ys
unfolding collect
collect-append f [] ys = refl
collect-append f (x ∷ xs) ys =
    ap (λ r. f x ++ r) (collect-append f xs ys)
    ∙ sym (append_assoc (f x) (collect f xs) (collect f ys))

pub collect-collect :
    {A B C : Type 0} (f : A → List B) (g : B → List C) (h : A → List C) (xs : List A)
    → ((x : A) → collect g (f x) ≡ h x)
    → collect g (collect f xs) ≡ collect h xs
unfolding collect
collect-collect f g h [] same = refl
collect-collect f g h (x ∷ xs) same =
    collect-append g (f x) (collect f xs)
    ∙ ap₂ (λ r s. r ++ s) (same x) (collect-collect f g h xs same)

-- The commands that add addresses of peers
abbrev pub added : {M : Type 0} → List (Str × M) → List (Command M)
added addrs = map (λ e. add_address e.0 e.1) addrs

module _ {M F : Type 0} where
  -- A request, or a response, that a listener is told of
  abbrev pub told_request : P2pEvent M F → List (Str × StorageRequest)
  told_request (storage_request peer request) = (peer, request) ∷ []
  told_request _ = []

  abbrev pub told_response : P2pEvent M F → List (Str × StorageResponse F)
  told_response (storage_response peer response) = (peer, response) ∷ []
  told_response _ = []

  -- A request, or a response, that the swarm raised
  abbrev pub arrived_request : SwarmEvent M F → List (Str × StorageRequest)
  arrived_request (behaviour (request_message peer request)) = (peer, request) ∷ []
  arrived_request _ = []

  abbrev pub arrived_response : SwarmEvent M F → List (Str × StorageResponse F)
  arrived_response (behaviour (response_message peer response)) = (peer, response) ∷ []
  arrived_response _ = []

  -- The addresses of peers that the swarm found or was told
  abbrev pub found_addresses : SwarmEvent M F → List (Str × M)
  found_addresses (behaviour (mdns_discovered peers)) = peers
  found_addresses (behaviour (identify_received peer_id addrs)) = map (λ a. (peer_id, a)) addrs
  found_addresses _ = []

  -- A command that the swarm was given
  abbrev pub command : Happening M F → List (Command M)
  command (given c) = c ∷ []
  command (raised e) = []

  -- The peers that a listener takes to be connected, who only hears of connections made and lost
  abbrev pub hear : P2pEvent M F → Dict (Unit {0}) → Dict (Unit {0})
  hear (peer_connected peer) peers = insert peer tt peers
  hear (peer_disconnected peer) peers = remove peer peers
  hear _ peers = peers

  unfoldable pub replay : List (P2pEvent M F) → Dict (Unit {0}) → Dict (Unit {0})
  replay [] peers = peers
  replay (e ∷ es) peers = replay es (hear e peers)

  pub replay-append :
      (es fs : List (P2pEvent M F)) (peers : Dict (Unit {0}))
      → replay (es ++ fs) peers ≡ replay fs (replay es peers)
  unfolding replay
  replay-append [] fs peers = refl
  replay-append (e ∷ es) fs peers = replay-append es fs (hear e peers)

  -- What an event makes the node tell its listener
  abbrev pub announced : SwarmEvent M F → List (P2pEvent M F)
  announced (new_listen_addr address) = listening address ∷ []
  announced (connection_established peer_id i) = peer_connected peer_id ∷ []
  announced (connection_closed peer_id i left) = peer_disconnected peer_id ∷ []
  announced (behaviour (found_record key value)) = dht_value key value ∷ []
  announced (behaviour (gossipsub_message m source)) =
      gossip_message m.topic m.contents (some source) ∷ []
  announced (behaviour (request_message peer request)) = storage_request peer request ∷ []
  announced (behaviour (response_message peer response)) = storage_response peer response ∷ []
  announced _ = []

  pub request_announced :
      (e : SwarmEvent M F) → collect told_request (announced e) ≡ arrived_request e
  unfolding collect
  request_announced (new_listen_addr address) = refl
  request_announced (connection_established peer_id i) = refl
  request_announced (connection_closed peer_id i left) = refl
  request_announced (behaviour (mdns_discovered peers)) = refl
  request_announced (behaviour (found_record key value)) = refl
  request_announced (behaviour (gossipsub_message m source)) = refl
  request_announced (behaviour (request_message peer request)) = refl
  request_announced (behaviour (response_message peer response)) = refl
  request_announced (behaviour (identify_received peer_id addrs)) = refl
  request_announced (behaviour other_behaviour) = refl
  request_announced other_event = refl

  pub response_announced :
      (e : SwarmEvent M F) → collect told_response (announced e) ≡ arrived_response e
  unfolding collect
  response_announced (new_listen_addr address) = refl
  response_announced (connection_established peer_id i) = refl
  response_announced (connection_closed peer_id i left) = refl
  response_announced (behaviour (mdns_discovered peers)) = refl
  response_announced (behaviour (found_record key value)) = refl
  response_announced (behaviour (gossipsub_message m source)) = refl
  response_announced (behaviour (request_message peer request)) = refl
  response_announced (behaviour (response_message peer response)) = refl
  response_announced (behaviour (identify_received peer_id addrs)) = refl
  response_announced (behaviour other_behaviour) = refl
  response_announced other_event = refl
