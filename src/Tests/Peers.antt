-- ===== src/Tests/Peers.antt =====
-- discovery.rs and protocol.rs at concrete inputs.
use libre_drive.Prelude.{
  ℕ, ◌+◌, ◌-◌, ◌*◌, ◌/◌, ◌^◌, ◌≤◌, min, ◌≡◌, refl, some, List, [], ◌∷◌, ◌++◌, arith, All, length,
  filter,
}
use libre_drive.Prelude.Text.{Str, text}
use libre_drive.Prelude.Int.{pos}
use libre_drive.Prelude.Dict.{values}
use Prim.Native.Nat.{compare}
use mathlib.Core.List.{Perm}
use libre_drive.P2p.Discovery.Single.{Scores, IsNumeric}
use libre_drive.P2p.Discovery.{PeerInfo, PeerManager, is_candidate, select_storage_peers, new_peer}
use libre_drive.P2p.Discovery.Selection.{select_storage_peers-best, IsDescending, rank_of}
use libre_drive.P2p.Protocol.{StorageContract, signing_data}
use libre_drive.P2p.Protocol.Signing.{IsSignable, signing_data-injective}

-- Thousandths.
abbrev pub thousandths : Scores
thousandths = record {
  F = ℕ;
  decimal = λ n k. n * 1000 / 10 ^ k;
  of_u64 = λ n. n * 1000;
  add = λ x y. x + y;
  sub = λ x y. x - y;
  mul = λ x y. x * y / 1000;
  div = λ x y. x * 1000 / y;
  partial_cmp = λ x y. some (compare x y);
}

pub thousandths-IsNumeric : IsNumeric thousandths (λ x. Unit {0})
thousandths-IsNumeric = record { rank = λ x. x; partial_cmp-numbers = λ x y n k. refl }

abbrev pub peer : Str → ℕ → PeerInfo ℕ
peer id latency = record (new_peer thousandths id (pos 990)) {
  storage_offered = 100;
  storage_available = 50;
  latency_ms = latency;
}

abbrev peer_manager : PeerManager ℕ
peer_manager = record {
  peers =
      (text "slow", peer (text "slow") 400)
      ∷ (text "fast", peer (text "fast") 20)
      ∷ (text "bad", peer (text "bad") 10)
      ∷ [];
  blacklist = (text "bad", pos 2000) ∷ [];
  min_reliability = 300;
  max_age_seconds = pos 3600;
}

pub candidates_numeric : (ps : List (PeerInfo ℕ)) → All (λ p. Unit {0}) ps
candidates_numeric [] = tt
candidates_numeric (p ∷ ps) = (tt, candidates_numeric ps)

select_storage_peers-best_example :
    (chosen others : List (PeerInfo ℕ)) × (select_storage_peers thousandths peer_manager 10 1
        (pos 1000)
      ≡ some chosen)
    × Perm
        (chosen ++ others)
        (filter (is_candidate thousandths peer_manager 10 (pos 1000)) (values peer_manager.peers))
    × (length chosen
        ≡ min 1 (
            length (
              filter
                (is_candidate thousandths peer_manager 10 (pos 1000))
                (values peer_manager.peers))))
    × IsDescending thousandths thousandths-IsNumeric chosen
    × All
        (λ p.
          All
            (λ q.
              rank_of thousandths thousandths-IsNumeric q
              ≤ rank_of thousandths thousandths-IsNumeric p)
            others)
        chosen
select_storage_peers-best_example =
    select_storage_peers-best thousandths thousandths-IsNumeric peer_manager 10 1 (pos 1000) (
      candidates_numeric
        (filter (is_candidate thousandths peer_manager 10 (pos 1000)) (values peer_manager.peers)))

abbrev contract : StorageContract
contract = record {
  fragment_id = text "abc";
  owner_id = text "alice";
  storage_peer_id = text "bob";
  size_bytes = 5;
  created_at = pos 0;
  expires_at = pos 10;
  owner_signature = [];
  storage_signature = [];
}

-- The contract, signed by its owner
abbrev signed_contract : StorageContract
signed_contract = record contract { owner_signature = text "signature" }

contract-IsSignable : IsSignable contract
contract-IsSignable = record {
  plain_owner = ground arith;
  plain_peer = ground arith;
  fits_size = omega arith;
  fits_created = (omega arith, omega arith);
  fits_expires = (omega arith, omega arith);
}

signed_contract-IsSignable : IsSignable signed_contract
signed_contract-IsSignable = record {
  plain_owner = contract-IsSignable.plain_owner;
  plain_peer = contract-IsSignable.plain_peer;
  fits_size = contract-IsSignable.fits_size;
  fits_created = contract-IsSignable.fits_created;
  fits_expires = contract-IsSignable.fits_expires;
}

signing_data-injective_example :
    (contract.fragment_id ≡ contract.fragment_id)
    × (contract.owner_id ≡ contract.owner_id)
    × (contract.storage_peer_id ≡ contract.storage_peer_id)
    × (contract.size_bytes ≡ contract.size_bytes)
    × (contract.created_at ≡ contract.created_at)
    × (contract.expires_at ≡ contract.expires_at)
unfolding signing_data
signing_data-injective_example =
    signing_data-injective contract signed_contract contract-IsSignable signed_contract-IsSignable
      refl
