-- ===== src/P2p/Protocol/Signing.antt =====
-- p2p/protocol.rs: what the signatures of a contract are made of.
use libre_drive.Prelude.{◌^◌, ◌<◌, ◌≡◌}
use libre_drive.Prelude.Int.{InI64}
use libre_drive.P2p.Protocol.{StorageContract, signing_data}
use libre_drive.P2p.Protocol.Reading.{
  HasNoColon, split_colon, show-HasNoColon, show-injective, show_i64-HasNoColon, show_i64-injective,
}

-- The ids of the two parties have no colon, and the numbers are of their machine types.
pub record IsSignable (c : StorageContract) : Type 0 where
  pub plain_owner : HasNoColon c.owner_id
  pub plain_peer : HasNoColon c.storage_peer_id
  pub fits_size : c.size_bytes < 2 ^ 64
  pub fits_created : InI64 c.created_at
  pub fits_expires : InI64 c.expires_at

-- Two contracts with the same signed data agree in the fragment, the owner, the storing peer, the size
-- and both times: a signature of one is not one of the other. (The ids of owner and peer have no colon;
-- the id of the fragment may.)
pub signing_data-injective :
    (c d : StorageContract)
    → IsSignable c
    → IsSignable d
    → signing_data c ≡ signing_data d
    → (c.fragment_id ≡ d.fragment_id)
      × (c.owner_id ≡ d.owner_id)
      × (c.storage_peer_id ≡ d.storage_peer_id)
      × (c.size_bytes ≡ d.size_bytes)
      × (c.created_at ≡ d.created_at)
      × (c.expires_at ≡ d.expires_at)
unfolding signing_data
signing_data-injective c d h k same =
    let (rest1, expires) =
      split_colon _ _ (show_i64-HasNoColon c.expires_at) (show_i64-HasNoColon d.expires_at) same in
    let (rest2, created) =
      split_colon _ _ (show_i64-HasNoColon c.created_at) (show_i64-HasNoColon d.created_at) rest1 in
    let (rest3, size) =
      split_colon _ _ (show-HasNoColon c.size_bytes) (show-HasNoColon d.size_bytes) rest2 in
    let (rest4, peer) = split_colon _ _ h.plain_peer k.plain_peer rest3 in
    let (fragment, owner) =
      split_colon c.fragment_id d.fragment_id h.plain_owner k.plain_owner rest4 in
    (
      fragment,
      owner,
      peer,
      show-injective c.size_bytes d.size_bytes h.fits_size k.fits_size size,
      show_i64-injective c.created_at d.created_at h.fits_created k.fits_created created,
      show_i64-injective c.expires_at d.expires_at h.fits_expires k.fits_expires expires,
    )
