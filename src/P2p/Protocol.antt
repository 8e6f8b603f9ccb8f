-- ===== src/P2p/Protocol.antt =====
-- rust_core/src/p2p/protocol.rs: `StorageContract`; the time is an argument.
pub mod Lifetime
pub mod Reading
pub mod Signing
use libre_drive.Prelude.{ℕ, ◌+◌, ◌-◌, ◌*◌, ◌/◌, Bool, [], ◌++◌, ◌==◌, if◌then◌else◌}
use libre_drive.Prelude.Text.{Bytes, Str, text, show}
use libre_drive.Prelude.Int.{ℤ, pos, negsuc, ltb_ℤ, add_i64, sub_i64}
use libre_drive.Identity.{show_i64}

pub record StorageContract : Type 0 where
  pub fragment_id : Str
  pub owner_id : Str
  pub storage_peer_id : Str
  pub size_bytes : ℕ
  pub created_at : ℤ
  pub expires_at : ℤ
  pub owner_signature : Bytes
  pub storage_signature : Bytes

-- days as i64 * 24 * 60 * 60, which fits for a u32
abbrev pub seconds : ℕ → ℤ
seconds n = pos (n * 24 * 60 * 60)

-- `StorageContract::new`
unfoldable pub new_contract : Str → Str → Str → ℕ → ℕ → ℤ → StorageContract
new_contract fragment_id owner_id storage_peer_id size_bytes expiration_days now = record {
  fragment_id = fragment_id;
  owner_id = owner_id;
  storage_peer_id = storage_peer_id;
  size_bytes = size_bytes;
  created_at = now;
  expires_at = add_i64 now (seconds expiration_days);
  owner_signature = [];
  storage_signature = [];
}

-- `signing_data`
unfoldable pub signing_data : StorageContract → Bytes
signing_data c =
    c.fragment_id
    ++ text ":"
    ++ c.owner_id
    ++ text ":"
    ++ c.storage_peer_id
    ++ text ":"
    ++ show c.size_bytes
    ++ text ":"
    ++ show_i64 c.created_at
    ++ text ":"
    ++ show_i64 c.expires_at

-- `is_expired`
unfoldable pub contract_expired : StorageContract → ℤ → Bool
contract_expired c now = ltb_ℤ c.expires_at now

-- `extend`
unfoldable pub extend_contract : StorageContract → ℕ → ℤ → StorageContract
extend_contract c n now = record c { expires_at = add_i64 now (seconds n) }

-- The quotient of two `i64`, cut off towards zero; the divisor is positive.
unfoldable pub div_i64 : ℤ → ℕ → ℤ
div_i64 (pos n) d = pos (n / d)
div_i64 (negsuc n) d = if (n + 1) / d == 0 then pos 0 else negsuc ((n + 1) / d - 1)

-- `days_until_expiration`
unfoldable pub days_until_expiration : StorageContract → ℤ → ℤ
days_until_expiration c now = div_i64 (sub_i64 c.expires_at now) (24 * 60 * 60)
