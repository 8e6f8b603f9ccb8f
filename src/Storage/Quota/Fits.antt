-- ===== src/Storage/Quota/Fits.antt =====
-- quota.rs: what `can_upload` of a user's quota allows.
use libre_drive.Prelude.{ℕ, ◌+◌, ◌-◌, ◌≤◌, min, ◌≡◌, ◌↔◌, ◌⊎◌, true, false, arith, leb}
use libre_drive.Storage.Quota.Float.{Floats}
use libre_drive.Storage.Quota.User.{
  QuotaConfig, UserQuota, earned, available_storage, user_can_upload,
}

room :
    (size used allowed : ℕ)
    → (leb size (allowed - used) ≡ true) ↔ ((size ≡ 0) ⊎ (used + size ≤ allowed))
room size used allowed = ground arith

pub user_can_upload-fits :
    (fl : Floats) (config : QuotaConfig fl.F) (q : UserQuota) (size : ℕ)
    → q.in_grace_period ≡ false
    → (user_can_upload fl config q size ≡ true)
      ↔ ((size ≡ 0) ⊎ (q.bytes_used + size ≤ min (earned fl config q) config.max_usage))
unfolding user_can_upload available_storage
user_can_upload-fits fl config q size out =
    rw (out) (room size q.bytes_used (min (earned fl config q) config.max_usage))

-- The same where another quota has the same bytes.
pub same-fits :
    (fl : Floats) (config : QuotaConfig fl.F) (q q' : UserQuota) (size : ℕ)
    → q'.in_grace_period ≡ false
    → (q'.bytes_used ≡ q.bytes_used) × (q'.bytes_contributed ≡ q.bytes_contributed)
    → (user_can_upload fl config q' size ≡ true)
      ↔ ((size ≡ 0) ⊎ (q.bytes_used + size ≤ min (earned fl config q) config.max_usage))
same-fits fl config q q' size out same =
    rw (← same.0, ← same.1) (user_can_upload-fits fl config q' size out)
