-- ===== src/Storage/Quota/History.antt =====
-- quota.rs: histories of calls of a `QuotaManager`.
use libre_drive.Prelude.{ℕ, ◌+◌, Bool, true, false, ◌&&◌, List, [], ◌∷◌, if◌then◌else◌}
use libre_drive.Prelude.Text.{Str}
use libre_drive.Storage.Quota.Float.{Floats}
use libre_drive.Storage.Quota.User.{check_grace_period}
use libre_drive.Storage.Quota.{
  QuotaManager, QuotaCheckResult, allowed, insufficient_quota, user_quota, can_upload,
  record_upload, record_deletion, record_shard_hosted, record_shard_removed, get_quota_summary,
}

-- A call with its arguments, the time last. An upload asks first, and is recorded if it is allowed.
pub data Event : Type 0 where
  upload : Str → ℕ → ℕ → Event
  deletion : Str → ℕ → Event
  shard_hosted : Str → ℕ → ℕ → Event
  shard_removed : Str → ℕ → Event
  summary : Str → ℕ → Event

abbrev pub is_allowed : QuotaCheckResult → Bool
is_allowed allowed = true
is_allowed (insufficient_quota current needed message) = false

module _ (fl : Floats) where
  unfoldable pub step : QuotaManager fl → Event → QuotaManager fl
  step m (upload id size now) =
      let (m', r) = can_upload fl m id size now in
      if is_allowed r then record_upload fl m' id size now else m'
  step m (deletion id size) = record_deletion fl m id size
  step m (shard_hosted id size now) = record_shard_hosted fl m id size now
  step m (shard_removed id size) = record_shard_removed fl m id size
  step m (summary id now) = (get_quota_summary fl m id now).0

  unfoldable pub run : QuotaManager fl → List Event → QuotaManager fl
  run m [] = m
  run m (e ∷ es) = run (step m e) es

  -- The bytes of an event that nothing is given for: of an upload that is allowed in the grace period,
  -- and of a hosted shard that is removed.
  unfoldable pub unpaid : QuotaManager fl → Event → ℕ
  unpaid m (upload id size now) =
      if (check_grace_period m.config now (user_quota fl m id now)).in_grace_period
        && is_allowed (can_upload fl m id size now).1
      then size
      else 0
  unpaid m (deletion id size) = 0
  unpaid m (shard_hosted id size now) = 0
  unpaid m (shard_removed id size) = size
  unpaid m (summary id now) = 0

  unfoldable pub all_unpaid : QuotaManager fl → List Event → ℕ
  all_unpaid m [] = 0
  all_unpaid m (e ∷ es) = unpaid m e + all_unpaid (step m e) es

-- The size that an event is about.
abbrev pub size_of : Event → ℕ
size_of (upload id size now) = size
size_of (deletion id size) = size
size_of (shard_hosted id size now) = size
size_of (shard_removed id size) = size
size_of (summary id now) = 0
