-- ===== src/Storage/Quota/User.antt =====
-- quota.rs: `QuotaConfig` and `UserQuota`.
use libre_drive.Prelude.{
  ℕ, ◌-◌, ◌*◌, min, Bool, true, false, ◌&&◌, not, ltb, leb, ◌==◌, if◌then◌else◌,
}
use libre_drive.Prelude.Text.{Str}
use libre_drive.Prelude.Word.{sub_u64}
use libre_drive.Storage.Quota.Float.{Floats}

-- The path to the stored data is never read.
pub record QuotaConfig (F : Type 0) : Type 0 where
  pub min_contribution : ℕ
  pub max_usage : ℕ
  pub contribution_ratio : F
  pub grace_period_secs : ℕ

-- `QuotaConfig::default`
abbrev pub default : (fl : Floats) → QuotaConfig fl.F
default fl = record {
  min_contribution = 1024 * 1024 * 100;
  max_usage = 1024 * 1024 * 1024 * 100;
  contribution_ratio = fl.of_u64 1;
  grace_period_secs = 7 * 24 * 60 * 60;
}

pub record UserQuota : Type 0 where
  pub user_id : Str
  pub bytes_used : ℕ
  pub bytes_contributed : ℕ
  pub files_count : ℕ
  pub shards_hosted : ℕ
  pub joined_at : ℕ
  pub last_active : ℕ
  pub in_grace_period : Bool

-- `UserQuota::new`
abbrev pub new_user : Str → ℕ → UserQuota
new_user user_id now = record {
  user_id = user_id;
  bytes_used = 0;
  bytes_contributed = 0;
  files_count = 0;
  shards_hosted = 0;
  joined_at = now;
  last_active = now;
  in_grace_period = true;
}

module _ (fl : Floats) where
  -- (self.bytes_contributed as f64 / config.contribution_ratio) as u64
  abbrev pub earned : QuotaConfig fl.F → UserQuota → ℕ
  earned config q = fl.to_u64 (fl.div (fl.of_u64 q.bytes_contributed) config.contribution_ratio)

  -- `available_storage`
  unfoldable pub available_storage : QuotaConfig fl.F → UserQuota → ℕ
  available_storage config q =
      if q.in_grace_period
      then config.min_contribution
      else min (earned config q) config.max_usage - q.bytes_used

  -- `can_upload` of a user's quota.
  unfoldable pub user_can_upload : QuotaConfig fl.F → UserQuota → ℕ → Bool
  user_can_upload config q size = leb size (available_storage config q)

  -- `usage_percentage`
  unfoldable pub usage_percentage : QuotaConfig fl.F → UserQuota → fl.F
  usage_percentage config q =
      if q.bytes_contributed == 0 && not q.in_grace_period
      then fl.of_u64 100
      else let max_allowed =
          if q.in_grace_period then config.min_contribution else earned config q in
        if max_allowed == 0
        then fl.of_u64 100
        else fl.minimum
            (fl.mul (fl.div (fl.of_u64 q.bytes_used) (fl.of_u64 max_allowed)) (fl.of_u64 100))
            (fl.of_u64 100)

-- `check_grace_period`; a clock before `joined_at` wraps.
unfoldable pub check_grace_period : {F : Type 0} → QuotaConfig F → ℕ → UserQuota → UserQuota
check_grace_period config now q =
    if q.in_grace_period && ltb config.grace_period_secs (sub_u64 now q.joined_at)
    then record q { in_grace_period = false }
    else q
