-- ===== src/Storage/Quota.antt =====
-- rust_core/src/storage/quota.rs: who may upload how much. `f64` is the parameter `Floats`; the time
-- that a method reads is an argument.
use libre_drive.Prelude.{
  ℕ, ◌+◌, ◌-◌, ◌*◌, ◌/◌, Bool, Option, none, some, List, [], ◌∷◌, ◌++◌, ltb, if◌then◌else◌,
}
use libre_drive.Prelude.Text.{Str, text, show}
use libre_drive.Prelude.Word.{add_u64, sub_u64}
use libre_drive.Prelude.Dict.{Dict, lookup, insert, values}
pub mod Float
pub mod User
pub mod Fits
pub mod Laws
pub mod Grace
pub mod Needed
pub mod History
pub mod Order
pub mod Totals
pub mod Books
pub mod Calls
pub mod Balance
use Float.{Floats}
use User.{
  QuotaConfig, UserQuota, new_user, available_storage, user_can_upload, usage_percentage,
  check_grace_period,
}

pub record QuotaManager (fl : Floats) : Type 0 where
  pub config : QuotaConfig fl.F
  pub quotas : Dict UserQuota

pub data QuotaCheckResult : Type 0 where
  allowed : QuotaCheckResult
  insufficient_quota : ℕ → ℕ → Str → QuotaCheckResult

module _ (fl : Floats) where
  -- `QuotaManager::new`
  pub new : QuotaConfig fl.F → QuotaManager fl
  new config = record { config = config; quotas = [] }

  abbrev pub or_new : Str → ℕ → Option UserQuota → UserQuota
  or_new user_id now none = new_user user_id now
  or_new user_id now (some q) = q

  -- The quota that `get_user_quota` refers to: the user's, or a new one.
  abbrev pub user_quota : QuotaManager fl → Str → ℕ → UserQuota
  user_quota m user_id now = or_new user_id now (lookup user_id m.quotas)

  -- What is written through that reference.
  abbrev pub put_quota : QuotaManager fl → Str → UserQuota → QuotaManager fl
  put_quota m user_id q = record m { quotas = insert user_id q m.quotas }

  -- `calculate_needed_contribution`, of the quota in the map.
  unfoldable pub needed_contribution : QuotaConfig fl.F → UserQuota → ℕ → ℕ
  needed_contribution config q additional_bytes =
      let total_needed = add_u64 q.bytes_used additional_bytes in
      fl.to_u64 (fl.mul (fl.of_u64 total_needed) config.contribution_ratio) - q.bytes_contributed

  -- The message of a refusal, in UTF-8.
  abbrev pub refusal : ℕ → ℕ → Str
  refusal size needed =
      text "Para fazer upload de "
      ++ show size
      ++ text " bytes, voc"
      ++ (0xc3 ∷ 0xaa ∷ [])
      ++ text " precisa contribuir "
      ++ show needed
      ++ text " bytes para a rede."

  -- `can_upload` of the manager.
  unfoldable pub can_upload : QuotaManager fl → Str → ℕ → ℕ → QuotaManager fl × QuotaCheckResult
  can_upload m user_id size now =
      let q = check_grace_period m.config now (user_quota m user_id now) in
      let needed = needed_contribution m.config q size in
      (
        put_quota m user_id q,
        if user_can_upload fl m.config q size
            then allowed
            else insufficient_quota q.bytes_contributed needed (refusal size needed),
      )

  -- `record_upload`
  unfoldable pub record_upload : QuotaManager fl → Str → ℕ → ℕ → QuotaManager fl
  record_upload m user_id size now =
      let q = user_quota m user_id now in
      put_quota m user_id (record q {
        bytes_used = add_u64 q.bytes_used size;
        files_count = add_u64 q.files_count 1;
        last_active = now;
      })

  abbrev deleted : QuotaManager fl → Str → ℕ → Option UserQuota → QuotaManager fl
  deleted m user_id size none = m
  deleted m user_id size (some q) =
      put_quota m user_id
        (record q { bytes_used = q.bytes_used - size; files_count = q.files_count - 1 })

  -- `record_deletion`
  unfoldable pub record_deletion : QuotaManager fl → Str → ℕ → QuotaManager fl
  record_deletion m user_id size = deleted m user_id size (lookup user_id m.quotas)

  -- `record_shard_hosted`
  unfoldable pub record_shard_hosted : QuotaManager fl → Str → ℕ → ℕ → QuotaManager fl
  record_shard_hosted m user_id shard_size now =
      let q = user_quota m user_id now in
      put_quota m user_id (record q {
        bytes_contributed = add_u64 q.bytes_contributed shard_size;
        shards_hosted = add_u64 q.shards_hosted 1;
        last_active = now;
      })

  abbrev unhosted : QuotaManager fl → Str → ℕ → Option UserQuota → QuotaManager fl
  unhosted m user_id shard_size none = m
  unhosted m user_id shard_size (some q) = put_quota m user_id (record q {
    bytes_contributed = q.bytes_contributed - shard_size;
    shards_hosted = q.shards_hosted - 1;
  })

  -- `record_shard_removed`
  unfoldable pub record_shard_removed : QuotaManager fl → Str → ℕ → QuotaManager fl
  record_shard_removed m user_id shard_size =
      unhosted m user_id shard_size (lookup user_id m.quotas)

-- `NetworkStats`
pub record NetworkStats : Type 0 where
  pub total_storage_used : ℕ
  pub total_storage_contributed : ℕ
  pub total_users : ℕ
  pub active_users : ℕ
  pub average_contribution : ℕ

-- One round of the loop of `get_network_stats`, without the average.
unfoldable pub count_user : ℕ → NetworkStats → UserQuota → NetworkStats
count_user now s q = record s {
  total_storage_used = add_u64 s.total_storage_used q.bytes_used;
  total_storage_contributed = add_u64 s.total_storage_contributed q.bytes_contributed;
  total_users = add_u64 s.total_users 1;
  active_users =
      if ltb (sub_u64 now q.last_active) (24 * 60 * 60)
      then add_u64 s.active_users 1
      else s.active_users;
}

unfoldable pub count_users : ℕ → NetworkStats → List UserQuota → NetworkStats
count_users now s [] = s
count_users now s (q ∷ qs) = count_users now (count_user now s q) qs

abbrev pub no_stats : NetworkStats
no_stats = record {
  total_storage_used = 0;
  total_storage_contributed = 0;
  total_users = 0;
  active_users = 0;
  average_contribution = 0;
}

-- `get_network_stats`
unfoldable pub get_network_stats : (fl : Floats) → QuotaManager fl → ℕ → NetworkStats
get_network_stats fl m now =
    let s = count_users now no_stats (values m.quotas) in
    record s {
      average_contribution =
          if ltb 0 s.total_users then s.total_storage_contributed / s.total_users else 0;
    }

-- `QuotaSummary`
pub record QuotaSummary (F : Type 0) : Type 0 where
  pub bytes_used : ℕ
  pub bytes_contributed : ℕ
  pub bytes_available : ℕ
  pub usage_percentage : F
  pub files_count : ℕ
  pub shards_hosted : ℕ
  pub in_grace_period : Bool
  pub contribution_ratio : F

-- `get_quota_summary`
unfoldable pub get_quota_summary :
    (fl : Floats) → QuotaManager fl → Str → ℕ → QuotaManager fl × QuotaSummary fl.F
get_quota_summary fl m user_id now =
    let q = check_grace_period m.config now (user_quota fl m user_id now) in
    (
      put_quota fl m user_id q,
      record {
        bytes_used = q.bytes_used;
        bytes_contributed = q.bytes_contributed;
        bytes_available = available_storage fl m.config q;
        usage_percentage = usage_percentage fl m.config q;
        files_count = q.files_count;
        shards_hosted = q.shards_hosted;
        in_grace_period = q.in_grace_period;
        contribution_ratio = m.config.contribution_ratio;
      },
    )
