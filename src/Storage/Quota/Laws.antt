-- ===== src/Storage/Quota/Laws.antt =====
-- quota.rs: what an upload, a deletion and a hosted shard do to the accounts.
use libre_drive.Prelude.{
  ℕ, ◌+◌, ◌-◌, ◌≤◌, ◌<◌, min, ◌≡◌, ◌∙◌, ◌↔◌, ◌⊎◌, Bool, true, false, some, arith, if◌then◌else◌,
}
use libre_drive.Prelude.Text.{Str, str_eq, str_eq_refl}
use libre_drive.Prelude.Word.{u64_mod, add_u64-eq}
use libre_drive.Prelude.Dict.{lookup, lookup-insert}
use libre_drive.Storage.Quota.Float.{Floats}
use libre_drive.Storage.Quota.User.{
  QuotaConfig, UserQuota, earned, user_can_upload, check_grace_period,
}
use libre_drive.Storage.Quota.{
  QuotaManager, allowed, insufficient_quota, user_quota, can_upload, record_upload, record_deletion,
}
use libre_drive.Storage.Quota.Fits.{same-fits}

verdict :
    (b : Bool) (current needed : ℕ) (message : Str)
    → ((if b then allowed else insufficient_quota current needed message) ≡ allowed) ↔ (b ≡ true)
verdict b current needed message = ground arith

undone : (a b : ℕ) → a + b - b ≡ a
undone a b = omega arith

kept :
    {F : Type 0} (config : QuotaConfig F) (now : ℕ) (q : UserQuota)
    → ((check_grace_period config now q).bytes_used ≡ q.bytes_used)
      × ((check_grace_period config now q).bytes_contributed ≡ q.bytes_contributed)
unfolding check_grace_period
kept config now q = ground arith

module _ (fl : Floats) (m : QuotaManager fl) (id : Str) (size now : ℕ) where
  -- `can_upload` outside the grace period (a user whose period has run out counts as outside): it
  -- answers `allowed` for exactly the sizes that keep the bytes used within what the contribution
  -- earns and the maximum, or that are 0. No other account changes, and the bytes of this one stay.
  pub can_upload-exact :
      (q : UserQuota)
      → lookup id m.quotas ≡ some q
      → (check_grace_period m.config now q).in_grace_period ≡ false
      → (((can_upload fl m id size now).1 ≡ allowed)
          ↔ ((size ≡ 0) ⊎ (q.bytes_used + size ≤ min (earned fl m.config q) m.config.max_usage)))
        × ((j : Str)
            → str_eq id j ≡ false
            → lookup j (can_upload fl m id size now).0.quotas ≡ lookup j m.quotas)
        × (lookup id (can_upload fl m id size now).0.quotas
            ≡ some (check_grace_period m.config now q))
  unfolding can_upload
  can_upload-exact q known out =
      let same : user_quota fl m id now ≡ q = rw known in
      let k = kept m.config now q in
      let f = same-fits fl m.config q (check_grace_period m.config now q) size out k in
      let v =
        verdict (user_can_upload fl m.config (check_grace_period m.config now q) size) _ _ _ in
      (
        rw (same) (λ e. f.0 (v.0 e), λ h. v.1 (f.1 h)),
        (λ j other. lookup-insert id j _ m.quotas ∙ rw other),
        lookup-insert id id _ m.quotas ∙ rw (str_eq_refl id) (rw same),
      )

  -- `record_upload` and then `record_deletion` of the same size, for a known user, below 2^64: the
  -- account is as before, but for the time of the last activity.
  pub record_deletion-record_upload :
      (q : UserQuota)
      → lookup id m.quotas ≡ some q
      → q.bytes_used + size < u64_mod
      → q.files_count + 1 < u64_mod
      → lookup id (record_deletion fl (record_upload fl m id size now) id size).quotas
        ≡ some (record q { last_active = now })
  unfolding record_deletion record_upload
  record_deletion-record_upload q known bytes files = rw (
    known,
    lookup-insert,
    str_eq_refl id,
    lookup-insert,
    str_eq_refl id,
    add_u64-eq q.bytes_used size bytes,
    add_u64-eq q.files_count 1 files,
    undone q.bytes_used size,
    undone q.files_count 1,
  )
