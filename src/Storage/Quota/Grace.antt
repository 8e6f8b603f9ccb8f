-- ===== src/Storage/Quota/Grace.antt =====
-- quota.rs: the grace period.
use libre_drive.Prelude.{
  ℕ, zero, suc, ◌+◌, ◌*◌, ◌≤◌, ◌<◌, ◌≡◌, refl, ap, ◌∙◌, true, some, arith, leb,
}
use libre_drive.Prelude.Text.{Str, str_eq_refl}
use libre_drive.Prelude.Word.{u64_mod, add_u64, sub_u64, add_u64-eq}
use libre_drive.Prelude.Dict.{Dict, lookup, insert, lookup-insert}
use libre_drive.Storage.Quota.Float.{Floats}
use libre_drive.Storage.Quota.User.{
  UserQuota, user_can_upload, available_storage, check_grace_period,
}
use libre_drive.Storage.Quota.{QuotaManager, allowed, user_quota, can_upload, record_upload}

inserted :
    (id : Str) (q : UserQuota) (quotas : Dict UserQuota) → lookup id (insert id q quotas) ≡ some q
inserted id q quotas = lookup-insert id id q quotas ∙ rw (str_eq_refl id)

module _ (fl : Floats) (m : QuotaManager fl) (id : Str) (size now : ℕ) where
  -- A user who asks for an upload and records it, n times.
  unfoldable pub upload_times : ℕ → QuotaManager fl
  upload_times zero = m
  upload_times (suc n) = record_upload fl (can_upload fl (upload_times n) id size now).0 id size now

  abbrev InGrace : UserQuota → ℕ → Type 0
  InGrace q n =
      (q' : UserQuota) × (lookup id (upload_times n).quotas ≡ some q')
      × (q'.in_grace_period ≡ true)
      × (q'.joined_at ≡ q.joined_at)
      × (q'.bytes_used ≡ q.bytes_used + n * size)
      × ((upload_times n).config ≡ m.config)

  stays :
      (q' : UserQuota)
      → sub_u64 now q'.joined_at ≤ m.config.grace_period_secs
      → check_grace_period m.config now q' ≡ q'
  unfolding check_grace_period
  stays q' within = ground arith

  checked :
      (w : QuotaManager fl) (q' : UserQuota)
      → w.config ≡ m.config
      → lookup id w.quotas ≡ some q'
      → sub_u64 now q'.joined_at ≤ m.config.grace_period_secs
      → ((can_upload fl w id size now).0 ≡ record w { quotas = insert id q' w.quotas })
        × (q'.in_grace_period ≡ true
            → size ≤ m.config.min_contribution
            → (can_upload fl w id size now).1 ≡ allowed)
  unfolding can_upload user_can_upload available_storage
  checked w q' same there within =
      let s : user_quota fl w id now ≡ q' = rw there in
      let t : check_grace_period w.config now q' ≡ q' = rw same (stays q' within) in
      (
        rw (s, t),
        λ grace small.
            let c : leb size w.config.min_contribution ≡ true = rw same (ground arith) in
            rw (s, t, grace, c),
      )

  counted :
      (q : UserQuota)
      → lookup id m.quotas ≡ some q
      → q.in_grace_period ≡ true
      → sub_u64 now q.joined_at ≤ m.config.grace_period_secs
      → (n : ℕ) → q.bytes_used + n * size < u64_mod
      → InGrace q n
  unfolding upload_times record_upload
  counted q known grace within zero below = (q, known, grace, refl, omega arith, refl)
  counted q known grace within (suc n) below =
      let (q', there, g, j, b, c) = counted q known grace within n (omega arith) in
      let k = checked (upload_times n) q' c there (rw j within) in
      let w = (can_upload fl (upload_times n) id size now).0 in
      let f : lookup id w.quotas ≡ some q' =
        ap (λ (v : QuotaManager fl). lookup id v.quotas) k.0
        ∙ lookup-insert id id q' (upload_times n).quotas
        ∙ rw (str_eq_refl id) in
      let s : user_quota fl w id now ≡ q' = rw f in
      (
        _,
        inserted id _ w.quotas,
        (ap (λ (v : UserQuota). v.in_grace_period) s ∙ g),
        (ap (λ (v : UserQuota). v.joined_at) s ∙ j),
        (ap (λ (v : UserQuota). add_u64 v.bytes_used size) s
            ∙ add_u64-eq q'.bytes_used size (omega arith)
            ∙ omega arith),
        ap (λ (v : QuotaManager fl). v.config) k.0 ∙ c,
      )

  -- In the grace period `can_upload` looks at the size of one upload alone: a user may upload a size
  -- of at most the minimal contribution any number of times, and holds all of it (as long as the
  -- bytes used stay below 2^64).
  pub can_upload-grace :
      (q : UserQuota)
      → lookup id m.quotas ≡ some q
      → q.in_grace_period ≡ true
      → sub_u64 now q.joined_at ≤ m.config.grace_period_secs
      → size ≤ m.config.min_contribution
      → (n : ℕ) → q.bytes_used + n * size < u64_mod
      → ((can_upload fl (upload_times n) id size now).1 ≡ allowed)
        × ((user_quota fl (upload_times n) id now).bytes_used ≡ q.bytes_used + n * size)
  can_upload-grace q known grace within small n below =
      let (q', there, g, j, b, c) = counted q known grace within n below in
      ((checked (upload_times n) q' c there (rw j within)).1 g small, (rw there b))
