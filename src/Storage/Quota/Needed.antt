-- ===== src/Storage/Quota/Needed.antt =====
-- quota.rs: the contribution that a refusal asks for.
use libre_drive.Prelude.{ℕ, ◌+◌, ◌*◌, ◌/◌, ◌%◌, ◌^◌, ◌≤◌, ◌<◌, ◌≡◌, true, false, arith}
use libre_drive.Prelude.Word.{add_u64-eq}
use libre_drive.Storage.Quota.Float.{Floats, IsRatio}
use libre_drive.Storage.Quota.User.{QuotaConfig, UserQuota, user_can_upload}
use libre_drive.Storage.Quota.{needed_contribution}
use libre_drive.Storage.Quota.Fits.{user_can_upload-fits}

module _ (fl : Floats) (config : QuotaConfig fl.F) (q : UserQuota) (size : ℕ)
    (used : q.bytes_used + size < 2 ^ 49) (out : q.in_grace_period ≡ false) where
  -- With the ratio 1, for sizes below 2^49 within the maximum, outside the grace period: who
  -- contributes what a refusal asks for, or more, may then upload.
  pub can_upload-needed :
      IsRatio fl config.contribution_ratio 1 1
      → q.bytes_used + size ≤ config.max_usage
      → (n : ℕ) → q.bytes_contributed + needed_contribution fl config q size ≤ n
      → n < 2 ^ 50
      → user_can_upload fl config (record q { bytes_contributed = n }) size ≡ true
  unfolding needed_contribution
  can_upload-needed ratio room n enough bound =
      let w = add_u64-eq q.bytes_used size (omega arith) in
      let a = ratio.mul-cut (q.bytes_used + size) (omega arith) in
      let b = ratio.div-cut n bound in
      let f = user_can_upload-fits fl config (record q { bytes_contributed = n }) size out in
      ground (arith, f, w, a, b)

  -- With the ratio 3/2, for sizes below 2^49 outside the grace period: a user short of contribution
  -- whose bytes used would come to an odd number is asked for too little. Who contributes exactly what
  -- the refusal asks for is refused again.
  pub can_upload-needed_short :
      IsRatio fl config.contribution_ratio 3 2
      → (q.bytes_used + size) % 2 ≡ 1
      → 0 < size
      → q.bytes_contributed ≤ (q.bytes_used + size) * 3 / 2
      → user_can_upload fl config
          (record q {
            bytes_contributed = q.bytes_contributed + needed_contribution fl config q size;
          })
          size
        ≡ false
  unfolding needed_contribution
  can_upload-needed_short ratio odd some_bytes short =
      let n = q.bytes_contributed + needed_contribution fl config q size in
      let w = add_u64-eq q.bytes_used size (omega arith) in
      let a = ratio.mul-cut (q.bytes_used + size) (omega arith) in
      let same : n ≡ (q.bytes_used + size) * 3 / 2 = rw (w, a) (omega arith) in
      let b = ratio.div-cut n (omega arith) in
      let f = user_can_upload-fits fl config (record q { bytes_contributed = n }) size out in
      ground (arith, f, b, same)
