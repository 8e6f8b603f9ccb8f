-- ===== src/Storage/Quota/Books.antt =====
-- quota.rs: each call keeps the books of a `QuotaManager`.
use libre_drive.Prelude.{
  ℕ, ◌+◌, ◌-◌, ◌*◌, ◌^◌, ◌≤◌, ◌<◌, ◌≡◌, sym, subst, ◌⊎◌, inl, inr, true, false, arith,
}
use libre_drive.Prelude.Text.{Str}
use libre_drive.Prelude.Word.{add_u64-eq}
use libre_drive.Prelude.Dict.{total}
use native.Mathlib.Nat.{div-le_of_le-mul, mul-le-mul_left, mul_comm}
use libre_drive.Storage.Quota.Float.{Floats, IsRatio}
use libre_drive.Storage.Quota.User.{
  QuotaConfig, UserQuota, earned, user_can_upload, check_grace_period,
}
use libre_drive.Storage.Quota.{QuotaManager, new, user_quota, put_quota, record_upload}
use libre_drive.Storage.Quota.Fits.{user_can_upload-fits}
use libre_drive.Storage.Quota.Totals.{excess, used, contributed, overdrawn, put_quota-Written}

module _ (fl : Floats) where
  module _ (r : fl.F) (p q : ℕ) (ratio : IsRatio fl r p q) (fair : q ≤ p) where
    -- A manager with that ratio: at most `n` bytes are used and contributed, and at most `g` bytes are
    -- used beyond the contributions.
    pub record Books (n g : ℕ) (m : QuotaManager fl) : Type 0 where
      pub ratio_kept : m.config.contribution_ratio ≡ r
      pub within : used m.quotas + contributed m.quotas ≤ n
      pub beyond : overdrawn m.quotas ≤ g

    pub put_quota-Books :
        (n g s u : ℕ) (m : QuotaManager fl) (id : Str) (now : ℕ) (a : UserQuota)
        → Books n g m
        → let b = user_quota fl m id now in
          a.bytes_used + a.bytes_contributed ≤ b.bytes_used + b.bytes_contributed + s
          → excess a ≤ excess b + u
          → Books (n + s) (g + u) (put_quota fl m id a)
    put_quota-Books n g s u m id now a h more beyond =
        let w = put_quota-Written fl m id now a in
        let spent = w.spent in
        let given = w.given in
        let over = w.beyond in
        let within = h.within in
        let before = h.beyond in
        record { ratio_kept = h.ratio_kept; within = omega arith; beyond = omega arith }

    -- The bytes of a user are small.
    pub small :
        (n g : ℕ) (m : QuotaManager fl) (id : Str) (now : ℕ)
        → Books n g m
        → let b = user_quota fl m id now in b.bytes_used + b.bytes_contributed ≤ n
    small n g m id now h =
        let w = put_quota-Written fl m id now (user_quota fl m id now) in
        let a = w.little in let b = w.least in let c = h.within in omega arith

    -- What a contribution earns is no more than the contribution.
    pub earned_le :
        (config : QuotaConfig fl.F) (a : UserQuota)
        → config.contribution_ratio ≡ r
        → a.bytes_contributed < 2 ^ 50
        → earned fl config a ≤ a.bytes_contributed
    earned_le config a same below =
        subst (λ t. fl.to_u64 (fl.div (fl.of_u64 a.bytes_contributed) t) ≤ a.bytes_contributed)
          (sym same)
          (subst (λ t. t ≤ a.bytes_contributed) (sym (ratio.div-cut a.bytes_contributed below))
            (div-le_of_le-mul p (cut a.bytes_contributed)))
      where
        cut : (n : ℕ) → n * q ≤ p * n
        cut n = subst (λ t. n * q ≤ t) (mul_comm n p) (mul-le-mul_left n fair)

    -- An upload that is allowed outside the grace period is paid for.
    pub paid :
        (config : QuotaConfig fl.F) (a : UserQuota) (size : ℕ)
        → config.contribution_ratio ≡ r
        → a.bytes_contributed < 2 ^ 50
        → a.in_grace_period ≡ false
        → user_can_upload fl config a size ≡ true
        → (size ≡ 0) ⊎ (a.bytes_used + size ≤ a.bytes_contributed)
    paid config a size same below out may =
        let e = earned_le config a same below in
        elim ((user_can_upload-fits fl config a size out).0 may) [
          | inl zeros ↦ inl zeros
          | inr fits ↦ inr (omega arith)
        ]

    pub checked :
        {F : Type 0} (config : QuotaConfig F) (now : ℕ) (a : UserQuota)
        → ((check_grace_period config now a).bytes_used ≡ a.bytes_used)
          × ((check_grace_period config now a).bytes_contributed ≡ a.bytes_contributed)
    unfolding check_grace_period
    checked config now a = ground arith

    -- An account whose bytes stay may be written back.
    pub same-Books :
        (n g : ℕ) (m : QuotaManager fl) (id : Str) (now : ℕ) (a : UserQuota)
        → Books n g m
        → let b = user_quota fl m id now in
          (a.bytes_used ≡ b.bytes_used) × (a.bytes_contributed ≡ b.bytes_contributed)
          → Books n g (put_quota fl m id a)
    same-Books n g m id now a h (e, f) =
        let k = put_quota-Books n g 0 0 m id now a h (omega arith) (omega arith) in
        record {
          ratio_kept = k.ratio_kept;
          within = (let w = k.within in omega arith);
          beyond = (let b = k.beyond in omega arith);
        }

    pub record_upload-Books :
        (n g u : ℕ) (m : QuotaManager fl) (id : Str) (size now : ℕ)
        → n + size < 2 ^ 50
        → Books n g m
        → let b = user_quota fl m id now in
          b.bytes_used + size - b.bytes_contributed ≤ excess b + u
          → Books (n + size) (g + u) (record_upload fl m id size now)
    unfolding record_upload
    record_upload-Books n g u m id size now below h more =
        let tiny = small n g m id now h in
        let count = add_u64-eq (user_quota fl m id now).bytes_used size (omega arith) in
        put_quota-Books n g size u m id now _ h (rw count (omega arith)) (rw count more)

    pub wider : (n g s u : ℕ) (m : QuotaManager fl) → Books n g m → Books (n + s) (g + u) m
    wider n g s u m h = record {
      ratio_kept = h.ratio_kept;
      within = (let w = h.within in omega arith);
      beyond = (let b = h.beyond in omega arith);
    }

    -- No account yet.
    pub new-Books :
        (config : QuotaConfig fl.F) → config.contribution_ratio ≡ r → Books 0 0 (new fl config)
    unfolding new used contributed overdrawn total
    new-Books config same = record { ratio_kept = same; within = omega arith; beyond = omega arith }
