-- ===== src/Storage/Quota/Totals.antt =====
-- quota.rs: the bytes of all users together.
use libre_drive.Prelude.{
  ℕ, ◌+◌, ◌-◌, ◌≤◌, ◌<◌, ◌≡◌, subst, inl, inr, some, [], ◌∷◌, arith, Bool-cases, Option-cases,
}
use libre_drive.Prelude.Text.{Str, str_eq}
use libre_drive.Prelude.Word.{u64_mod, add_u64-eq}
use libre_drive.Prelude.Dict.{Dict, lookup, values, total, total-insert}
use libre_drive.Storage.Quota.Float.{Floats}
use libre_drive.Storage.Quota.User.{UserQuota}
use libre_drive.Storage.Quota.{
  QuotaManager, user_quota, put_quota, NetworkStats, count_user, count_users,
}

-- What a user uses beyond the contribution.
abbrev pub excess : UserQuota → ℕ
excess q = q.bytes_used - q.bytes_contributed

unfoldable pub used : Dict UserQuota → ℕ
used = total (λ q. q.bytes_used)

unfoldable pub contributed : Dict UserQuota → ℕ
contributed = total (λ q. q.bytes_contributed)

unfoldable pub overdrawn : Dict UserQuota → ℕ
overdrawn = total excess

pub used-overdrawn : (quotas : Dict UserQuota) → used quotas ≤ contributed quotas + overdrawn quotas
unfolding used contributed overdrawn total
used-overdrawn [] = omega arith
used-overdrawn ((id, q) ∷ quotas) = omega (arith, used-overdrawn quotas)

-- A user's bytes are among all.
known-within :
    (id : Str) (q : UserQuota) (quotas : Dict UserQuota)
    → lookup id quotas ≡ some q
    → (q.bytes_used ≤ used quotas) × (q.bytes_contributed ≤ contributed quotas)
unfolding used contributed total lookup
known-within id q [] known = absurd (ground arith)
known-within id q ((j, r) ∷ quotas) known = elim (Bool-cases (str_eq j id)) [
  | inl here ↦
      let same : r ≡ q = ground arith in
      (
        subst (λ t. t.bytes_used ≤ r.bytes_used + total (λ s. s.bytes_used) quotas) same
            (omega arith),
        subst
            (λ t.
              t.bytes_contributed ≤ r.bytes_contributed + total (λ s. s.bytes_contributed) quotas)
            same (omega arith),
      )
  | inr other ↦ let (a, b) = known-within id q quotas (ground arith) in (omega arith, omega arith)
]

-- The totals of the statistics, while they fit in 64 bits.
pub count_users-totals :
    (now : ℕ) (quotas : Dict UserQuota) (s : NetworkStats)
    → s.total_storage_used + used quotas < u64_mod
    → s.total_storage_contributed + contributed quotas < u64_mod
    → let t = count_users now s (values quotas) in
      (t.total_storage_used ≡ s.total_storage_used + used quotas)
      × (t.total_storage_contributed ≡ s.total_storage_contributed + contributed quotas)
unfolding count_users count_user used contributed total
count_users-totals now [] s h k = (omega arith, omega arith)
count_users-totals now ((id, q) ∷ quotas) s h k =
    let t = count_user now s q in
    let a = add_u64-eq s.total_storage_used q.bytes_used (omega arith) in
    let b = add_u64-eq s.total_storage_contributed q.bytes_contributed (omega arith) in
    let (u, v) = count_users-totals now quotas t (omega (arith, a)) (omega (arith, b)) in
    (omega (arith, a, u), omega (arith, b, v))

module _ (fl : Floats) where
  -- The books after an account has been written: the totals change as the account does.
  pub record Written (quotas quotas' : Dict UserQuota) (q q' : UserQuota) : Type 0 where
    pub spent : used quotas' + q.bytes_used ≡ used quotas + q'.bytes_used
    pub given :
        contributed quotas' + q.bytes_contributed ≡ contributed quotas + q'.bytes_contributed
    pub beyond : overdrawn quotas' + excess q ≡ overdrawn quotas + excess q'
    pub little : q.bytes_used ≤ used quotas
    pub least : q.bytes_contributed ≤ contributed quotas

  pub put_quota-Written :
      (m : QuotaManager fl) (id : Str) (now : ℕ) (q' : UserQuota)
      → Written m.quotas (put_quota fl m id q').quotas (user_quota fl m id now) q'
  unfolding used contributed overdrawn
  put_quota-Written m id now q' = elim (Option-cases (lookup id m.quotas)) [
    | inl unknown ↦ rw unknown (record {
      spent = rw unknown at (total-insert (λ q. q.bytes_used) id q' m.quotas);
      given = rw unknown at (total-insert (λ q. q.bytes_contributed) id q' m.quotas);
      beyond = rw unknown at (total-insert excess id q' m.quotas);
      little = omega arith;
      least = omega arith;
    })
    | inr (q, known) ↦
        let (a, b) = known-within id q m.quotas known in
        rw known (record {
          spent = rw known at (total-insert (λ q. q.bytes_used) id q' m.quotas);
          given = rw known at (total-insert (λ q. q.bytes_contributed) id q' m.quotas);
          beyond = rw known at (total-insert excess id q' m.quotas);
          little = a;
          least = b;
        })
  ]
