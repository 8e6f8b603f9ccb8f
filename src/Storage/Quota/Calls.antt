-- ===== src/Storage/Quota/Calls.antt =====
-- quota.rs: every call keeps the books.
use libre_drive.Prelude.{
  ℕ, ◌+◌, ◌^◌, ◌≤◌, ◌<◌, ◌≡◌, refl, inl, inr, Bool, true, false, ◌&&◌, List, [], ◌∷◌, map, arith,
  if◌then◌else◌, Bool-cases, Option-cases, sum,
}
use libre_drive.Prelude.Text.{Str, str_eq_refl}
use libre_drive.Prelude.Word.{add_u64-eq}
use libre_drive.Prelude.Dict.{Dict, lookup, insert, lookup-insert}
use libre_drive.Storage.Quota.Float.{Floats, IsRatio}
use libre_drive.Storage.Quota.User.{UserQuota, user_can_upload, check_grace_period}
use libre_drive.Storage.Quota.{
  QuotaManager, allowed, insufficient_quota, or_new, user_quota, put_quota, can_upload,
  record_deletion, record_shard_hosted, record_shard_removed, get_quota_summary,
}
use libre_drive.Storage.Quota.History.{
  Event, upload, deletion, shard_hosted, shard_removed, summary, is_allowed, step, run, unpaid,
  all_unpaid, size_of,
}
use libre_drive.Storage.Quota.Books.{
  Books, put_quota-Books, small, paid, checked, same-Books, record_upload-Books, wider,
}

module _ (fl : Floats) (r : fl.F) (p q : ℕ) (ratio : IsRatio fl r p q) (fair : q ≤ p) where
  inserted :
      (id : Str) (now : ℕ) (a : UserQuota) (quotas : Dict UserQuota)
      → or_new fl id now (lookup id (insert id a quotas)) ≡ a
  inserted id now a quotas = rw (lookup-insert id id a quotas, str_eq_refl id)

  -- The two tests of an upload.
  decided :
      (n g size current needed : ℕ) (message : Str) (may grace : Bool)
      (before after : QuotaManager fl)
      → Books fl r p q ratio fair n g before
      → ((u : ℕ)
          → may ≡ true
          → (grace ≡ true → u ≡ size)
          → Books fl r p q ratio fair (n + size) (g + u) after)
      → let answer = if may then allowed else insufficient_quota current needed message in
        Books fl r p q ratio fair
          (n + size)
          (g + (if grace && is_allowed answer then size else 0))
          (if is_allowed answer then after else before)
  decided n g size current needed message true true before after h k = k size refl (λ e. refl)
  decided n g size current needed message true false before after h k = k 0 refl (λ e. cc)
  decided n g size current needed message false true before after h k = record {
    ratio_kept = h.ratio_kept;
    within = (let w = h.within in omega arith);
    beyond = (let b = h.beyond in omega arith);
  }
  decided n g size current needed message false false before after h k = record {
    ratio_kept = h.ratio_kept;
    within = (let w = h.within in omega arith);
    beyond = (let b = h.beyond in omega arith);
  }

  upload-Books :
      (n g : ℕ) (m : QuotaManager fl) (id : Str) (size now : ℕ)
      → n + size < 2 ^ 50
      → Books fl r p q ratio fair n g m
      → Books fl r p q ratio fair
          (n + size)
          (g + unpaid fl m (upload id size now))
          (step fl m (upload id size now))
  unfolding step unpaid can_upload
  upload-Books n g m id size now below h =
      let a = check_grace_period m.config now (user_quota fl m id now) in
      let c = checked fl r p q ratio fair m.config now (user_quota fl m id now) in
      let tiny = small fl r p q ratio fair n g m id now h in
      decided n g size _ _ _ (user_can_upload fl m.config a size) a.in_grace_period
        (put_quota fl m id a) _ (same-Books fl r p q ratio fair n g m id now a h c)
        (λ u may grace.
          record_upload-Books fl r p q ratio fair n g u (put_quota fl m id a) id size now below
            (same-Books fl r p q ratio fair n g m id now a h c)
            (rw (inserted id now a m.quotas) (elim (Bool-cases a.in_grace_period) [
              | inl young ↦ (let e = grace young in omega arith)
              | inr out ↦
                  elim (paid fl r p q ratio fair m.config a size h.ratio_kept (omega arith) out
                    may) [ inl zeros ↦ omega arith | inr fits ↦ omega arith ]
            ])))

  shard_hosted-Books :
      (n g : ℕ) (m : QuotaManager fl) (id : Str) (size now : ℕ)
      → n + size < 2 ^ 50
      → Books fl r p q ratio fair n g m
      → Books fl r p q ratio fair (n + size) (g + 0) (step fl m (shard_hosted id size now))
  unfolding step record_shard_hosted
  shard_hosted-Books n g m id size now below h =
      let tiny = small fl r p q ratio fair n g m id now h in
      let count = add_u64-eq (user_quota fl m id now).bytes_contributed size (omega arith) in
      put_quota-Books fl r p q ratio fair n g size 0 m id now _ h (rw count (omega arith))
        (rw count (omega arith))

  deletion-Books :
      (n g : ℕ) (m : QuotaManager fl) (id : Str) (size : ℕ)
      → Books fl r p q ratio fair n g m
      → Books fl r p q ratio fair (n + size) (g + 0) (step fl m (deletion id size))
  unfolding step record_deletion
  deletion-Books n g m id size h = elim (Option-cases (lookup id m.quotas)) [
    | inl unknown ↦ rw unknown (wider fl r p q ratio fair n g size 0 m h)
    | inr (a, known) ↦ rw known (
        put_quota-Books fl r p q ratio fair n g size 0 m id 0 _ h (rw known (omega arith))
          (rw known (omega arith)))
  ]

  shard_removed-Books :
      (n g : ℕ) (m : QuotaManager fl) (id : Str) (size : ℕ)
      → Books fl r p q ratio fair n g m
      → Books fl r p q ratio fair (n + size) (g + size) (step fl m (shard_removed id size))
  unfolding step record_shard_removed
  shard_removed-Books n g m id size h = elim (Option-cases (lookup id m.quotas)) [
    | inl unknown ↦ rw unknown (wider fl r p q ratio fair n g size size m h)
    | inr (a, known) ↦ rw known (
        put_quota-Books fl r p q ratio fair n g size size m id 0 _ h (rw known (omega arith))
          (rw known (omega arith)))
  ]

  summary-Books :
      (n g : ℕ) (m : QuotaManager fl) (id : Str) (now : ℕ)
      → Books fl r p q ratio fair n g m
      → Books fl r p q ratio fair (n + 0) (g + 0) (step fl m (summary id now))
  unfolding step get_quota_summary
  summary-Books n g m id now h = wider fl r p q ratio fair n g 0 0 _ (
      same-Books fl r p q ratio fair n g m id now _ h
        (checked fl r p q ratio fair m.config now (user_quota fl m id now)))

  step-Books :
      (e : Event) (n g : ℕ) (m : QuotaManager fl)
      → n + size_of e < 2 ^ 50
      → Books fl r p q ratio fair n g m
      → Books fl r p q ratio fair (n + size_of e) (g + unpaid fl m e) (step fl m e)
  unfolding unpaid
  step-Books (upload id size now) n g m below h = upload-Books n g m id size now below h
  step-Books (deletion id size) n g m below h = deletion-Books n g m id size h
  step-Books (shard_hosted id size now) n g m below h = shard_hosted-Books n g m id size now below h
  step-Books (shard_removed id size) n g m below h = shard_removed-Books n g m id size h
  step-Books (summary id now) n g m below h = summary-Books n g m id now h

  pub run-Books :
      (es : List Event) (n g : ℕ) (m : QuotaManager fl)
      → n + sum (map size_of es) < 2 ^ 50
      → Books fl r p q ratio fair n g m
      → Books fl r p q ratio fair (n + sum (map size_of es)) (g + all_unpaid fl m es) (run fl m es)
  unfolding run all_unpaid
  run-Books [] n g m below h = wider fl r p q ratio fair n g 0 0 m h
  run-Books (e ∷ es) n g m below h =
      let k =
        run-Books es (n + size_of e) (g + unpaid fl m e) (step fl m e) (omega arith)
          (step-Books e n g m (omega arith) h) in
      record {
        ratio_kept = k.ratio_kept;
        within = (let w = k.within in omega arith);
        beyond = (let b = k.beyond in omega arith);
      }
