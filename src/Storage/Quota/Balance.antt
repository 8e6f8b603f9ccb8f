-- ===== src/Storage/Quota/Balance.antt =====
-- quota.rs: over any history, what is used is covered by what is contributed.
use libre_drive.Prelude.{ℕ, ◌+◌, ◌^◌, ◌≤◌, ◌<◌, refl, List, map, arith, sum}
use libre_drive.Storage.Quota.Float.{Floats, IsRatio}
use libre_drive.Storage.Quota.User.{QuotaConfig}
use libre_drive.Storage.Quota.{new, no_stats, get_network_stats}
use libre_drive.Storage.Quota.History.{Event, run, all_unpaid, size_of}
use libre_drive.Storage.Quota.Totals.{used-overdrawn, count_users-totals}
use libre_drive.Storage.Quota.Books.{new-Books}
use libre_drive.Storage.Quota.Calls.{run-Books}

-- With a contribution ratio that is a fraction of at least 1, over any history of uploads (asked for
-- first, and recorded if allowed), deletions, hosted and removed shards and summaries, whose sizes sum
-- up to less than 2^50: the network statistics never show more storage used than contributed, beyond
-- the sizes of the uploads that were allowed in a grace period and of the hosted shards that were
-- removed.
pub get_network_stats-balanced :
    (fl : Floats) (config : QuotaConfig fl.F) (p q : ℕ)
    → IsRatio fl config.contribution_ratio p q
    → q ≤ p
    → (es : List Event) (now : ℕ) → sum (map size_of es) < 2 ^ 50
    → let s = get_network_stats fl (run fl (new fl config) es) now in
      s.total_storage_used ≤ s.total_storage_contributed + all_unpaid fl (new fl config) es
unfolding get_network_stats
get_network_stats-balanced fl config p q ratio fair es now below =
    let r = config.contribution_ratio in
    let quotas = (run fl (new fl config) es).quotas in
    let b =
      run-Books fl r p q ratio fair es 0 0 (new fl config) (omega arith)
        (new-Books fl r p q ratio fair config refl) in
    let w = b.within in
    let over = b.beyond in
    let c = used-overdrawn quotas in
    let (u, v) = count_users-totals now quotas no_stats (omega arith) (omega arith) in omega arith
