-- ===== src/Tests/Books.antt =====
-- quota.rs: a history of accounts at concrete inputs.
use libre_drive.Prelude.{◌+◌, ◌≡◌, ◌≤◌, List, [], ◌∷◌, arith}
use libre_drive.Prelude.Text.{text}
use mathlib.Core.Quot
use libre_drive.Storage.Quota.{QuotaManager, new, get_network_stats}
use libre_drive.Storage.Quota.User.{UserQuota, new_user}
use libre_drive.Storage.Quota.Order.{first_two, get_network_stats-unordered}
use libre_drive.Storage.Quota.History.{
  Event, upload, deletion, shard_hosted, shard_removed, summary, run, all_unpaid,
}
use libre_drive.Storage.Quota.Balance.{get_network_stats-balanced}
use libre_drive.Tests.Accounts.{fractions, config, three_halves-IsRatio}

-- Alice hosts 60 bytes, uploads 50 in her grace period and is then refused 1; Bob uploads in his.
abbrev accounts_history : List Event
accounts_history =
    shard_hosted (text "alice") 60 1000
    ∷ upload (text "alice") 50 1001
    ∷ summary (text "alice") 1100
    ∷ upload (text "alice") 1 1101
    ∷ upload (text "bob") 100 1102
    ∷ shard_removed (text "alice") 10
    ∷ deletion (text "bob") 40
    ∷ []

get_network_stats-balanced_example :
    let m = run fractions (new fractions (config (3, 2))) accounts_history in
    (get_network_stats fractions m 1200).total_storage_used
    ≤ (get_network_stats fractions m 1200).total_storage_contributed
      + all_unpaid fractions (new fractions (config (3, 2))) accounts_history
get_network_stats-balanced_example =
    get_network_stats-balanced fractions (config (3, 2)) 3 2 three_halves-IsRatio (omega arith)
      accounts_history 1200 (omega arith)

-- The same two users in either order.
abbrev carol : UserQuota
carol = record (new_user (text "carol") 1000) { bytes_used = 7; bytes_contributed = 9 }

abbrev dave : UserQuota
dave = record (new_user (text "dave") 2000) { bytes_used = 5; bytes_contributed = 4 }

abbrev carol_first : QuotaManager fractions
carol_first = record {
  config = config (1, 1);
  quotas = (text "carol", carol) ∷ (text "dave", dave) ∷ [];
}

abbrev dave_first : QuotaManager fractions
dave_first = record {
  config = config (1, 1);
  quotas = (text "dave", dave) ∷ (text "carol", carol) ∷ [];
}

get_network_stats-unordered_example :
    get_network_stats fractions carol_first 3000 ≡ get_network_stats fractions dave_first 3000
get_network_stats-unordered_example =
    get_network_stats-unordered fractions carol_first dave_first 3000
      (Quot.sound (first_two carol dave []))
