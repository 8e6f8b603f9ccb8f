-- ===== src/Tests/Accounts.antt =====
-- quota.rs and the index of file_manager.rs at concrete inputs.
use libre_drive.Prelude.{
  ℕ, ◌+◌, ◌*◌, ◌/◌, ◌≤◌, min, ◌≡◌, refl, ◌↔◌, ◌⊎◌, true, false, none, some, [], ◌∷◌, arith, leb,
  if◌then◌else◌, length, ◌==◌,
}
use libre_drive.Prelude.Result.{Result, ok, err}
use libre_drive.Prelude.Text.{Str, text, str_eq}
use libre_drive.Prelude.Int.{pos}
use libre_drive.Prelude.Dict.{Dict, lookup, IsMap}
use libre_drive.Storage.Erasure
use libre_drive.Storage.FileManager.{FileManager, FileMetadata}
use libre_drive.Storage.Quota.Float.{Floats, IsRatio}
use libre_drive.Storage.Quota.User.{
  QuotaConfig, UserQuota, earned, user_can_upload, check_grace_period,
}
use libre_drive.Storage.Quota.{QuotaManager, allowed, user_quota, can_upload, needed_contribution}
use libre_drive.Storage.Quota.Laws.{can_upload-exact}
use libre_drive.Storage.Quota.Needed.{can_upload-needed_short}
use libre_drive.Storage.Quota.Grace.{can_upload-grace, upload_times}

-- Fractions as pairs of a numerator and a denominator.
abbrev pub fractions : Floats
fractions = record {
  F = ℕ × ℕ;
  of_u64 = λ n. (n, 1);
  to_u64 = λ x. x.0 / x.1;
  mul = λ x y. (x.0 * y.0, x.1 * y.1);
  div = λ x y. (x.0 * y.1, x.1 * y.0);
  minimum = λ x y. if leb (x.0 * y.1) (y.0 * x.1) then x else y;
}

pub three_halves-IsRatio : IsRatio fractions (3, 2) 3 2
three_halves-IsRatio = record { mul-cut = λ n small. refl; div-cut = λ n small. refl }

abbrev pub config : ℕ × ℕ → QuotaConfig (ℕ × ℕ)
config ratio = record {
  min_contribution = 100;
  max_usage = 1000;
  contribution_ratio = ratio;
  grace_period_secs = 60;
}

abbrev alice : UserQuota
alice = record {
  user_id = text "alice";
  bytes_used = 20;
  bytes_contributed = 25;
  files_count = 1;
  shards_hosted = 2;
  joined_at = 1000;
  last_active = 1000;
  in_grace_period = false;
}

abbrev newcomer : UserQuota
newcomer = record alice { in_grace_period = true }

abbrev manager : UserQuota → QuotaManager fractions
manager q = record { config = config (1, 1); quotas = (text "alice", q) ∷ [] }

known : (q : UserQuota) → lookup (text "alice") (manager q).quotas ≡ some q
unfolding lookup str_eq
known q = refl

can_upload-exact_example :
    (((can_upload fractions (manager alice) (text "alice") 7 2000).1 ≡ allowed)
      ↔ ((◌≡◌ {A = ℕ} 7 0) ⊎ (20 + 7 ≤ min (earned fractions (config (1, 1)) alice) 1000)))
    × ((j : Str)
        → str_eq (text "alice") j ≡ false
        → lookup j (can_upload fractions (manager alice) (text "alice") 7 2000).0.quotas
          ≡ lookup j (manager alice).quotas)
    × (lookup (text "alice") (can_upload fractions (manager alice) (text "alice") 7 2000).0.quotas
        ≡ some (check_grace_period (config (1, 1)) 2000 alice))
can_upload-exact_example =
    can_upload-exact fractions (manager alice) (text "alice") 7 2000 alice (known alice)
      (unfold check_grace_period in refl)

can_upload-needed_short_example :
    user_can_upload fractions
      (config (3, 2))
      (record alice {
        bytes_contributed = 25 + needed_contribution fractions (config (3, 2)) alice 7;
      })
      7
    ≡ false
can_upload-needed_short_example =
    can_upload-needed_short fractions (config (3, 2)) alice 7 (omega arith) refl
      three_halves-IsRatio refl (omega arith) (omega arith)

can_upload-grace_example :
    ((can_upload fractions
        (upload_times fractions (manager newcomer) (text "alice") 100 1030 50)
        (text "alice")
        100
        1030).1
      ≡ allowed)
    × ((user_quota fractions
          (upload_times fractions (manager newcomer) (text "alice") 100 1030 50)
          (text "alice")
          1030).bytes_used
        ≡ 20 + 50 * 100)
can_upload-grace_example =
    can_upload-grace fractions (manager newcomer) (text "alice") 100 1030 newcomer (known newcomer)
      refl (omega arith) (omega arith) 50 (omega arith)

abbrev file_named : Str → ℕ → FileMetadata
file_named id size = record {
  file_id = id;
  filename = text "f.txt";
  size = size;
  mime_type = text "text/plain";
  encrypted_hash = text "h";
  erasure_config = Erasure.default;
  shards = [];
  created_at = pos 1;
  modified_at = pos 1;
  owner_id = text "alice";
  is_shared = false;
  shared_with = [];
  encrypted_file_key = [];
  folder_id = none;
  tags = [];
}

abbrev library : FileManager
library = record {
  identity = record {
    master_seed = [];
    signing_keys = record { signing_key = []; verifying_key = [] };
    encryption_key = record { key = [] };
    node_id = [];
  };
  file_index = (text "a", file_named (text "a") 3) ∷ (text "b", file_named (text "b") 4) ∷ [];
  erasure_config = Erasure.default;
  cache_path = text "cache";
  upload_progress_tx = none;
  download_progress_tx = none;
}

library-IsMap : IsMap library.file_index
unfolding lookup str_eq
library-IsMap = (refl, (refl, tt))

-- A text for the library, which is read with the files in the other order.
abbrev to_text : Dict FileMetadata → Result Str Str
to_text index = if length index == 2 then ok (text "a, b") else err (text "another index")

abbrev swapped : Dict FileMetadata
swapped = (text "b", file_named (text "b") 4) ∷ (text "a", file_named (text "a") 3) ∷ []

abbrev from_text : Str → Result Str (Dict FileMetadata)
from_text s = if str_eq s (text "a, b") then ok swapped else err (text "not an index")

-- A manager with another file under "b", and one under "c".
abbrev second_library : FileManager
second_library = record library {
  file_index = (text "b", file_named (text "b") 9) ∷ (text "c", file_named (text "c") 5) ∷ [];
}
