-- ===== src/Storage/Quota/Order.antt =====
-- quota.rs: the order in which a HashMap lists the users does not matter.
use libre_drive.Prelude.{
  ℕ, ◌*◌, ◌≡◌, refl, ap, ◌∙◌, Bool, true, false, List, [], ◌∷◌, arith, ltb, if◌then◌else◌,
}
use libre_drive.Prelude.Word.{add_u64, sub_u64}
use libre_drive.Prelude.Dict.{values}
use mathlib.Core.Quot
use mathlib.Core.Quot.{Quot}
use libre_drive.Storage.Quota.Float.{Floats}
use libre_drive.Storage.Quota.User.{UserQuota}
use libre_drive.Storage.Quota.{
  QuotaManager, NetworkStats, no_stats, count_user, count_users, get_network_stats,
}

add_u64-swap : (a b c : ℕ) → add_u64 (add_u64 a b) c ≡ add_u64 (add_u64 a c) b
add_u64-swap a b c = omega arith

active-swap :
    (n : ℕ) (p q : Bool)
    → (let k = if p then add_u64 n 1 else n in if q then add_u64 k 1 else k)
      ≡ (let k = if q then add_u64 n 1 else n in if p then add_u64 k 1 else k)
active-swap n true true = refl
active-swap n true false = refl
active-swap n false true = refl
active-swap n false false = refl

count_user-swap :
    (now : ℕ) (s : NetworkStats) (p q : UserQuota)
    → count_user now (count_user now s p) q ≡ count_user now (count_user now s q) p
unfolding count_user
count_user-swap now s p q = rw (
  add_u64-swap s.total_storage_used p.bytes_used q.bytes_used,
  add_u64-swap s.total_storage_contributed p.bytes_contributed q.bytes_contributed,
  active-swap s.active_users (ltb (sub_u64 now p.last_active) (24 * 60 * 60))
      (ltb (sub_u64 now q.last_active) (24 * 60 * 60)),
)

-- One list of users is a rearrangement of another.
pub data Rearranges : List UserQuota → List UserQuota → Type 0 where
  no_users : Rearranges [] []
  same_first :
      {ps qs : List UserQuota} (p : UserQuota) → Rearranges ps qs → Rearranges (p ∷ ps) (p ∷ qs)
  first_two : (p q : UserQuota) (ps : List UserQuota) → Rearranges (p ∷ q ∷ ps) (q ∷ p ∷ ps)
  in_steps : {ps qs rs : List UserQuota} → Rearranges ps qs → Rearranges qs rs → Rearranges ps rs

-- The users of a map that has no order.
abbrev pub Users : Type 0
Users = Quot Rearranges

abbrev pub users : {fl : Floats} → QuotaManager fl → Users
users m = Quot.mk (values m.quotas)

count_users-Rearranges :
    (now : ℕ) (s : NetworkStats) {ps qs : List UserQuota}
    → Rearranges ps qs
    → count_users now s ps ≡ count_users now s qs
unfolding count_users
count_users-Rearranges now s no_users = refl
count_users-Rearranges now s (same_first p h) = count_users-Rearranges now (count_user now s p) h
count_users-Rearranges now s (first_two p q ps) =
    ap (λ t. count_users now t ps) (count_user-swap now s p q)
count_users-Rearranges now s (in_steps g h) =
    count_users-Rearranges now s g ∙ count_users-Rearranges now s h

counted : ℕ → Users → NetworkStats
counted now =
    Quot.lift (hlevel) (count_users now no_stats) (λ ps qs h. count_users-Rearranges now no_stats h)

-- The network statistics do not depend on the order in which the map lists the users: managers with
-- the same users, taken without an order, have the same statistics.
pub get_network_stats-unordered :
    (fl : Floats) (m n : QuotaManager fl) (now : ℕ)
    → users m ≡ users n
    → get_network_stats fl m now ≡ get_network_stats fl n now
unfolding get_network_stats counted
get_network_stats-unordered fl m n now same =
    let e : count_users now no_stats (values m.quotas)
        ≡ count_users now no_stats (values n.quotas) =
      ap (counted now) same in
    rw e
