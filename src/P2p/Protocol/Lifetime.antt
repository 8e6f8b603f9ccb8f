-- ===== src/P2p/Protocol/Lifetime.antt =====
-- protocol.rs: how long a contract lasts.
use libre_drive.Prelude.{
  ℕ, ◌+◌, ◌-◌, ◌*◌, ◌/◌, ◌<◌, ◌≡◌, ap, ◌∙◌, inl, inr, true, false, arith, ltb, leb, ◌==◌,
  if◌then◌else◌, Bool-cases,
}
use libre_drive.Prelude.Text.{Str}
use libre_drive.Prelude.Int.{pos, negsuc, i64_half, add_i64, add_i64-pos, sub_i64-pos}
use libre_drive.P2p.Protocol.{
  StorageContract, new_contract, contract_expired, extend_contract, div_i64, days_until_expiration,
}

-- A contract that is extended at some time (from 1970 on, within the range of i64) expires exactly
-- when the given number of days is over, whatever it was before. Asked at a later time, it counts the
-- whole days that are left; once they are over it counts the whole days since then as negative, so it
-- says 0 from a day before the expiration until a day after it.
pub extend_contract-lifetime :
    (c : StorageContract) (n now later : ℕ)
    → now + n * 86400 < i64_half
    → later < i64_half
    → (contract_expired (extend_contract c n (pos now)) (pos later) ≡ ltb (now + n * 86400) later)
      × (days_until_expiration (extend_contract c n (pos now)) (pos later) ≡ (
          if leb later (now + n * 86400)
          then pos ((now + n * 86400 - later) / 86400)
          else if (later - (now + n * 86400)) / 86400 == 0
          then pos 0
          else negsuc ((later - (now + n * 86400)) / 86400 - 1)))
unfolding contract_expired extend_contract days_until_expiration div_i64
extend_contract-lifetime c n now later small later_small =
    let e : add_i64 (pos now) (pos (n * 24 * 60 * 60)) ≡ pos (now + n * 86400) =
      add_i64-pos now (n * 24 * 60 * 60) (omega arith) ∙ ap pos (omega arith) in
    let d = sub_i64-pos (now + n * 86400) later (omega arith) (omega arith) in
    (
      rw e (ground arith),
      rw (e, d)
          (elim (Bool-cases (leb later (now + n * 86400))) [
            | inl before ↦ rw before
            | inr after ↦
                let s : later - (now + n * 86400) - 1 + 1 ≡ later - (now + n * 86400) =
                  ground arith in
                rw (after, s)
          ]),
    )

-- A new contract is not expired when it is made, and has the given number of days left.
pub new_contract-lifetime :
    (fragment_id owner_id peer_id : Str) (size n now : ℕ)
    → now + n * 86400 < i64_half
    → (contract_expired (new_contract fragment_id owner_id peer_id size n (pos now)) (pos now)
        ≡ false)
      × (days_until_expiration
            (new_contract fragment_id owner_id peer_id size n (pos now))
            (pos now)
          ≡ pos n)
unfolding contract_expired new_contract days_until_expiration div_i64
new_contract-lifetime fragment_id owner_id peer_id size n now small =
    let e : add_i64 (pos now) (pos (n * 24 * 60 * 60)) ≡ pos (now + n * 86400) =
      add_i64-pos now (n * 24 * 60 * 60) (omega arith) ∙ ap pos (omega arith) in
    let d = sub_i64-pos (now + n * 86400) now (omega arith) (omega arith) in
    let b : leb now (now + n * 86400) ≡ true = ground arith in
    (rw e (ground arith), rw (e, d, b) (ap pos (omega arith)))
