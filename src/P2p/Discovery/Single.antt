-- ===== src/P2p/Discovery/Single.antt =====
-- What discovery.rs uses of `f32`.
use Prim.Native.Nat.{ℕ, compare, Ordering}
use libre_drive.Prelude.{Bool, true, false, Option, some, ◌≡◌}

-- `decimal n k` is the literal with the digits n and k places behind the point.
pub record Scores : Type 1 where
  pub F : Type 0
  pub decimal : ℕ → ℕ → F
  pub of_u64 : ℕ → F
  pub add : F → F → F
  pub sub : F → F → F
  pub mul : F → F → F
  pub div : F → F → F
  pub partial_cmp : F → F → Option Ordering

abbrev pub score_lt : (fl : Scores) → fl.F → fl.F → Bool
score_lt fl x y = elim (fl.partial_cmp x y) [ some Ordering.lt ↦ true | _ ↦ false ]

abbrev pub score_ge : (fl : Scores) → fl.F → fl.F → Bool
score_ge fl x y = elim (fl.partial_cmp x y) [
  | some Ordering.gt ↦ true
  | some Ordering.eq ↦ true
  | _ ↦ false
]

-- The scores that are numbers (not NaN) are compared as their ranks in some order.
pub record IsNumeric (fl : Scores) (IsNumber : fl.F → Type 0) : Type 0 where
  pub rank : fl.F → ℕ
  pub partial_cmp-numbers :
      (x y : fl.F) → IsNumber x → IsNumber y → fl.partial_cmp x y ≡ some (compare (rank x) (rank y))
