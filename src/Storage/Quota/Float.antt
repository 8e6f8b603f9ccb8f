-- ===== src/Storage/Quota/Float.antt =====
-- What quota.rs uses of `f64`.
use libre_drive.Prelude.{ℕ, ◌*◌, ◌/◌, ◌^◌, ◌<◌, ◌≡◌}

-- `of_u64 n` is `n as f64`, and `to_u64 x` is `x as u64`.
pub record Floats : Type 1 where
  pub F : Type 0
  pub of_u64 : ℕ → F
  pub to_u64 : F → ℕ
  pub mul : F → F → F
  pub div : F → F → F
  pub minimum : F → F → F

-- A factor that behaves as the fraction p / q on whole numbers below 2^50: products and quotients are
-- cut off to whole numbers. (Such are the numbers 1.0 and 1.5 of IEEE 754.)
pub record IsRatio (fl : Floats) (r : fl.F) (p q : ℕ) : Type 0 where
  pub mul-cut : (n : ℕ) → n < 2 ^ 50 → fl.to_u64 (fl.mul (fl.of_u64 n) r) ≡ n * p / q
  pub div-cut : (n : ℕ) → n < 2 ^ 50 → fl.to_u64 (fl.div (fl.of_u64 n) r) ≡ n * q / p
