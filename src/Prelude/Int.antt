-- ===== src/Prelude/Int.antt =====
-- Signed 64-bit integers: `i64` over a type of integers built on the native numbers.
use Prim.Native.Nat.{ℕ, suc, ◌+◌, ◌-◌, ◌^◌, ◌≤◌}
use mathlib.Core.Path.{◌≡◌}
use mathlib.Core.Bool.{Bool}
use native.Mathlib.Omega.{arith}
use libre_drive.Prelude.Tests.{ltb, leb, if◌then◌else◌}

-- `negsuc n` is -(n + 1).
pub data ℤ : Type 0 where
  pos : ℕ → ℤ
  negsuc : ℕ → ℤ

abbrev pub pos_part : ℤ → ℕ
pos_part (pos n) = n
pos_part (negsuc n) = 0

abbrev pub neg_part : ℤ → ℕ
neg_part (pos n) = 0
neg_part (negsuc n) = suc n

-- a - b, as an integer.
abbrev pub sub_ℕ : ℕ → ℕ → ℤ
sub_ℕ a b = if leb b a then pos (a - b) else negsuc (b - a - 1)

infix 50 ◌≤ℤ◌
abbrev pub ◌≤ℤ◌ : ℤ → ℤ → Type 0
a ≤ℤ b = pos_part a + neg_part b ≤ pos_part b + neg_part a

-- a < b, a <= b
abbrev pub ltb_ℤ : ℤ → ℤ → Bool
ltb_ℤ a b = ltb (pos_part a + neg_part b) (pos_part b + neg_part a)

abbrev pub leb_ℤ : ℤ → ℤ → Bool
leb_ℤ a b = leb (pos_part a + neg_part b) (pos_part b + neg_part a)

abbrev pub i64_half : ℕ
i64_half = 2 ^ 63

-- The two's complement reading of an integer p - n that is off the range by one turn at most, as
-- the sum and the difference of two `i64` are.
abbrev pub wrap_i64 : ℕ → ℕ → ℤ
wrap_i64 p n =
    if leb (n + i64_half) p
    then sub_ℕ p (n + 2 ^ 64)
    else if ltb (p + i64_half) n
    then sub_ℕ (p + 2 ^ 64) n
    else sub_ℕ p n

-- a + b and a - b on `i64`, as compiled for release.
unfoldable pub add_i64 : ℤ → ℤ → ℤ
add_i64 a b = wrap_i64 (pos_part a + pos_part b) (neg_part a + neg_part b)

unfoldable pub sub_i64 : ℤ → ℤ → ℤ
sub_i64 a b = wrap_i64 (pos_part a + neg_part b) (neg_part a + pos_part b)

-- Values that an `i64` holds.
abbrev pub InI64 : ℤ → Type 0
InI64 a = (suc (pos_part a) ≤ i64_half) × (neg_part a ≤ i64_half)

-- A sum of two numbers that are not negative is exact while it fits.
pub add_i64-pos : (a b : ℕ) → suc (a + b) ≤ i64_half → add_i64 (pos a) (pos b) ≡ pos (a + b)
unfolding add_i64
add_i64-pos a b h = ground arith

-- The difference of two numbers that are not negative is always exact.
pub sub_i64-pos :
    (a b : ℕ) → suc a ≤ i64_half → suc b ≤ i64_half → sub_i64 (pos a) (pos b) ≡ sub_ℕ a b
unfolding sub_i64
sub_i64-pos a b h k = ground arith
