-- ===== src/Prelude/Text.antt =====
-- Rust's `String` and `&str` as their UTF-8 bytes, and byte strings. A `Str` is a list of bytes too;
-- the two names tell text from data.
use Prim.Native.Char.{code}
use Prim.Native.String.{String}
use Prim.Native.Nat.{ℕ, zero, suc, ◌+◌, ◌/◌, ◌%◌}
use mathlib.Core.Path.{◌≡◌, refl}
use mathlib.Core.Logic.{◌↔◌}
use mathlib.Core.Bool.{Bool, true, false, ◌&&◌}
use mathlib.Core.List.{List, [], ◌∷◌, ◌++◌}
use native.Mathlib.Omega.{arith}
use libre_drive.Prelude.Tests.{◌==◌, ltb, if◌then◌else◌}

abbrev pub Bytes : Type 0
Bytes = List ℕ

abbrev pub Str : Type 0
Str = List ℕ

-- An ASCII literal.
abbrev pub text : String → Str
text String.[] = []
text (String.◌∷◌ c s) = code c ∷ text s

-- a == b on byte strings.
unfoldable pub str_eq : Str → Str → Bool
str_eq [] [] = true
str_eq [] (y ∷ ys) = false
str_eq (x ∷ xs) [] = false
str_eq (x ∷ xs) (y ∷ ys) = x == y && str_eq xs ys

pub str_eq_iff : (a b : Str) → (str_eq a b ≡ true) ↔ (a ≡ b)
unfolding str_eq
str_eq_iff [] [] = ground arith
str_eq_iff [] (y ∷ ys) = ground arith
str_eq_iff (x ∷ xs) [] = ground arith
str_eq_iff (x ∷ xs) (y ∷ ys) = ground (arith, str_eq_iff xs ys)

pub str_eq_refl : (a : Str) → str_eq a a ≡ true
str_eq_refl a = (str_eq_iff a a).1 refl

-- The decimal digits of a number below 10 ^ fuel.
unfoldable pub digits : ℕ → ℕ → Str
digits zero n = []
digits (suc fuel) n =
    let rest = digits fuel (n / 10) in
    if ltb n 10 then (48 + n) ∷ [] else rest ++ (48 + n % 10) ∷ []

-- format!("{}", n) of a `u64`, which has at most 20 digits.
abbrev pub show : ℕ → Str
show n = digits 20 n
