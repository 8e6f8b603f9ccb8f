-- ===== src/P2p/Protocol/Reading.antt =====
-- Decimal numbers are read back, and a text without a colon ends at the first colon.
use libre_drive.Prelude.{
  ℕ, zero, suc, ◌+◌, ◌-◌, ◌*◌, ◌/◌, ◌%◌, ◌^◌, ◌≤◌, ◌<◌, ◌≡◌, refl, sym, ap, ◌∙◌, subst, ◌≢◌, inl,
  inr, true, [], ◌∷◌, ◌++◌, arith, ltb, ltb→lt, lt→ltb, Bool-cases, All,
}
use libre_drive.Prelude.Text.{Str, digits, show}
use libre_drive.Prelude.Int.{ℤ, pos, negsuc, InI64}
use mathlib.Core.Path.{ap₂}
use libre_drive.Identity.{show_i64}

-- The number of a list of digits, after some digits were read
unfoldable pub read_from : ℕ → Str → ℕ
read_from n [] = n
read_from n (d ∷ ds) = read_from (n * 10 + (d - 48)) ds

read_from-append :
    (n : ℕ) (ds : Str) (d : ℕ) → read_from n (ds ++ d ∷ []) ≡ read_from n ds * 10 + (d - 48)
unfolding read_from
read_from-append n [] d = refl
read_from-append n (e ∷ ds) d = read_from-append (n * 10 + (e - 48)) ds d

power-suc : (f : ℕ) → 10 ^ suc f ≡ 10 * 10 ^ f
power-suc f = omega arith

div-below : (n k : ℕ) → n < 10 * k → n / 10 < k
div-below n k h = omega arith

read-digits : (f n : ℕ) → n < 10 ^ suc f → read_from 0 (digits (suc f) n) ≡ n
unfolding digits read_from
read-digits zero n small =
    let one : ltb n 10 ≡ true = lt→ltb n 10 (omega (arith, power-suc zero)) in rw one (omega arith)
read-digits (suc f) n small = elim (Bool-cases (ltb n 10)) [
  | inl one ↦ rw one (omega arith)
  | inr more ↦
      let below = div-below n (10 ^ suc f) (omega (arith, power-suc (suc f))) in
      rw more (
        read_from-append 0 (digits (suc f) (n / 10)) (48 + n % 10)
        ∙ ap (λ t. t * 10 + (48 + n % 10 - 48)) (read-digits f (n / 10) below)
        ∙ omega arith)
]

-- A text of digits
abbrev AreDigits : Str → Type 0
AreDigits = All (λ d. (48 ≤ d) × (d < 58))

AreDigits-append : (ds es : Str) → AreDigits ds → AreDigits es → AreDigits (ds ++ es)
AreDigits-append [] es h k = k
AreDigits-append (d ∷ ds) es (h, hs) k = (h, AreDigits-append ds es hs k)

digits-AreDigits : (f n : ℕ) → AreDigits (digits f n)
unfolding digits
digits-AreDigits zero n = tt
digits-AreDigits (suc f) n = elim (Bool-cases (ltb n 10)) [
  | inl one ↦ let small : n < 10 = ltb→lt n 10 one in rw one ((omega arith, omega arith), tt)
  | inr more ↦ rw more (
      AreDigits-append (digits f (n / 10)) _ (digits-AreDigits f (n / 10))
        ((omega arith, omega arith), tt))
]

-- A text without a colon
abbrev pub HasNoColon : Str → Type 0
HasNoColon = All (λ c. c ≢ 58)

AreDigits-HasNoColon : (ds : Str) → AreDigits ds → HasNoColon ds
AreDigits-HasNoColon [] h = tt
AreDigits-HasNoColon (d ∷ ds) ((low, high), hs) =
    ((λ e. omega (arith, e, high)), AreDigits-HasNoColon ds hs)

has_colon : (y b : Str) → HasNoColon ((y ++ 58 ∷ []) ++ b) → ⊥
has_colon [] b (h, hs) = h refl
has_colon (d ∷ y) b (h, hs) = has_colon y b hs

-- Two texts that are the same have the same parts before and after the last colon.
pub split_colon :
    (x y : Str) {a b : Str}
    → HasNoColon a
    → HasNoColon b
    → (x ++ 58 ∷ []) ++ a ≡ (y ++ 58 ∷ []) ++ b
    → (x ≡ y) × (a ≡ b)
split_colon [] [] h k e = (refl, cc)
split_colon [] (d ∷ y) {a} {b} h k e =
    let t : a ≡ (y ++ 58 ∷ []) ++ b = cc in absurd (has_colon y b (subst HasNoColon t h))
split_colon (c ∷ x) [] {a} {b} h k e =
    let t : b ≡ (x ++ 58 ∷ []) ++ a = cc in absurd (has_colon x a (subst HasNoColon t k))
split_colon (c ∷ x) (d ∷ y) {a} {b} h k e =
    let first : c ≡ d = cc in
    let t : (x ++ 58 ∷ []) ++ a ≡ (y ++ 58 ∷ []) ++ b = cc in
    let (same, rest) = split_colon x y h k t in (ap₂ (λ x xs. x ∷ xs) first same, rest)

pub show-HasNoColon : (n : ℕ) → HasNoColon (show n)
show-HasNoColon n = AreDigits-HasNoColon (show n) (digits-AreDigits 20 n)

pub show-injective : (m n : ℕ) → m < 2 ^ 64 → n < 2 ^ 64 → show m ≡ show n → m ≡ n
show-injective m n hm hn e =
    sym (read-digits 19 m (omega arith)) ∙ ap (read_from 0) e ∙ read-digits 19 n (omega arith)

pub show_i64-HasNoColon : (z : ℤ) → HasNoColon (show_i64 z)
show_i64-HasNoColon (pos n) = show-HasNoColon n
show_i64-HasNoColon (negsuc n) = ((λ e. omega (arith, e)), show-HasNoColon (n + 1))

-- A number does not begin with a minus sign.
show-ne-minus : (n : ℕ) (ds : Str) → show n ≢ b'-' ∷ ds
show-ne-minus n ds e =
    let h : AreDigits (b'-' ∷ ds) = subst AreDigits e (digits-AreDigits 20 n) in
    absurd (omega (arith, h.0.0))

pub show_i64-injective : (y z : ℤ) → InI64 y → InI64 z → show_i64 y ≡ show_i64 z → y ≡ z
show_i64-injective (pos m) (pos n) h k e =
    ap pos (show-injective m n (omega (arith, h)) (omega (arith, k)) e)
show_i64-injective (pos m) (negsuc n) h k e = absurd (show-ne-minus m _ e)
show_i64-injective (negsuc m) (pos n) h k e = absurd (show-ne-minus n _ (sym e))
show_i64-injective (negsuc m) (negsuc n) h k e =
    let t : show (m + 1) ≡ show (n + 1) = cc in
    let same = show-injective (m + 1) (n + 1) (omega (arith, h)) (omega (arith, k)) t in
    ap negsuc (omega (arith, same))
