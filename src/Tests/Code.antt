-- ===== src/Tests/Code.antt =====
-- A code for two data shards and one parity shard, their sum, for the examples.
use libre_drive.Prelude.{
  ℕ, suc, ◌+◌, ◌-◌, ◌≤◌, ◌<◌, ◌≡◌, refl, sym, ap, ◌∙◌, inl, inr, true, Option, none, some, List, [],
  ◌∷◌, ◌++◌, map, arith, ◌==◌, if◌then◌else◌, ==_iff, Bool-cases, All, length,
}
use libre_drive.Prelude.Result.{Result, ok, err}
use libre_drive.Prelude.Text.{Bytes, Str, text}
use mathlib.Core.Path.{ap₂}
use libre_drive.Storage.Erasure.Code.{ReedSolomon, IsCode, LeftOf, present}

unfoldable pub add : Bytes → Bytes → Bytes
add [] ys = []
add (x ∷ xs) [] = []
add (x ∷ xs) (y ∷ ys) = (x + y) ∷ add xs ys

unfoldable pub without : Bytes → Bytes → Bytes
without [] ys = []
without (x ∷ xs) [] = []
without (x ∷ xs) (y ∷ ys) = (x - y) ∷ without xs ys

without-add_left : (xs ys : Bytes) → length xs ≡ length ys → without (add xs ys) xs ≡ ys
unfolding add without
without-add_left [] [] e = refl
without-add_left [] (y ∷ ys) e = absurd (omega arith)
without-add_left (x ∷ xs) [] e = absurd (omega arith)
without-add_left (x ∷ xs) (y ∷ ys) e = ap₂ ◌∷◌ (omega arith) (without-add_left xs ys (omega arith))

without-add_right : (xs ys : Bytes) → length xs ≡ length ys → without (add xs ys) ys ≡ xs
unfolding add without
without-add_right [] [] e = refl
without-add_right [] (y ∷ ys) e = absurd (omega arith)
without-add_right (x ∷ xs) [] e = absurd (omega arith)
without-add_right (x ∷ xs) (y ∷ ys) e =
    ap₂ ◌∷◌ (omega arith) (without-add_right xs ys (omega arith))

length-add : (xs ys : Bytes) → length xs ≡ length ys → length (add xs ys) ≡ length xs
unfolding add
length-add [] ys e = refl
length-add (x ∷ xs) [] e = absurd (omega arith)
length-add (x ∷ xs) (y ∷ ys) e = ap suc (length-add xs ys (omega arith))

unfoldable pub encode_sum : List Bytes → Result Str (List Bytes)
encode_sum (x ∷ y ∷ z ∷ []) =
    if length x == length y then ok (x ∷ y ∷ add x y ∷ []) else err (text "lengths")
encode_sum _ = err (text "numbers")

unfoldable pub restore : List (Option Bytes) → Result Str (List (Option Bytes))
restore (some x ∷ some y ∷ o ∷ []) = ok (some x ∷ some y ∷ some (add x y) ∷ [])
restore (none ∷ some y ∷ some s ∷ []) = ok (some (without s y) ∷ some y ∷ some s ∷ [])
restore (some x ∷ none ∷ some s ∷ []) = ok (some x ∷ some (without s x) ∷ some s ∷ [])
restore _ = err (text "too few shards")

abbrev pub sum_code : ReedSolomon
sum_code = record {
  create = λ d p. ok tt;
  encode = λ d p shards. encode_sum shards;
  reconstruct = λ d p shards. restore shards;
  verify = λ d p shards. ok true;
}

restored :
    (x y : Bytes)
    → length x ≡ length y
    → (left : List (Option Bytes)) → LeftOf left (x ∷ y ∷ add x y ∷ [])
    → 2 ≤ present left
    → restore left ≡ ok (some x ∷ some y ∷ some (add x y) ∷ [])
unfolding restore
restored x y e (none ∷ none ∷ none ∷ []) h enough = absurd (omega arith)
restored x y e (none ∷ none ∷ some c ∷ []) h enough = absurd (omega arith)
restored x y e (none ∷ some b ∷ none ∷ []) h enough = absurd (omega arith)
restored x y e (some a ∷ none ∷ none ∷ []) h enough = absurd (omega arith)
restored x y e (some a ∷ some b ∷ c ∷ []) (ha, (hb, (hc, u))) enough =
    let ea : a ≡ x = ground arith in let eb : b ≡ y = ground arith in rw (ea, eb)
restored x y e (none ∷ some b ∷ some c ∷ []) (ha, (hb, (hc, u))) enough =
    let eb : b ≡ y = ground arith in
    let ec : c ≡ add x y = ground arith in rw (eb, ec, without-add_right x y e)
restored x y e (some a ∷ none ∷ some c ∷ []) (ha, (hb, (hc, u))) enough =
    let ea : a ≡ x = ground arith in
    let ec : c ≡ add x y = ground arith in rw (ea, ec, without-add_left x y e)
restored x y e (a ∷ b ∷ []) h enough = absurd h.1.1
restored x y e (a ∷ []) h enough = absurd h.1
restored x y e [] h enough = absurd h
restored x y e (a ∷ b ∷ c ∷ o ∷ os) h enough = absurd h.1.1.1

reconstructs_sum :
    (shards encoded : List Bytes) (left : List (Option Bytes))
    → encode_sum shards ≡ ok encoded
    → LeftOf left encoded
    → 2 ≤ present left
    → restore left ≡ ok (map some encoded)
unfolding encode_sum
reconstructs_sum (x ∷ y ∷ z ∷ []) encoded left e h enough =
    elim (Bool-cases (length x == length y)) [
      | inl same ↦
          let f : ok (x ∷ y ∷ add x y ∷ []) ≡ ok encoded = rw same at e in
          let g : x ∷ y ∷ add x y ∷ [] ≡ encoded = ground arith in
          rw (← g) (
            restored x y (ground (arith, ==_iff (length x) (length y))) left (rw (← g) at h) enough)
      | inr other ↦ absurd (ground (arith, rw other at e))
    ]
reconstructs_sum [] encoded left e h enough = absurd (ground arith)
reconstructs_sum (x ∷ []) encoded left e h enough = absurd (ground arith)
reconstructs_sum (x ∷ y ∷ []) encoded left e h enough = absurd (ground arith)
reconstructs_sum (x ∷ y ∷ z ∷ w ∷ ws) encoded left e h enough = absurd (ground arith)

encodes_sum :
    (n : ℕ) (blocks parity : List Bytes)
    → 0 < n
    → length blocks ≡ 2
    → length parity ≡ 1
    → All (λ x. length x ≡ n) blocks
    → All (λ x. length x ≡ n) parity
    → (filled : List Bytes) × (encode_sum (blocks ++ parity) ≡ ok (blocks ++ filled))
      × (length filled ≡ 1)
      × All (λ x. length x ≡ n) filled
unfolding encode_sum
encodes_sum n (x ∷ y ∷ []) (z ∷ []) positive db dp (hx, (hy, u)) hz =
    let same : (length x == length y) ≡ true = ground (arith, ==_iff (length x) (length y)) in
    (add x y ∷ [], rw same, refl, (length-add x y (hx ∙ sym hy) ∙ hx, tt))
encodes_sum n [] parity positive db dp hb hp = absurd (omega arith)
encodes_sum n (x ∷ []) parity positive db dp hb hp = absurd (omega arith)
encodes_sum n (x ∷ y ∷ z ∷ bs) parity positive db dp hb hp = absurd (omega arith)
encodes_sum n (x ∷ y ∷ []) [] positive db dp hb hp = absurd (omega arith)
encodes_sum n (x ∷ y ∷ []) (z ∷ w ∷ ps) positive db dp hb hp = absurd (omega arith)

pub sum_code-IsCode : IsCode sum_code 2 1
sum_code-IsCode = record {
  creates = refl;
  some_data = omega arith;
  some_parity = omega arith;
  not_too_many = omega arith;
  encodes = encodes_sum;
  reconstructs = reconstructs_sum;
}
