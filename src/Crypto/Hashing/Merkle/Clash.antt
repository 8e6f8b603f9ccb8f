-- ===== src/Crypto/Hashing/Merkle/Clash.antt =====
-- hashing.rs: two inputs with the same hash.
use libre_drive.Prelude.{
  ◌≡◌, refl, ◌≢◌, ◌⊎◌, inl, inr, List, [], ◌∷◌, ◌++◌, arith, Bool-cases, length,
}
use libre_drive.Prelude.Text.{Bytes, str_eq, str_eq_iff}
use mathlib.Core.Path.{ap₂}
use libre_drive.Crypto.Hashing.Library.{HashLib}

-- A text stands in a list.
abbrev pub Occurs : Bytes → List Bytes → Type 0
Occurs a [] = ⊥
Occurs a (x ∷ xs) = (a ≡ x) ⊎ Occurs a xs

Occurs-append_left : (a : Bytes) (xs ys : List Bytes) → Occurs a xs → Occurs a (xs ++ ys)
Occurs-append_left a [] ys h = absurd h
Occurs-append_left a (x ∷ xs) ys (inl e) = inl e
Occurs-append_left a (x ∷ xs) ys (inr h) = inr (Occurs-append_left a xs ys h)

Occurs-append_right : (a : Bytes) (xs ys : List Bytes) → Occurs a ys → Occurs a (xs ++ ys)
Occurs-append_right a [] ys h = h
Occurs-append_right a (x ∷ xs) ys h = inr (Occurs-append_right a xs ys h)

pub append-injective : (a c b d : Bytes) → length a ≡ length c → a ++ b ≡ c ++ d → (a ≡ c) × (b ≡ d)
append-injective [] [] b d n e = (refl, e)
append-injective [] (y ∷ c) b d n e = absurd (omega arith)
append-injective (x ∷ a) [] b d n e = absurd (omega arith)
append-injective (x ∷ a) (y ∷ c) b d n e =
    let first : x ≡ y = cc in
    let rest : a ++ b ≡ c ++ d = cc in
    let (same, last) = append-injective a c b d (omega arith) rest in
    (ap₂ (λ t ts. t ∷ ts) first same, last)

module _ (lib : HashLib) where
  -- Two different inputs, one of each list, with the same hash
  pub record Clash (xs ys : List Bytes) : Type 0 where
    pub one : Bytes
    pub other : Bytes
    pub one_occurs : Occurs one xs
    pub other_occurs : Occurs other ys
    pub apart : one ≢ other
    pub same_hash : lib.blake3 one ≡ lib.blake3 other

  pub Clash-next : {xs ys : List Bytes} (x y : Bytes) → Clash xs ys → Clash (x ∷ xs) (y ∷ ys)
  Clash-next x y c = record {
    one = c.one;
    other = c.other;
    one_occurs = inr c.one_occurs;
    other_occurs = inr c.other_occurs;
    apart = c.apart;
    same_hash = c.same_hash;
  }

  -- Two inputs with the same hash are the same, or clash.
  pub same_or_Clash :
      (x y : Bytes) (xs ys : List Bytes)
      → lib.blake3 x ≡ lib.blake3 y
      → (x ≡ y) ⊎ Clash (x ∷ xs) (y ∷ ys)
  same_or_Clash x y xs ys e = elim (Bool-cases (str_eq x y)) [
    | inl same ↦ inl ((str_eq_iff x y).0 same)
    | inr different ↦ inr (record {
      one = x;
      other = y;
      one_occurs = inl refl;
      other_occurs = inl refl;
      apart = λ s. ground (arith, str_eq_iff x y, different, s);
      same_hash = e;
    })
  ]

  pub Clash-append_left : (xs ys xs' ys' : List Bytes) → Clash xs ys → Clash (xs ++ xs') (ys ++ ys')
  Clash-append_left xs ys xs' ys' c = record {
    one = c.one;
    other = c.other;
    one_occurs = Occurs-append_left c.one xs xs' c.one_occurs;
    other_occurs = Occurs-append_left c.other ys ys' c.other_occurs;
    apart = c.apart;
    same_hash = c.same_hash;
  }

  pub Clash-append_right :
      (xs ys xs' ys' : List Bytes) → Clash xs' ys' → Clash (xs ++ xs') (ys ++ ys')
  Clash-append_right xs ys xs' ys' c = record {
    one = c.one;
    other = c.other;
    one_occurs = Occurs-append_right c.one xs xs' c.one_occurs;
    other_occurs = Occurs-append_right c.other ys ys' c.other_occurs;
    apart = c.apart;
    same_hash = c.same_hash;
  }
