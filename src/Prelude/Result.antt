-- ===== src/Prelude/Result.antt =====
-- Rust's `Result`, with a panic as a third outcome, and `?` as a bind.
use mathlib.Core.Path.{◌≡◌, refl}
use mathlib.Core.Bool.{Bool, true, false}
use mathlib.Core.Option.{Option, none, some}

pub data Result {ℓ} (E : Type 0) (A : Type ℓ) : Type ℓ where
  ok : A → Result E A
  err : E → Result E A
  panic : Result E A

infixl 5 ◌>>=◌ ◌>>◌
abbrev pub ◌>>=◌ {ℓ κ} :
    {E : Type 0} {A : Type ℓ} {B : Type κ} → Result E A → (A → Result E B) → Result E B
ok a >>= f = f a
err e >>= f = err e
panic >>= f = panic

abbrev pub ◌>>◌ {ℓ κ} :
    {E : Type 0} {A : Type ℓ} {B : Type κ} → Result E A → Result E B → Result E B
m >> k = m >>= λ _. k

-- if !b { return Err(e) }
abbrev pub guard : {E : Type 0} → Bool → E → Result E (Unit {0})
guard true e = ok tt
guard false e = err e

-- r.map_err(f)
abbrev pub map_err {ℓ} : {E F : Type 0} {A : Type ℓ} → (E → F) → Result E A → Result F A
map_err f (ok a) = ok a
map_err f (err e) = err (f e)
map_err f panic = panic

-- o.ok_or(e)
abbrev pub ok_or {ℓ} : {E : Type 0} {A : Type ℓ} → Option A → E → Result E A
ok_or none e = err e
ok_or (some a) e = ok a

-- An index or a slice out of range.
abbrev pub or_panic {ℓ} : {E : Type 0} {A : Type ℓ} → Option A → Result E A
or_panic none = panic
or_panic (some a) = ok a

-- A `?` that succeeds has a value, and what follows it succeeds on that value.
pub >>=-eq-ok {ℓ κ} :
    {E : Type 0} {A : Type ℓ} {B : Type κ} (r : Result E A) (next : A → Result E B) {result : B}
    → (r >>= next) ≡ ok result
    → (a : A) × (r ≡ ok a) × (next a ≡ ok result)
>>=-eq-ok (ok a) next h = (a, refl, h)
>>=-eq-ok (err e) next h = cc
>>=-eq-ok panic next h = cc

pub map_err-eq-ok {ℓ} :
    {E F : Type 0} {A : Type ℓ} (f : E → F) (m : Result E A) {a : A} → map_err f m ≡ ok a → m ≡ ok a
map_err-eq-ok f (ok a) h = cc
map_err-eq-ok f (err e) h = cc
map_err-eq-ok f panic h = cc
