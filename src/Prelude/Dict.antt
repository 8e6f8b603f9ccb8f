-- ===== src/Prelude/Dict.antt =====
-- `HashMap<String, V>` as a list of entries. Its iteration order, which Rust leaves open, is the
-- order of the list.
use Prim.Native.Nat.{ℕ, suc, ◌+◌, ◌≤◌}
use mathlib.Core.Path.{◌≡◌, refl, ap}
use mathlib.Core.Bool.{Bool}
use mathlib.Core.Option.{Option, none, some}
use mathlib.Core.List.{List, [], ◌∷◌, map}
use native.Mathlib.Omega.{arith}
use libre_drive.Prelude.Lists.{length}
use libre_drive.Prelude.Tests.{if◌then◌else◌}
use libre_drive.Prelude.Text.{Str, str_eq, str_eq_iff}

abbrev pub Dict {ℓ} : Type ℓ → Type ℓ
Dict V = List (Str × V)

module _ {ℓ} {V : Type ℓ} where
  -- m.get(k)
  unfoldable pub lookup : Str → Dict V → Option V
  lookup k [] = none
  lookup k ((j, v) ∷ m) = if str_eq j k then some v else lookup k m

  -- m.insert(k, v)
  unfoldable pub insert : Str → V → Dict V → Dict V
  insert k v [] = (k, v) ∷ []
  insert k v ((j, w) ∷ m) = if str_eq j k then (k, v) ∷ m else (j, w) ∷ insert k v m

  -- m.remove(k)
  unfoldable pub remove : Str → Dict V → Dict V
  remove k [] = []
  remove k ((j, v) ∷ m) = let rest = remove k m in if str_eq j k then rest else (j, v) ∷ rest

  -- m.retain(|_, v| p(v))
  unfoldable pub retain : (V → Bool) → Dict V → Dict V
  retain p [] = []
  retain p ((j, v) ∷ m) = let rest = retain p m in if p v then (j, v) ∷ rest else rest

  -- m.values()
  abbrev pub values : Dict V → List V
  values = map (λ e. e.1)

  -- The change made by `for v in m.values_mut()`.
  unfoldable pub map_values : (V → V) → Dict V → Dict V
  map_values f [] = []
  map_values f ((j, v) ∷ m) = (j, f v) ∷ map_values f m

  -- The weight of all values.
  unfoldable pub total : (V → ℕ) → Dict V → ℕ
  total f [] = 0
  total f ((j, v) ∷ m) = f v + total f m

  -- The weight of the value at one key.
  abbrev pub weight : (V → ℕ) → Option V → ℕ
  weight f none = 0
  weight f (some v) = f v

  -- Every entry satisfies a predicate of its key and value.
  abbrev pub AllEntries {κ} : (Str → V → Type κ) → Dict V → Type κ
  AllEntries P [] = Unit
  AllEntries P ((j, v) ∷ m) = P j v × AllEntries P m

  -- No key stands twice.
  abbrev pub IsMap : Dict V → Type ℓ
  IsMap [] = Unit
  IsMap ((j, v) ∷ m) = (lookup j m ≡ none) × IsMap m

module _ {ℓ} {V : Type ℓ} where
  pub lookup-insert :
      (k j : Str) (v : V) (m : Dict V)
      → lookup j (insert k v m) ≡ (if str_eq k j then some v else lookup j m)
  unfolding lookup insert
  lookup-insert k j v [] = refl
  lookup-insert k j v ((i, w) ∷ m) =
      ground (arith, str_eq_iff k j, str_eq_iff i k, str_eq_iff i j, lookup-insert k j v m)

  pub lookup-remove :
      (k j : Str) (m : Dict V) → lookup j (remove k m) ≡ (if str_eq k j then none else lookup j m)
  unfolding lookup remove
  lookup-remove k j [] = ground arith
  lookup-remove k j ((i, w) ∷ m) =
      ground (arith, str_eq_iff k j, str_eq_iff i k, str_eq_iff i j, lookup-remove k j m)

  pub total-insert :
      (f : V → ℕ) (k : Str) (v : V) (m : Dict V)
      → total f (insert k v m) + weight f (lookup k m) ≡ total f m + f v
  unfolding lookup insert total
  total-insert f k v [] = omega arith
  total-insert f k v ((j, w) ∷ m) = ground (arith, total-insert f k v m)

  -- A key that is not there is not removed.
  remove-absent : (k : Str) (m : Dict V) → lookup k m ≡ none → remove k m ≡ m
  unfolding lookup remove
  remove-absent k [] h = refl
  remove-absent k ((j, w) ∷ m) h = ground (arith, remove-absent k m)

  pub total-remove :
      (f : V → ℕ) (k : Str) (m : Dict V)
      → IsMap m
      → total f (remove k m) + weight f (lookup k m) ≡ total f m
  unfolding lookup remove total
  total-remove f k [] u = omega arith
  total-remove f k ((j, w) ∷ m) u =
      ground (arith, str_eq_iff j k, remove-absent k m, total-remove f k m u.1)

  pub insert-IsMap : (k : Str) (v : V) (m : Dict V) → IsMap m → IsMap (insert k v m)
  unfolding insert lookup
  insert-IsMap k v [] u = (refl, tt)
  insert-IsMap k v ((j, w) ∷ m) u =
      ground (arith, str_eq_iff j k, str_eq_iff k j, lookup-insert k j v m, insert-IsMap k v m u.1)

  pub remove-IsMap : (k : Str) (m : Dict V) → IsMap m → IsMap (remove k m)
  unfolding remove
  remove-IsMap k [] u = tt
  remove-IsMap k ((j, w) ∷ m) u = ground (arith, lookup-remove k j m, remove-IsMap k m u.1)

  lookup-retain-none :
      (p : V → Bool) (k : Str) (m : Dict V) → lookup k m ≡ none → lookup k (retain p m) ≡ none
  unfolding lookup retain
  lookup-retain-none p k [] h = refl
  lookup-retain-none p k ((j, w) ∷ m) h = ground (arith, lookup-retain-none p k m)

  abbrev pub keep_if : (V → Bool) → Option V → Option V
  keep_if p none = none
  keep_if p (some v) = if p v then some v else none

  pub lookup-retain :
      (p : V → Bool) (k : Str) (m : Dict V)
      → IsMap m
      → lookup k (retain p m) ≡ keep_if p (lookup k m)
  unfolding lookup retain
  lookup-retain p k [] u = refl
  lookup-retain p k ((j, w) ∷ m) u =
      ground (arith, str_eq_iff j k, lookup-retain-none p k m, lookup-retain p k m u.1)

  pub retain-IsMap : (p : V → Bool) (m : Dict V) → IsMap m → IsMap (retain p m)
  unfolding retain
  retain-IsMap p [] u = tt
  retain-IsMap p ((j, w) ∷ m) u = ground (arith, lookup-retain-none p j m u.0, retain-IsMap p m u.1)

  abbrev pub map_option : (V → V) → Option V → Option V
  map_option f none = none
  map_option f (some v) = some (f v)

  pub lookup-map_values :
      (f : V → V) (k : Str) (m : Dict V) → lookup k (map_values f m) ≡ map_option f (lookup k m)
  unfolding lookup map_values
  lookup-map_values f k [] = refl
  lookup-map_values f k ((j, w) ∷ m) = ground (arith, lookup-map_values f k m)

  pub map_values-IsMap : (f : V → V) (m : Dict V) → IsMap m → IsMap (map_values f m)
  unfolding map_values
  map_values-IsMap f [] u = tt
  map_values-IsMap f ((j, w) ∷ m) u =
      ground (arith, lookup-map_values f j m, map_values-IsMap f m u.1)

  -- A change of the values that keeps their weights keeps the total.
  pub total-map_values :
      (g : V → ℕ) (f : V → V) (m : Dict V)
      → ((v : V) → g (f v) ≡ g v)
      → total g (map_values f m) ≡ total g m
  unfolding total map_values
  total-map_values g f [] h = refl
  total-map_values g f ((j, w) ∷ m) h = ground (arith, h w, total-map_values g f m h)

  pub length-insert : (k : Str) (v : V) (m : Dict V) → length (insert k v m) ≤ suc (length m)
  unfolding insert
  length-insert k v [] = omega arith
  length-insert k v ((j, w) ∷ m) = ground (arith, length-insert k v m)

  pub length-remove : (k : Str) (m : Dict V) → length (remove k m) ≤ length m
  unfolding remove
  length-remove k [] = omega arith
  length-remove k ((j, w) ∷ m) = ground (arith, length-remove k m)

  pub length-map_values : (f : V → V) (m : Dict V) → length (map_values f m) ≡ length m
  unfolding map_values
  length-map_values f [] = refl
  length-map_values f ((j, w) ∷ m) = ap suc (length-map_values f m)
