-- ===== src/Prelude/Map.antt =====
-- Go's `map[string]V` as an association list: each key once, `m[k] = v` in place or at the end.
-- The language leaves the order of iteration open; here it is the order of the list.
use Prim.Native.String.{String}
use mathlib.Core.Path.{◌≡◌, refl}
use mathlib.Core.Bool.{Bool, true, false}
use mathlib.Core.Option.{Option, none, some}
use mathlib.Core.List.{List, [], ◌∷◌}
use native.Mathlib.Omega.{arith}
use text.Mathlib.Text.{◌==◌}
use text.Mathlib.TextEquality.{eq_iff}
use mathlib.Core.Logic.{inl, inr}
use grael.Prelude.Tests.{if◌then◌else◌, Option-cases}
use grael.Prelude.Lists.{contains}

abbrev pub Map {ℓ} : Type ℓ → Type ℓ
Map V = List (String × V)

module _ {ℓ} {V : Type ℓ} where
  unfoldable pub lookup : String → Map V → Option V
  lookup k [] = none
  lookup k ((key, value) ∷ entries) = if key == k then some value else lookup k entries

  unfoldable pub insert : String → V → Map V → Map V
  insert k new [] = (k, new) ∷ []
  insert k new ((key, value) ∷ entries) =
      if key == k then (k, new) ∷ entries else (key, value) ∷ insert k new entries

  unfoldable pub keys : Map V → List String
  keys [] = []
  keys ((k, v) ∷ m) = k ∷ keys m

  unfoldable pub values : Map V → List V
  values [] = []
  values ((k, v) ∷ m) = v ∷ values m

  -- `_, ok := m[k]`
  unfoldable pub has : Map V → String → Bool
  has m k = elim (lookup k m) [ none ↦ false | some v ↦ true ]

  pub lookup-insert :
      (written read : String) (new : V) (m : Map V)
      → lookup read (insert written new m) ≡ (if written == read then some new else lookup read m)
  unfolding insert lookup
  lookup-insert written read new [] = refl
  lookup-insert written read new ((key, value) ∷ entries) =
      let below = lookup-insert written read new entries in
      ground (arith, below, eq_iff key written, eq_iff key read, eq_iff written read)

  pub contains-keys : (m : Map V) (k : String) → contains (keys m) k ≡ has m k
  unfolding contains keys has lookup
  contains-keys [] k = refl
  contains-keys ((j, v) ∷ m) k = ground (arith, contains-keys m k)

  pub has-lookup : (k : String) (v : V) (m : Map V) → lookup k m ≡ some v → has m k ≡ true
  unfolding has
  has-lookup k v m e = ground arith

  pub lookup-has : (k : String) (m : Map V) → has m k ≡ true → (v : V) × (lookup k m ≡ some v)
  unfolding has
  lookup-has k m h = elim (Option-cases (lookup k m)) [
    | inl e ↦ absurd (ground arith)
    | inr found ↦ found
  ]
