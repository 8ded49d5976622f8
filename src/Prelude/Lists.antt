-- ===== src/Prelude/Lists.antt =====
-- Lists measured by native numbers, membership tests on texts, and Go's `slices.Sort` on texts.
use Prim.Native.Nat.{ℕ, suc, ◌+◌}
use Prim.Native.String.{String, compare}
use mathlib.Core.Path.{◌≡◌, refl}
use mathlib.Core.Bool.{Bool, true, false, not, ◌&&◌, ◌||◌}
use mathlib.Core.List.{List, [], ◌∷◌, ◌++◌}
use native.Mathlib.Omega.{arith}
use text.Mathlib.Text.{◌==◌, is_le}
use grael.Prelude.Tests.{if◌then◌else◌}

module _ {ℓ} {A : Type ℓ} where
  abbrev pub length : List A → ℕ
  length [] = 0
  length (x ∷ xs) = suc (length xs)

  pub length-append : (xs ys : List A) → length (xs ++ ys) ≡ length xs + length ys
  length-append [] ys = omega arith
  length-append (x ∷ xs) ys = omega (arith, length-append xs ys)

  -- A loop that answers true at the first element that passes.
  abbrev pub any : (A → Bool) → List A → Bool
  any p [] = false
  any p (x ∷ xs) = p x || any p xs

  -- A loop that answers false at the first element that fails.
  abbrev pub all : (A → Bool) → List A → Bool
  all p [] = true
  all p (x ∷ xs) = p x && all p xs

  abbrev pub All {κ} : (A → Type κ) → List A → Type κ
  All P [] = Unit
  All P (x ∷ xs) = P x × All P xs

  pub All-map {κ μ} :
      {P : A → Type κ} {Q : A → Type μ} (f : (a : A) → P a → Q a) (xs : List A)
      → All P xs
      → All Q xs
  All-map f [] all_p = tt
  All-map f (x ∷ xs) (first, rest) = (f x first, All-map f xs rest)

-- `slices.Contains` on texts.
unfoldable pub contains : List String → String → Bool
contains [] k = false
contains (j ∷ js) k = j == k || contains js k

pub contains-append :
    (xs ys : List String) (k : String) → contains (xs ++ ys) k ≡ (contains xs k || contains ys k)
unfolding contains
contains-append [] ys k = refl
contains-append (x ∷ xs) ys k = ground (arith, contains-append xs ys k)

-- No text occurs twice.
abbrev pub Distinct : List String → Type 0
Distinct [] = Unit
Distinct (k ∷ ks) = (contains ks k ≡ false) × Distinct ks

-- `a < b` on texts.
unfoldable pub less : String → String → Bool
less a b = not (is_le (compare b a))

insert_sorted : String → List String → List String
insert_sorted k [] = k ∷ []
insert_sorted k (j ∷ js) = if is_le (compare k j) then k ∷ j ∷ js else j ∷ insert_sorted k js

-- `slices.Sort` on texts, which are compared byte by byte.
unfoldable pub sort : List String → List String
unfolding insert_sorted
sort [] = []
sort (k ∷ ks) = insert_sorted k (sort ks)

contains-insert_sorted :
    (k : String) (js : List String) (i : String)
    → contains (insert_sorted k js) i ≡ (k == i || contains js i)
unfolding contains insert_sorted
contains-insert_sorted k [] i = refl
contains-insert_sorted k (j ∷ js) i = ground (arith, contains-insert_sorted k js i)

-- Sorting keeps what the list holds.
pub contains-sort : (ks : List String) (i : String) → contains (sort ks) i ≡ contains ks i
unfolding contains sort
contains-sort [] i = refl
contains-sort (k ∷ ks) i = ground (arith, contains-insert_sorted k (sort ks) i, contains-sort ks i)
