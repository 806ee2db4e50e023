-- ===== src/Base/Dict.antt =====
-- A Python dict with numbers as keys, in the order of insertion.
use Prim.Native.Nat.{ℕ}
use mathlib.Core.Path.{◌≡◌, refl}
use mathlib.Core.Logic.{◌≢◌}
use mathlib.Core.Bool.{Bool}
use mathlib.Core.Option.{Option, none, some}
use mathlib.Core.List.{List, [], ◌∷◌}
use native.Mathlib.Omega.{arith}
use package.navigation_robot.Base.Tests.{◌==◌, if◌then◌else◌}

module _ {ℓ} {V : Type ℓ} where
  -- `d.get(key)`
  unfoldable pub lookup : ℕ → List (ℕ × V) → Option V
  lookup key [] = none
  lookup key ((k, v) ∷ d) = if k == key then some v else lookup key d

  -- `d[key] = value`: in the place of an old value, or at the end.
  unfoldable pub insert : ℕ → V → List (ℕ × V) → List (ℕ × V)
  insert key value [] = (key, value) ∷ []
  insert key value ((k, v) ∷ d) = if k == key then (key, value) ∷ d else (k, v) ∷ insert key value d

  -- `d.pop(key, None)`
  unfoldable pub erase : ℕ → List (ℕ × V) → List (ℕ × V)
  erase key [] = []
  erase key ((k, v) ∷ d) = if k == key then d else (k, v) ∷ erase key d

  -- The entries whose value fails a test.
  unfoldable pub drop_values : (V → Bool) → List (ℕ × V) → List (ℕ × V)
  drop_values test [] = []
  drop_values test ((k, v) ∷ d) = if test v then drop_values test d else (k, v) ∷ drop_values test d

  pub lookup-insert :
      (key other : ℕ) (value : V) (d : List (ℕ × V))
      → lookup other (insert key value d) ≡ (if key == other then some value else lookup other d)
  unfolding lookup insert
  lookup-insert key other value [] = refl
  lookup-insert key other value ((k, v) ∷ d) = ground (arith, lookup-insert key other value d)

  pub lookup-erase_ne :
      (key other : ℕ) (d : List (ℕ × V)) → key ≢ other → lookup other (erase key d) ≡ lookup other d
  unfolding lookup erase
  lookup-erase_ne key other [] h = refl
  lookup-erase_ne key other ((k, v) ∷ d) h = ground (arith, lookup-erase_ne key other d)
