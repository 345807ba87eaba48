-- ===== src/Prelude/Map.antt =====
-- Go maps with uint keys, as association lists. The order of a list is one order in which `range`
-- may visit the map.
use Prim.Native.Nat.{ℕ}
use mathlib.Core.Path.{◌≡◌, refl}
use mathlib.Core.Option.{Option, none, some}
use mathlib.Core.List.{List, [], ◌∷◌}
use native.Mathlib.Omega.{arith}
use go_odp.Prelude.Tests.{◌==◌, if◌then◌else◌}

module _ {ℓ} {V : Type ℓ} where
  unfoldable pub lookup : ℕ → List (ℕ × V) → Option V
  lookup key [] = none
  lookup key ((id, val) ∷ entries) = if id == key then some val else lookup key entries

  unfoldable pub insert : ℕ → V → List (ℕ × V) → List (ℕ × V)
  insert key val [] = (key, val) ∷ []
  insert key val ((id, old) ∷ entries) =
      if id == key then (key, val) ∷ entries else (id, old) ∷ insert key val entries

  pub lookup-insert :
      (key other : ℕ) (val : V) (entries : List (ℕ × V))
      → lookup other (insert key val entries)
        ≡ (if key == other then some val else lookup other entries)
  unfolding lookup insert
  lookup-insert key other val [] = refl
  lookup-insert key other val ((id, old) ∷ entries) =
      ground (arith, lookup-insert key other val entries)
