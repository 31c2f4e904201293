-- ===== src/Prelude/Assoc.antt =====
-- Go maps from texts, as lists of pairs with distinct keys.
use mathlib.Core.Path.{◌≡◌, refl}
use mathlib.Core.Option.{Option, none, some}
use mathlib.Core.List.{List, [], ◌∷◌}
use native.Mathlib.Omega.{arith}
use Prim.Native.String.{String}
use text.Mathlib.Text.{◌==◌}
use text.Mathlib.TextEquality.{eq_iff}
use op_stack_operator.Prelude.Tests.{if◌then◌else◌}

module _ {ℓ} {V : Type ℓ} where
  -- `v, ok := m[key]`
  unfoldable pub lookup : String → List (String × V) → Option V
  lookup key [] = none
  lookup key ((other, v) ∷ m) = if other == key then some v else lookup key m

  -- `m[key] = v`
  unfoldable pub insert : String → V → List (String × V) → List (String × V)
  insert key v [] = (key, v) ∷ []
  insert key v ((other, w) ∷ m) =
      let rest = insert key v m in if other == key then (other, v) ∷ m else (other, w) ∷ rest

  pub lookup-insert :
      (key : String) (v : V) (m : List (String × V)) (other : String)
      → lookup other (insert key v m) ≡ (if key == other then some v else lookup other m)
  unfolding lookup insert
  lookup-insert key v [] other = refl
  lookup-insert key v ((k, w) ∷ m) other =
      ground (arith, lookup-insert key v m other, eq_iff k key, eq_iff k other, eq_iff key other)
