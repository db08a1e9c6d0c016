-- ===== src/Prelude/Assoc.antt =====
-- Association lists keyed by native numbers or by names: Python's `dict` where only lookups matter.
use Prim.Native.Nat.{ℕ}
use Prim.Native.String.{String}
use mathlib.Core.Option.{Option, none, some}
use mathlib.Core.List.{List, [], ◌∷◌}
use mathlib.Core.Path.{◌≡◌, refl}
use native.Mathlib.Omega.{arith}
use text.Mathlib.Text.{◌==◌ as str_eq}
use text.Mathlib.TextEquality.{eq_iff}
use wake_sol.Prelude.Tests.{◌==◌, if◌then◌else◌}

module _ {ℓ} {V : Type ℓ} where
  -- The value of the first pair with that name.
  unfoldable pub by_name : String → List (String × V) → Option V
  by_name k [] = none
  by_name k ((j, v) ∷ m) = if str_eq j k then some v else by_name k m

  -- The value of the first pair with that number.
  unfoldable pub by_number : ℕ → List (ℕ × V) → Option V
  by_number k [] = none
  by_number k ((j, v) ∷ m) = if j == k then some v else by_number k m

  -- `d[k] = v`
  unfoldable pub insert : String → V → List (String × V) → List (String × V)
  insert k v [] = (k, v) ∷ []
  insert k v ((j, w) ∷ m) = if str_eq j k then (j, v) ∷ m else (j, w) ∷ insert k v m

  pub by_name-insert :
      (k j : String) (v : V) (m : List (String × V))
      → by_name j (insert k v m) ≡ (if str_eq k j then some v else by_name j m)
  unfolding by_name insert
  by_name-insert k j v [] = refl
  by_name-insert k j v ((i, w) ∷ m) =
      ground (arith, eq_iff i k, eq_iff i j, eq_iff k j, by_name-insert k j v m)

  unfoldable pub insert_number : ℕ → V → List (ℕ × V) → List (ℕ × V)
  insert_number k v [] = (k, v) ∷ []
  insert_number k v ((j, w) ∷ m) = if j == k then (j, v) ∷ m else (j, w) ∷ insert_number k v m

  pub by_number-insert :
      (k j : ℕ) (v : V) (m : List (ℕ × V))
      → by_number j (insert_number k v m) ≡ (if k == j then some v else by_number j m)
  unfolding by_number insert_number
  by_number-insert k j v [] = refl
  by_number-insert k j v ((i, w) ∷ m) = ground (arith, by_number-insert k j v m)
