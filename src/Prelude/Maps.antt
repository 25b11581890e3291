-- ===== src/Prelude/Maps.antt =====
-- Go's `map[int]V` as an association list; a key that is absent reads as `none`.
use gozellij.Prelude.Tests.{◌==◌, if◌then◌else◌}
use Prim.Native.Nat.{ℕ}
use mathlib.Core.Path.{◌≡◌}
use mathlib.Core.Option.{Option, none, some}
use mathlib.Core.List.{List, [], ◌∷◌}
use native.Mathlib.Omega.{arith}

module _ {ℓ} {V : Type ℓ} where
  unfoldable pub map_get : List (ℕ × V) → ℕ → Option V
  map_get [] n = none
  map_get ((k, v) ∷ m) n = if k == n then some v else map_get m n

  unfoldable pub map_delete : List (ℕ × V) → ℕ → List (ℕ × V)
  map_delete [] n = []
  map_delete ((k, v) ∷ m) n = if k == n then map_delete m n else (k, v) ∷ map_delete m n

  unfoldable pub map_set : List (ℕ × V) → ℕ → V → List (ℕ × V)
  unfolding map_delete
  map_set m n v = (n, v) ∷ map_delete m n

  pub map_get-map_delete :
      (m : List (ℕ × V)) (n k : ℕ)
      → map_get (map_delete m n) k ≡ (if n == k then none else map_get m k)
  unfolding map_get map_delete
  map_get-map_delete [] n k = ground arith
  map_get-map_delete ((j, v) ∷ m) n k = ground (arith, map_get-map_delete m n k)

  pub map_get-map_set :
      (m : List (ℕ × V)) (n : ℕ) (v : V) (k : ℕ)
      → map_get (map_set m n v) k ≡ (if n == k then some v else map_get m k)
  unfolding map_get map_set
  map_get-map_set m n v k = ground (arith, map_get-map_delete m n k)
