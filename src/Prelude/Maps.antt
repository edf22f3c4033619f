-- ===== src/Prelude/Maps.antt =====
-- Maps as association lists over keys with a decidable equality, and sums over their entries.
use Prim.Native.Nat.{ℕ, ◌+◌, ◌≤◌}
use mathlib.Core.Path.{◌≡◌, refl}
use mathlib.Core.Logic.{ite}
use mathlib.Core.List.{List, [], ◌∷◌}
use mathlib.Core.Option.{Option, none, some}
use native.Mathlib.Omega.{arith}

abbrev pub Map {ℓ} : Type ℓ → Type ℓ → Type ℓ
Map K V = List (K × V)

module _ {ℓ} {K V : Type ℓ} (dec : Discrete K) where
  unfoldable pub lookup : K → Map K V → Option V
  lookup k [] = none
  lookup k ((j, v) ∷ m) = ite (dec k j) (some v) (lookup k m)

  unfoldable pub insert : K → V → Map K V → Map K V
  insert k v [] = (k, v) ∷ []
  insert k v ((j, w) ∷ m) = ite (dec k j) ((k, v) ∷ m) ((j, w) ∷ insert k v m)

  unfoldable pub remove : K → Map K V → Map K V
  remove k [] = []
  remove k ((j, w) ∷ m) = ite (dec k j) (remove k m) ((j, w) ∷ remove k m)

  pub lookup-insert :
      (j k : K) (v : V) (m : Map K V)
      → lookup j (insert k v m) ≡ ite (dec j k) (some v) (lookup j m)
  unfolding lookup insert
  lookup-insert j k v [] = refl
  lookup-insert j k v ((i, w) ∷ m) = ground (arith, lookup-insert j k v m)

  pub lookup-remove :
      (j k : K) (m : Map K V) → lookup j (remove k m) ≡ ite (dec j k) none (lookup j m)
  unfolding lookup remove
  lookup-remove j k [] = ground arith
  lookup-remove j k ((i, w) ∷ m) = ground (arith, lookup-remove j k m)

-- The sum of a weight over the entries.
unfoldable pub total {ℓ} : {K V : Type ℓ} → (K → V → ℕ) → Map K V → ℕ
total w [] = 0
total w ((k, v) ∷ m) = w k v + total w m

-- The weight of what a lookup found.
abbrev pub weight_at {ℓ} : {K V : Type ℓ} → (K → V → ℕ) → K → Option V → ℕ
weight_at w k none = 0
weight_at w k (some v) = w k v

module _ {ℓ} {K V : Type ℓ} (dec : Discrete K) (w : K → V → ℕ) where
  pub total-insert :
      (k : K) (v : V) (m : Map K V)
      → total w (insert dec k v m) + weight_at w k (lookup dec k m) ≡ total w m + w k v
  unfolding total insert lookup
  total-insert k v [] = omega arith
  total-insert k v ((j, x) ∷ m) = elim (dec k j) [
    | yes p ↦ ground arith
    | no p ↦ ground (arith, total-insert k v m)
  ]

  pub total-remove :
      (k : K) (m : Map K V) → total w (remove dec k m) + weight_at w k (lookup dec k m) ≤ total w m
  unfolding total remove lookup
  total-remove k [] = omega arith
  total-remove k ((j, x) ∷ m) = elim (dec k j) [
    | yes p ↦ ground (arith, total-remove k m)
    | no p ↦ ground (arith, total-remove k m)
  ]

  pub weight-le-total : (k : K) (m : Map K V) → weight_at w k (lookup dec k m) ≤ total w m
  unfolding total lookup
  weight-le-total k [] = omega arith
  weight-le-total k ((j, x) ∷ m) = ground (arith, weight-le-total k m)
