-- ===== src/Prelude/Panics.antt =====
-- The result of code that may panic: `expect`, `unwrap`, an index out of range, `panic!`.
use mathlib.Core.Path.{◌≡◌, refl}

pub data Outcome {ℓ} (A : Type ℓ) : Type ℓ where
  panic : Outcome A
  ok : (result : A) → Outcome A

infixl 5 ◌>>=◌
abbrev pub ◌>>=◌ {ℓ κ} :
    {A : Type ℓ} {B : Type κ} (step : Outcome A) (next : A → Outcome B) → Outcome B
panic >>= next = panic
ok result >>= next = next result

module _ {ℓ κ} {A : Type ℓ} {B : Type κ} where
  -- Both steps have returned when the whole has.
  pub >>=-eq-ok :
      {r : B} (step : Outcome A) (next : A → Outcome B) (whole : (step >>= next) ≡ ok r)
      → (mid : A) × (step ≡ ok mid) × (next mid ≡ ok r)
  >>=-eq-ok panic next whole = cc
  >>=-eq-ok (ok mid) next whole = (mid, refl, whole)

-- The code returns, and what it returns is in `P`.
abbrev pub Results {ℓ} : {A : Type ℓ} → (A → Type 0) → Outcome A → Type 0
Results P panic = ⊥
Results P (ok result) = P result

module _ {ℓ κ} {A : Type ℓ} {B : Type κ} where
  pub Results->>= :
      (P : A → Type 0) (Q : B → Type 0) (step : Outcome A) (next : A → Outcome B)
      → Results P step
      → ((result : A) → P result → Results Q (next result))
      → Results Q (step >>= next)
  Results->>= P Q panic next p q = absurd p
  Results->>= P Q (ok result) next p q = q result p

pub Results-weaken {ℓ} :
    {A : Type ℓ} (P Q : A → Type 0) (step : Outcome A)
    → Results P step
    → ((result : A) → P result → Q result)
    → Results Q step
Results-weaken P Q panic p q = absurd p
Results-weaken P Q (ok result) p q = q result p
