-- ===== src/Base/Results.antt =====
-- `std::expected`
use mathlib.Core.Path.{◌≡◌, refl}
use mathlib.Core.Logic.{◌⊎◌, inl, inr}

pub data Expected {ℓ κ} (A : Type ℓ) (E : Type κ) : Type (ℓ ⊔ κ) where
  value : A → Expected A E
  unexpected : E → Expected A E

pub Expected-cases {ℓ κ} :
    {A : Type ℓ} {E : Type κ} (r : Expected A E)
    → ((e : E) × (r ≡ unexpected e)) ⊎ ((a : A) × (r ≡ value a))
Expected-cases (value a) = inr (a, refl)
Expected-cases (unexpected e) = inl (e, refl)
