-- ===== src/Core/Results.antt =====
-- Code that may raise: an exception is its text.
use robot_brain.Prelude.{◌≡◌, refl, String, ◌⊎◌, inl, inr}

pub data Result {ℓ} (A : Type ℓ) : Type ℓ where
  ok : A → Result A
  raise : String → Result A

infixl 5 ◌>>=◌
abbrev pub ◌>>=◌ {ℓ κ} : {A : Type ℓ} {B : Type κ} → Result A → (A → Result B) → Result B
ok a >>= f = f a
raise e >>= f = raise e

pub Result-cases {ℓ} :
    {A : Type ℓ} (r : Result A) → ((a : A) × (r ≡ ok a)) ⊎ ((t : String) × (r ≡ raise t))
Result-cases (ok a) = inl (a, refl)
Result-cases (raise t) = inr (t, refl)
