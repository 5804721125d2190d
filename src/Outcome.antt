-- ===== src/Outcome.antt =====
-- Calls that may end by a C++ exception (those that `std::stoi` and `std::stoul` throw).
use simple_dnsd.Base.{◌≡◌, refl, ◌⊎◌, inl, inr}

pub data Outcome {ℓ} (A : Type ℓ) : Type ℓ where
  ok : A → Outcome A
  thrown : Outcome A

infixl 5 ◌>>=◌
abbrev pub ◌>>=◌ {ℓ κ} : {A : Type ℓ} {B : Type κ} → Outcome A → (A → Outcome B) → Outcome B
ok a >>= f = f a
thrown >>= f = thrown

-- `try { … } catch (...) { return d; }`
abbrev pub catch_with {ℓ} : {A : Type ℓ} → A → Outcome A → A
catch_with d (ok a) = a
catch_with d thrown = d

pub Outcome-cases {ℓ} : {A : Type ℓ} (o : Outcome A) → (o ≡ thrown) ⊎ ((a : A) × (o ≡ ok a))
Outcome-cases thrown = inl refl
Outcome-cases (ok a) = inr (a, refl)
