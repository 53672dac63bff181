-- ===== src/Base/Results.antt =====
-- What a C++ call that may throw gives back: its value, or the exception that nobody above catches.
use mathlib.Core.Path.{◌≡◌, refl}
use mathlib.Core.Logic.{◌⊎◌, inl, inr}

pub data Outcome {ℓ} (A : Type ℓ) : Type ℓ where
  done : A → Outcome A
  threw : Outcome A

infixl 5 ◌>>=◌
abbrev pub ◌>>=◌ {ℓ κ} : {A : Type ℓ} {B : Type κ} → Outcome A → (A → Outcome B) → Outcome B
done a >>= f = f a
threw >>= f = threw

-- Inversion of a chain that ended without an exception.
pub >>=-eq-done {ℓ κ} :
    {A : Type ℓ} {B : Type κ} (m : Outcome A) (f : A → Outcome B) {b : B}
    → (m >>= f) ≡ done b
    → (a : A) × (m ≡ done a) × (f a ≡ done b)
>>=-eq-done (done a) f h = (a, refl, h)
>>=-eq-done threw f h = cc

-- A chain throws where one of its parts does.
pub >>=-eq-threw {ℓ κ} :
    {A : Type ℓ} {B : Type κ} (m : Outcome A) (f : A → Outcome B)
    → (m >>= f) ≡ threw
    → (m ≡ threw) ⊎ ((a : A) × (m ≡ done a) × (f a ≡ threw))
>>=-eq-threw (done a) f h = inr (a, refl, h)
>>=-eq-threw threw f h = inl refl

pub done-injective {ℓ} : {A : Type ℓ} {a b : A} → done a ≡ done b → a ≡ b
done-injective h = cc
