-- ===== src/Base/Results.antt =====
-- A value or the error that the code throws.
use mathlib.Core.Logic.{◌⊎◌, inl, inr}
use mathlib.Core.Path.{◌≡◌, refl}

pub data Result {ℓ} (Thrown : Type ℓ) (Value : Type ℓ) : Type ℓ where
  err : Thrown → Result Thrown Value
  ok : Value → Result Thrown Value

-- A throw ends the chain.
infixl 3 ◌>>=◌
abbrev pub ◌>>=◌ {ℓ} :
    {Thrown Value Next : Type ℓ}
    → Result Thrown Value
    → (Value → Result Thrown Next)
    → Result Thrown Next
err thrown >>= next = err thrown
ok value >>= next = next value

infixl 3 ◌>>◌
abbrev pub ◌>>◌ {ℓ} :
    {Thrown Value Next : Type ℓ} → Result Thrown Value → Result Thrown Next → Result Thrown Next
before >> next = before >>= λ _. next

-- A chain that returns has returned at its first step.
pub >>=-eq-ok {ℓ} :
    {Thrown Value Next : Type ℓ} (before : Result Thrown Value) (next : Value → Result Thrown Next)
    {last : Next}
    → (before >>= next) ≡ ok last
    → (value : Value) × (before ≡ ok value) × (next value ≡ ok last)
>>=-eq-ok (err thrown) next returned = cc
>>=-eq-ok (ok value) next returned = (value, refl, returned)

pub ok_injective {ℓ} : {E A : Type ℓ} {a b : A} → Path (Result E A) (ok a) (ok b) → a ≡ b
ok_injective h = cc

pub Result-cases {ℓ} :
    {Thrown Value : Type ℓ} (r : Result Thrown Value)
    → ((thrown : Thrown) × (r ≡ err thrown)) ⊎ ((value : Value) × (r ≡ ok value))
Result-cases (err thrown) = inl (thrown, refl)
Result-cases (ok value) = inr (value, refl)
