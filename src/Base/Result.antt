-- ===== src/Base/Result.antt =====
-- A function that may raise returns a `Result`; `raise_if` is a guard that raises.
use mathlib.Core.Path.{◌≡◌, refl}
use mathlib.Core.Bool.{Bool, true, false}
use mathlib.Core.Logic.{◌⊎◌, inl, inr}

pub data Result {ℓ} (E A : Type ℓ) : Type ℓ where
  err : E → Result E A
  ok : A → Result E A

-- the call returned
abbrev pub is_ok {ℓ} : {E A : Type ℓ} → Result E A → Bool
is_ok (err _) = false
is_ok (ok _) = true

infixl 5 ◌>>=◌ ◌>>◌
abbrev pub ◌>>=◌ {ℓ} : {E A B : Type ℓ} → Result E A → (A → Result E B) → Result E B
err problem >>= _ = err problem
ok value >>= next = next value

abbrev pub ◌>>◌ : {E B : Type 0} → Result E (Unit {0}) → Result E B → Result E B
first >> second = first >>= λ _. second

abbrev pub raise_if : {E : Type 0} → Bool → E → Result E (Unit {0})
raise_if true e = err e
raise_if false e = ok tt

-- What a call that returned has done, part by part.
pub >>=-eq-ok {ℓ} :
    {E A B : Type ℓ} (call : Result E A) (next : A → Result E B) {result : B}
    → (call >>= next) ≡ ok result
    → (value : A) × (call ≡ ok value) × (next value ≡ ok result)
>>=-eq-ok (err _) _ returned = cc
>>=-eq-ok (ok value) _ returned = (value, refl, returned)

pub Result-cases {ℓ} :
    {E A : Type ℓ} (r : Result E A) → ((a : A) × (r ≡ ok a)) ⊎ ((e : E) × (r ≡ err e))
Result-cases (err problem) = inr (problem, refl)
Result-cases (ok value) = inl (value, refl)
