-- ===== src/Base/Exec.antt =====
-- A method of a mutable object: it takes the state and gives a result with the state that it
-- leaves. What a method wrote before it raised stays written.
use mathlib.Core.Path.{◌≡◌, refl, ap}
use mathlib.Core.Bool.{Bool, true, false}
use mathlib.Core.Option.{Option, none, some}
use strongwiz.Base.Result.{Result, ok, err}

abbrev pub Exec {ℓ} : Type ℓ → Type ℓ → Type ℓ → Type ℓ
Exec S E A = S → Result E A × S

module _ {ℓ} {S E A : Type ℓ} where
  abbrev pub pure : A → Exec S E A
  pure a s = (ok a, s)

  abbrev pub raise : E → Exec S E A
  raise e s = (err e, s)

  abbrev pub gets : (S → A) → Exec S E A
  gets f s = (ok (f s), s)

  abbrev pub lift : Result E A → Exec S E A
  lift r s = (r, s)

  abbrev pub or_raise : Option A → E → Exec S E A
  or_raise none e = raise e
  or_raise (some a) _ = pure a

infixl 5 ◌>>=◌ ◌>>◌
abbrev pub ◌>>=◌ {ℓ} : {S E A B : Type ℓ} → Exec S E A → (A → Exec S E B) → Exec S E B
◌>>=◌ m f s = let (r, s') = m s in elim r [ ok a ↦ f a s' | err e ↦ raise e s' ]

abbrev pub ◌>>◌ : {S E B : Type 0} → Exec S E (Unit {0}) → Exec S E B → Exec S E B
m >> k = m >>= λ _. k

abbrev pub raise_if : {S E : Type 0} → Bool → E → Exec S E (Unit {0})
raise_if true e = raise e
raise_if false e = pure tt

abbrev pub modify : {S E : Type 0} → (S → S) → Exec S E (Unit {0})
modify f s = (ok tt, f s)

-- What an action that returned has done, part by part.
pub >>=-eq-ok {ℓ} :
    {S E A B : Type ℓ} (m : Exec S E A) (f : A → Exec S E B) {s t : S} {b : B}
    → (m >>= f) s ≡ (ok b, t)
    → (a : A) × (u : S) × (m s ≡ (ok a, u)) × (f a u ≡ (ok b, t))
>>=-eq-ok {S = S} {E = E} {A = A} {B = B} m f {s} {t} {b} done = parts (m s) refl done
  where
    parts :
        (r : Result E A × S)
        → m s ≡ r
        → ((λ _. r) >>= f) s ≡ (ok b, t)
        → (a : A) × (u : S) × (m s ≡ (ok a, u)) × (f a u ≡ (ok b, t))
    parts (ok a, u) e h = (a, u, e, h)
    parts (err x, u) e h = cc

-- One step of a sequence, where the first action is known to return or to raise.
module _ {ℓ} {S E A B : Type ℓ} (m : Exec S E A) (f : A → Exec S E B) {s t : S} where
  pub >>=-ok : {a : A} → m s ≡ (ok a, t) → (m >>= f) s ≡ f a t
  >>=-ok {a} e = ap (λ (r : Result E A × S). ((λ _. r) >>= f) s) e

  pub >>=-err : {x : E} → m s ≡ (err x, t) → (m >>= f) s ≡ (err x, t)
  >>=-err {x} e = ap (λ (r : Result E A × S). ((λ _. r) >>= f) s) e

-- A value that is lifted leaves the state.
pub >>=-lift {ℓ} :
    {S E A B : Type ℓ} (r : Result E A) (f : A → Exec S E B) {s t : S} {b : B}
    → (lift r >>= f) s ≡ (ok b, t)
    → (a : A) × (r ≡ ok a) × (f a s ≡ (ok b, t))
>>=-lift (ok a) f done = (a, refl, done)
>>=-lift (err e) f done = cc

-- an action that ends in a raise does not return
pub >>-raise :
    {S E A : Type 0} (m : Exec S E (Unit {0})) (e : E) (s t : S) (a : A)
    → (m >> raise e) s ≡ (ok a, t)
    → ⊥
>>-raise m e s t a h = let (_, _, _, never) = >>=-eq-ok m (λ _. raise e) h in cc
