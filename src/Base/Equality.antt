-- ===== src/Base/Equality.antt =====
-- Python's `==` on the values that the program compares, decided by an instance.
use mathlib.Core.Path.{◌≡◌, refl}
use mathlib.Core.Logic.{◌↔◌}
use mathlib.Core.Bool.{Bool, true, false}
use mathlib.Core.Option.{Option}
use mathlib.Core.List.{List}
use native.Mathlib.Omega.{arith}
use native.Mathlib.Decide.{ℕ_discrete}
use text.Mathlib.Text.{◌==◌ as str_eq}
use text.Mathlib.TextEquality.{eq_iff}
use Prim.Native.Nat.{ℕ}
use Prim.Native.String.{String}

unfoldable pub String_discrete : Discrete String
String_discrete s t =
    (elim (str_eq s t) as (λ b. ((b ≡ true) ↔ (s ≡ t)) → Dec (s ≡ t)) [
      | true ↦ λ e. yes (e.0 refl)
      | false ↦ λ e. no (λ p. differ (e.1 p))
    ])
      (eq_iff s t)
  where
    differ : false ≡ true → ⊥
    differ p = cc

pub record Eq {ℓ} (A : Type ℓ) : Type ℓ where
  pub dec_eq : Discrete A

infix 50 ◌==◌
abbrev pub ◌==◌ {ℓ} : {A : Type ℓ} ⦃e : Eq A⦄ → A → A → Bool
◌==◌ ⦃e⦄ a b = elim (e.dec_eq a b) [ yes _ ↦ true | no _ ↦ false ]

module _ {ℓ} {A : Type ℓ} where
  unfoldable pub Option_discrete : Discrete A → Discrete (Option A)
  Option_discrete d = hlevel d

  unfoldable pub List_discrete : Discrete A → Discrete (List A)
  List_discrete d = hlevel d

unfoldable pub Pair_discrete {ℓ} : {A B : Type ℓ} → Discrete A → Discrete B → Discrete (A × B)
Pair_discrete d e = hlevel (d, e)

instance abbrev pub string_eq : Eq String
string_eq = record { dec_eq = String_discrete }

instance abbrev pub nat_eq : Eq ℕ
nat_eq = record { dec_eq = ℕ_discrete }

instance abbrev pub option_eq {ℓ} : {A : Type ℓ} ⦃e : Eq A⦄ → Eq (Option A)
option_eq ⦃e⦄ = record { dec_eq = Option_discrete e.dec_eq }

instance abbrev pub list_eq {ℓ} : {A : Type ℓ} ⦃e : Eq A⦄ → Eq (List A)
list_eq ⦃e⦄ = record { dec_eq = List_discrete e.dec_eq }

instance abbrev pub pair_eq {ℓ} : {A B : Type ℓ} ⦃e : Eq A⦄ ⦃f : Eq B⦄ → Eq (A × B)
pair_eq ⦃e⦄ ⦃f⦄ = record { dec_eq = Pair_discrete e.dec_eq f.dec_eq }

module _ {ℓ} {A : Type ℓ} ⦃e : Eq A⦄ where
  pub ==_iff : (a b : A) → ((a == b) ≡ true) ↔ (a ≡ b)
  ==_iff a b = ground arith

  pub eq_refl : (a : A) → (a == a) ≡ true
  eq_refl a = ground arith
