-- ===== src/Base/Lists.antt =====
-- Lists: length, membership, uniqueness, lookup by position, and `all` as a predicate.
use Prim.Native.Nat.{ℕ, zero, suc, ◌+◌, ◌<◌}
use mathlib.Core.Path.{◌≡◌, refl, ap}
use mathlib.Core.Bool.{Bool, true, false, not, ◌&&◌, ◌||◌}
use mathlib.Core.Option.{Option, none, some}
use mathlib.Core.List.{List, [], ◌∷◌, ◌++◌}
use native.Mathlib.Omega.{arith}
use strongwiz.Base.Tests.{if◌then◌else◌}
use strongwiz.Base.Equality.{Eq, ◌==◌}

module _ {ℓ} {A : Type ℓ} where
  abbrev pub length : List A → ℕ
  length [] = 0
  length (x ∷ xs) = suc (length xs)

  abbrev pub get_elem? : List A → ℕ → Option A
  get_elem? [] i = none
  get_elem? (x ∷ xs) zero = some x
  get_elem? (x ∷ xs) (suc i) = get_elem? xs i

  -- A write out of bounds changes nothing.
  abbrev pub set : List A → ℕ → A → List A
  set [] i v = []
  set (x ∷ xs) zero v = v ∷ xs
  set (x ∷ xs) (suc i) v = x ∷ set xs i v

  -- `all(test(x) for x in xs)`
  abbrev pub all : (A → Bool) → List A → Bool
  all test [] = true
  all test (x ∷ xs) = test x && all test xs

  -- `any(test(x) for x in xs)`
  abbrev pub any : (A → Bool) → List A → Bool
  any test [] = false
  any test (x ∷ xs) = test x || any test xs

  -- `[x for x in xs if test(x)]`
  abbrev pub keep : (A → Bool) → List A → List A
  keep test [] = []
  keep test (x ∷ xs) = let rest = keep test xs in if test x then x ∷ rest else rest

  -- How many elements pass a test.
  abbrev pub tally : (A → Bool) → List A → ℕ
  tally test [] = 0
  tally test (x ∷ xs) = (if test x then 1 else 0) + tally test xs

  -- `bool(xs)`
  abbrev pub is_present : List A → Bool
  is_present [] = false
  is_present (_ ∷ _) = true

  pub is_present-append :
      (xs ys : List A) → is_present (xs ++ ys) ≡ (is_present xs || is_present ys)
  is_present-append [] ys = refl
  is_present-append (x ∷ xs) ys = refl

  pub length-append : (xs ys : List A) → length (xs ++ ys) ≡ length xs + length ys
  length-append [] ys = omega arith
  length-append (x ∷ xs) ys = omega (arith, length-append xs ys)

  pub tally-append : (f : A → Bool) (xs ys : List A) → tally f (xs ++ ys) ≡ tally f xs + tally f ys
  tally-append f [] ys = omega arith
  tally-append f (x ∷ xs) ys = omega (arith, tally-append f xs ys)

  -- The count after one element is replaced.
  pub tally-set :
      (f : A → Bool) (xs : List A) (i : ℕ) (old new : A)
      → get_elem? xs i ≡ some old
      → tally f (set xs i new) + (if f old then 1 else 0) ≡ tally f xs + (if f new then 1 else 0)
  tally-set f [] i old new h = cc
  tally-set f (x ∷ xs) zero old new h = ground arith
  tally-set f (x ∷ xs) (suc i) old new h = omega (arith, tally-set f xs i old new h)

  -- An element that passes is counted.
  pub tally-pos :
      (f : A → Bool) (xs : List A) (i : ℕ) (x : A)
      → get_elem? xs i ≡ some x
      → f x ≡ true
      → 0 < tally f xs
  tally-pos f [] i x h t = cc
  tally-pos f (y ∷ xs) zero x h t = ground arith
  tally-pos f (y ∷ xs) (suc i) x h t = ground (arith, tally-pos f xs i x h t)

  pub get_elem?-set_self :
      (xs : List A) (i : ℕ) (old new : A)
      → get_elem? xs i ≡ some old
      → get_elem? (set xs i new) i ≡ some new
  get_elem?-set_self [] i old new h = cc
  get_elem?-set_self (x ∷ xs) zero old new h = refl
  get_elem?-set_self (x ∷ xs) (suc i) old new h = get_elem?-set_self xs i old new h

  -- Writing an element where it stands changes nothing.
  pub set_same : (xs : List A) (i : ℕ) (x : A) → get_elem? xs i ≡ some x → set xs i x ≡ xs
  set_same [] i x h = refl
  set_same (y ∷ xs) zero x h = ground arith
  set_same (y ∷ xs) (suc i) x h = ap (λ t. y ∷ t) (set_same xs i x h)

module _ {ℓ} {A : Type ℓ} ⦃e : Eq A⦄ where
  -- `x in xs`
  abbrev pub contains : List A → A → Bool
  contains [] a = false
  contains (x ∷ xs) a = a == x || contains xs a

  -- `len(set(xs)) == len(xs)`
  abbrev pub is_unique : List A → Bool
  is_unique [] = true
  is_unique (x ∷ xs) = not (contains xs x) && is_unique xs

  pub contains-append :
      (xs ys : List A) (a : A) → contains (xs ++ ys) a ≡ (contains xs a || contains ys a)
  contains-append [] ys a = refl
  contains-append (x ∷ xs) ys a = ground (arith, contains-append xs ys a)
