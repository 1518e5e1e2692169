-- ===== src/Base/Sets.antt =====
-- Python's `sorted(set(xs))` and set difference, on texts.
use mathlib.Core.Path.{◌≡◌, refl}
use mathlib.Core.Bool.{true, not, ◌||◌}
use mathlib.Core.List.{List, [], ◌∷◌}
use native.Mathlib.Omega.{arith}
use Prim.Native.String.{String}
use strongwiz.Base.Tests.{if◌then◌else◌}
use strongwiz.Base.Equality.{◌==◌, string_eq}
use strongwiz.Base.Text.{text_lt}
use strongwiz.Base.Lists.{contains, keep, all, is_present}

-- `text` put in its place in a sorted list, unless it is there
unfoldable pub insert_text : String → List String → List String
insert_text k [] = k ∷ []
insert_text k (x ∷ xs) =
    if k == x then x ∷ xs else if text_lt k x then k ∷ x ∷ xs else x ∷ insert_text k xs

-- `sorted(set(xs))`
unfoldable pub sorted_set : List String → List String
unfolding insert_text
sorted_set [] = []
sorted_set (x ∷ xs) = insert_text x (sorted_set xs)

-- `set(xs) - set(ys)`, in the order of `xs`
abbrev pub difference : List String → List String → List String
difference xs ys = keep (λ x. not (contains ys x)) xs

pub contains-insert_text :
    (k a : String) (xs : List String) → contains (insert_text k xs) a ≡ (a == k || contains xs a)
unfolding insert_text
contains-insert_text k a [] = refl
contains-insert_text k a (x ∷ xs) = ground (arith, contains-insert_text k a xs)

pub contains-sorted_set :
    (xs : List String) (a : String) → contains (sorted_set xs) a ≡ contains xs a
unfolding sorted_set
contains-sorted_set [] a = refl
contains-sorted_set (x ∷ xs) a =
    ground (arith, contains-sorted_set xs a, contains-insert_text x a (sorted_set xs))

is_present-insert_text : (k : String) (xs : List String) → is_present (insert_text k xs) ≡ true
unfolding insert_text
is_present-insert_text k [] = refl
is_present-insert_text k (x ∷ xs) = ground arith

pub is_present-sorted_set : (xs : List String) → is_present (sorted_set xs) ≡ is_present xs
unfolding sorted_set
is_present-sorted_set [] = refl
is_present-sorted_set (x ∷ xs) = is_present-insert_text x (sorted_set xs)

-- Nothing is missing exactly when all is at hand.
pub is_present-difference :
    (xs ys : List String) → is_present (difference xs ys) ≡ not (all (contains ys) xs)
is_present-difference [] ys = refl
is_present-difference (x ∷ xs) ys = ground (arith, is_present-difference xs ys)
