-- ===== src/Base/Minimum.antt =====
-- Python's `min` with a key: the first element that no other is below.
use mathlib.Core.Path.{◌≡◌, refl}
use mathlib.Core.Bool.{Bool, true, false}
use mathlib.Core.List.{List, [], ◌∷◌, Memᴰ}
use mathlib.Core.Logic.{inl, inr}
use native.Mathlib.Omega.{arith}
use strongwiz.Base.Tests.{if◌then◌else◌, Bool-cases}

module _ {ℓ} {A : Type ℓ} (lt : A → A → Bool) where
  -- `min(best, *xs)`
  unfoldable pub min_from : A → List A → A
  min_from best [] = best
  min_from best (x ∷ xs) = min_from (if lt x best then x else best) xs

  pub min_from-Mem : (best : A) (xs : List A) → Memᴰ (min_from best xs) (best ∷ xs)
  unfolding min_from
  min_from-Mem best [] = Memᴰ.head refl
  min_from-Mem best (x ∷ xs) = elim (Bool-cases (lt x best)) [
    | inl less ↦ rw less (Memᴰ.tail (min_from-Mem x xs))
    | inr kept ↦ rw kept (skip (min_from-Mem best xs))
  ]
    where
      skip : {a : A} → Memᴰ a (best ∷ xs) → Memᴰ a (best ∷ x ∷ xs)
      skip (Memᴰ.head e) = Memᴰ.head e
      skip (Memᴰ.tail m) = Memᴰ.tail (Memᴰ.tail m)

  module _ (irreflexive : (x : A) → lt x x ≡ false)
      (transitive : (x y z : A) → lt x y ≡ true → lt y z ≡ true → lt x z ≡ true) where
    -- what was not below `best` is not below the minimum
    keeps_bound : (y best : A) (xs : List A) → lt y best ≡ false → lt y (min_from best xs) ≡ false
    unfolding min_from
    keeps_bound y best [] h = h
    keeps_bound y best (x ∷ xs) h =
        keeps_bound y (if lt x best then x else best) xs (ground (arith, transitive y x best))

    below_rest : (y best : A) (xs : List A) → Memᴰ y xs → lt y (min_from best xs) ≡ false
    unfolding min_from
    below_rest y best (x ∷ xs) (Memᴰ.head e) =
        keeps_bound y (if lt x best then x else best) xs
          (rw e (ground (arith, irreflexive x, transitive best x best, irreflexive best)))
    below_rest y best (x ∷ xs) (Memᴰ.tail m) = below_rest y (if lt x best then x else best) xs m
    below_rest y best [] m = elim m [ ]

    pub min_from-le :
        (y best : A) (xs : List A) → Memᴰ y (best ∷ xs) → lt y (min_from best xs) ≡ false
    min_from-le y best xs (Memᴰ.head e) = keeps_bound y best xs (rw e (irreflexive best))
    min_from-le y best xs (Memᴰ.tail m) = below_rest y best xs m
