-- ===== src/Base/Members.antt =====
-- Members of mapped and filtered lists, with their positions.
use mathlib.Core.Path.{◌≡◌, refl, ap}
use mathlib.Core.Bool.{Bool, true}
use mathlib.Core.List.{List, [], ◌∷◌, Memᴰ, map}
use mathlib.Core.Logic.{inl, inr}
use strongwiz.Base.Tests.{Bool-cases}
use strongwiz.Base.Lists.{keep}

module _ {ℓ} {A : Type ℓ} (test : A → Bool) where
  pub mem-keep : (a : A) (xs : List A) → Memᴰ a xs → test a ≡ true → Memᴰ a (keep test xs)
  mem-keep a (x ∷ xs) (Memᴰ.head e) h =
      let passes : test x ≡ true = (rw (← e) h) in rw passes (Memᴰ.head e)
  mem-keep a (x ∷ xs) (Memᴰ.tail m) h = elim (Bool-cases (test x)) [
    | inl passes ↦ rw passes (Memᴰ.tail (mem-keep a xs m h))
    | inr fails ↦ rw fails (mem-keep a xs m h)
  ]
  mem-keep a [] m h = elim m [ ]

  pub mem_of_keep : (a : A) (xs : List A) → Memᴰ a (keep test xs) → Memᴰ a xs × (test a ≡ true)
  mem_of_keep a [] m = elim m [ ]
  mem_of_keep a (x ∷ xs) m = elim (Bool-cases (test x)) [
    | inl passes ↦ kept passes (mem_of_keep a xs) (rw passes at m)
    | inr fails ↦ let (n, h) = mem_of_keep a xs (rw fails at m) in (Memᴰ.tail n, h)
  ]
    where
      kept :
          test x ≡ true
          → (Memᴰ a (keep test xs) → Memᴰ a xs × (test a ≡ true))
          → Memᴰ a (x ∷ keep test xs)
          → Memᴰ a (x ∷ xs) × (test a ≡ true)
      kept passes rest (Memᴰ.head e) = (Memᴰ.head e, rw e passes)
      kept passes rest (Memᴰ.tail n) = let (k, h) = rest n in (Memᴰ.tail k, h)

module _ {ℓ κ} {A : Type ℓ} {B : Type κ} (f : A → B) where
  pub mem-map : (a : A) (xs : List A) → Memᴰ a xs → Memᴰ (f a) (map f xs)
  mem-map a [] m = elim m [ ]
  mem-map a (x ∷ xs) (Memᴰ.head e) = Memᴰ.head (ap f e)
  mem-map a (x ∷ xs) (Memᴰ.tail m) = Memᴰ.tail (mem-map a xs m)

  pub mem_of_map : (b : B) (xs : List A) → Memᴰ b (map f xs) → (a : A) × Memᴰ a xs × (b ≡ f a)
  mem_of_map b [] m = elim m [ ]
  mem_of_map b (x ∷ xs) (Memᴰ.head e) = (x, Memᴰ.head refl, e)
  mem_of_map b (x ∷ xs) (Memᴰ.tail m) = let (a, n, e) = mem_of_map b xs m in (a, Memᴰ.tail n, e)
