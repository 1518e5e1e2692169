-- ===== src/Facts/Subsets.antt =====
-- Lists of references as sets.
use strongwiz.Base.{
  ◌<◌, ◌≤◌, ◌≡◌, inl, inr, refl, arith, String, true, false, not, ◌&&◌, List, [], ◌∷◌, ◌==◌, any,
  contains, difference, length, string_eq, Bool-cases,
}

-- every element of one list is in another
abbrev pub Below : List String → List String → Type 0
Below xs ys = (r : String) → contains xs r ≡ true → contains ys r ≡ true

pub contains-difference :
    (xs ys : List String) (r : String)
    → contains (difference xs ys) r ≡ (contains xs r && not (contains ys r))
contains-difference [] ys r = refl
contains-difference (x ∷ xs) ys r = ground (arith, contains-difference xs ys r)

pub any-contains :
    (xs ys : List String)
    → any (contains ys) xs ≡ true
    → (x : String) × (contains xs x ≡ true) × (contains ys x ≡ true)
any-contains [] ys h = cc
any-contains (x ∷ xs) ys h = elim (Bool-cases (contains ys x)) [
  | inl there ↦ (x, ground arith, there)
  | inr absent ↦
      let (y, first, second) = any-contains xs ys (ground (arith, h, absent)) in
      (y, ground (arith, first), second)
]

pub contains-any :
    (xs ys : List String) (x : String)
    → contains xs x ≡ true
    → contains ys x ≡ true
    → any (contains ys) xs ≡ true
contains-any [] ys x h k = cc
contains-any (y ∷ xs) ys x h k = elim (Bool-cases (x == y)) [
  | inl same ↦ ground (arith, same, k)
  | inr other ↦ ground (arith, contains-any xs ys x (ground (arith, h, other)) k)
]

pub shrinks_le :
    (xs c d : List String) → Below c d → length (difference xs d) ≤ length (difference xs c)
shrinks_le [] c d below = omega arith
shrinks_le (x ∷ xs) c d below = elim (Bool-cases (contains c x)) [
  | inl there ↦ ground (arith, there, below x there, shrinks_le xs c d below)
  | inr absent ↦ ground (arith, absent, shrinks_le xs c d below)
]

-- a set that takes one more of the others leaves fewer of them
pub shrinks :
    (xs c d : List String) (r : String)
    → Below c d
    → contains xs r ≡ true
    → contains c r ≡ false
    → contains d r ≡ true
    → length (difference xs d) < length (difference xs c)
shrinks [] c d r below h absent there = cc
shrinks (x ∷ xs) c d r below h absent there = elim (Bool-cases (r == x)) [
  | inl same ↦ ground (arith, same, absent, there, shrinks_le xs c d below)
  | inr other ↦
      let less = shrinks xs c d r below (ground (arith, h, other)) absent there in
      elim (Bool-cases (contains c x)) [
        | inl known ↦ ground (arith, known, below x known, less)
        | inr free ↦ ground (arith, free, less)
      ]
]

pub no_element : (xs : List String) (r : String) → length xs ≤ 0 → contains xs r ≡ true → ⊥
no_element [] r h m = cc
no_element (x ∷ xs) r h m = absurd (omega (arith, h))
