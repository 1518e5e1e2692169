-- ===== src/Canonical/Equal.antt =====
-- Python's `==` on JSON values: `True` is 1 and `False` is 0, and the order of keys is no part of it.
use strongwiz.Base.{
  ℕ, suc, String, Bool, true, false, ◌&&◌, ◌||◌, ◌==◌, string_eq, nat_eq, if◌then◌else◌, Option,
  none, some,
}
use strongwiz.Canonical.Json.{
  Json, null, bool, int, str, list, dict, Items, nil, cons, Fields, end, field,
}

-- a number as its sign, which 0 has not, and its magnitude
abbrev number_eq : Bool → ℕ → Bool → ℕ → Bool
number_eq s m t n = m == n && (m == 0 || (if s then t else (if t then false else true)))

abbrev bit : Bool → ℕ
bit true = 1
bit false = 0

unfoldable pub value_at : Fields → String → Option Json
value_at end key = none
value_at (field k v rest) key = if key == k then some v else value_at rest key

unfoldable pub count : Fields → ℕ
count end = 0
count (field k v rest) = suc (count rest)

unfoldable mutual
  pub json_eq : Json → Json → Bool
  json_eq null null = true
  json_eq (bool a) (bool b) = number_eq true (bit a) true (bit b)
  json_eq (bool a) (int t n) = number_eq true (bit a) t n
  json_eq (int s m) (bool b) = number_eq s m true (bit b)
  json_eq (int s m) (int t n) = number_eq s m t n
  json_eq (str a) (str b) = a == b
  json_eq (list xs) (list ys) = items_eq xs ys
  json_eq (dict xs) (dict ys) = count xs == count ys && fields_in xs ys
  json_eq _ _ = false

  items_eq : Items → Items → Bool
  items_eq nil nil = true
  items_eq (cons x xs) (cons y ys) = json_eq x y && items_eq xs ys
  items_eq _ _ = false

  fields_in : Fields → Fields → Bool
  fields_in end ys = true
  fields_in (field k v rest) ys =
      elim (value_at ys k) [ none ↦ false | some w ↦ json_eq v w ] && fields_in rest ys
