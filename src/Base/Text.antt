-- ===== src/Base/Text.antt =====
-- Texts: Python's truth value of a `str`, `str.strip`, and the order of code points.
use mathlib.Core.Path.{◌≡◌, refl}
use native.Mathlib.Omega.{arith}
use Prim.Native.Nat.{ℕ, zero, suc, compare, Ordering}
use Prim.Native.Char.{code}
use Prim.Native.String.{String}
use mathlib.Core.Bool.{Bool, true, false, ◌&&◌, ◌||◌}
use strongwiz.Base.Tests.{leb, nat_beq}

-- `bool(value)`
unfoldable pub is_nonempty : String → Bool
is_nonempty String.[] = false
is_nonempty (String.◌∷◌ c s) = true

-- `str.isspace` on one code point
unfoldable pub is_space : ℕ → Bool
is_space c =
    (leb 9 c && leb c 13)
    || (leb 28 c && leb c 32)
    || nat_beq c 0x85
    || nat_beq c 0xa0
    || nat_beq c 0x1680
    || (leb 0x2000 c && leb c 0x200a)
    || nat_beq c 0x2028
    || nat_beq c 0x2029
    || nat_beq c 0x202f
    || nat_beq c 0x205f
    || nat_beq c 0x3000

-- `bool(value.strip())`
unfoldable pub has_text : String → Bool
unfolding is_space
has_text String.[] = false
has_text (String.◌∷◌ c s) = elim (is_space (code c)) [ true ↦ has_text s | false ↦ true ]

-- `a < b` on texts
unfoldable pub text_lt : String → String → Bool
text_lt String.[] String.[] = false
text_lt String.[] (String.◌∷◌ d t) = true
text_lt (String.◌∷◌ c s) String.[] = false
text_lt (String.◌∷◌ c s) (String.◌∷◌ d t) = elim (compare (code c) (code d)) [
  | Ordering.lt ↦ true
  | Ordering.eq ↦ text_lt s t
  | Ordering.gt ↦ false
]

pub text_lt_irreflexive : (s : String) → text_lt s s ≡ false
unfolding text_lt
text_lt_irreflexive String.[] = refl
text_lt_irreflexive (String.◌∷◌ c s) = ground (arith, text_lt_irreflexive s)

pub text_lt_transitive :
    (s t u : String) → text_lt s t ≡ true → text_lt t u ≡ true → text_lt s u ≡ true
unfolding text_lt
text_lt_transitive String.[] String.[] u h k = cc
text_lt_transitive String.[] (String.◌∷◌ d t) String.[] h k = cc
text_lt_transitive String.[] (String.◌∷◌ d t) (String.◌∷◌ e u) h k = refl
text_lt_transitive (String.◌∷◌ c s) String.[] u h k = cc
text_lt_transitive (String.◌∷◌ c s) (String.◌∷◌ d t) String.[] h k = cc
text_lt_transitive (String.◌∷◌ c s) (String.◌∷◌ d t) (String.◌∷◌ e u) h k =
    ground (arith, text_lt_transitive s t u)

-- `a + b` of texts
unfoldable pub join : String → String → String
join String.[] t = t
join (String.◌∷◌ c s) t = String.◌∷◌ c (join s t)

is_hex : ℕ → Bool
is_hex c = (leb 48 c && leb c 57) || (leb 97 c && leb c 102)

-- so many lowercase hexadecimal digits and no more
hex_digits : ℕ → String → Bool
unfolding is_hex
hex_digits zero String.[] = true
hex_digits (suc n) String.[] = false
hex_digits zero (String.◌∷◌ c s) = false
hex_digits (suc n) (String.◌∷◌ c s) = is_hex (code c) && hex_digits n s

-- `_DIGEST.fullmatch(value) is not None`
unfoldable pub is_digest : String → Bool
unfolding hex_digits
is_digest = hex_digits 64
