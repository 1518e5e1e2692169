-- ===== src/Transport/Bytes.antt =====
-- Bytes as numbers, big-endian numbers of so many bytes, and hexadecimal text.
use strongwiz.Base.{
  ℕ, zero, suc, ◌+◌, ◌*◌, ◌<◌, String, Bool, true, List, [], ◌∷◌, ◌≡◌, refl, arith, all, ltb,
  length, join, get_elem?, none, some, take, drop,
}
use Prim.Native.Nat.{◌/◌, ◌%◌}
use mathlib.Core.Path.{subst, ◌∙◌}
use native.Mathlib.Nat.{
  div-add-mod', mod-lt, mul-add-div_right, div-eq_of_lt, mul-add-mod_self_right, mod-eq_of_lt,
  mul-le-mul_right, suc-mul, mul_comm, div-lt_iff_lt-mul,
}

abbrev pub Bytes : Type 0
Bytes = List ℕ

-- each element of a Python `bytes` is below 256
abbrev pub are_bytes : Bytes → Bool
are_bytes = all (λ b. ltb b 256)

-- 256 ^ k
unfoldable pub weight : ℕ → ℕ
weight zero = 1
weight (suc k) = weight k * 256

-- the number in `k` bytes, the most significant first
unfoldable pub pack_number : ℕ → ℕ → Bytes
unfolding weight
pack_number zero n = []
pack_number (suc k) n = n / weight k ∷ pack_number k (n % weight k)

unfoldable pub unpack_number : Bytes → ℕ
unfolding weight
unpack_number [] = 0
unpack_number (b ∷ bs) = b * weight (length bs) + unpack_number bs

hex_digit : ℕ → String
hex_digit n =
    elim (get_elem? {A = String}
      ("0" ∷ "1" ∷ "2" ∷ "3" ∷ "4" ∷ "5" ∷ "6" ∷ "7" ∷ "8" ∷ "9" ∷ "a" ∷ "b" ∷ "c" ∷ "d" ∷ "e" ∷ "f"
        ∷ [])
      n) [ none ↦ "" | some s ↦ s ]

-- `bytes.hex`
unfoldable pub hex : Bytes → String
unfolding hex_digit
hex [] = ""
hex (b ∷ bs) = join (hex_digit (b / 16)) (join (hex_digit (b % 16)) (hex bs))

pub weight-pos : (k : ℕ) → 0 < weight k
unfolding weight
weight-pos zero = omega arith
weight-pos (suc k) = omega (arith, weight-pos k)

pub length-pack_number : (k n : ℕ) → length (pack_number k n) ≡ k
unfolding pack_number
length-pack_number zero n = refl
length-pack_number (suc k) n = omega (arith, length-pack_number k (n % weight k))

pub unpack_number-pack_number : (k n : ℕ) → n < weight k → unpack_number (pack_number k n) ≡ n
unfolding pack_number unpack_number weight
unpack_number-pack_number zero n h = omega arith
unpack_number-pack_number (suc k) n h =
    rw
      (
        length-pack_number k (n % weight k),
        unpack_number-pack_number k (n % weight k) (mod-lt n (weight-pos k)),
      )
      (div-add-mod' n (weight k))

-- a number in its place above a smaller rest
div_place : (b r w : ℕ) → r < w → (b * w + r) / w ≡ b
div_place b r w h = omega (arith, mul-add-div_right {m = w} (omega arith) b r, div-eq_of_lt h)

mod_place : (b r w : ℕ) → r < w → (b * w + r) % w ≡ r
mod_place b r w h = mul-add-mod_self_right b w r ∙ mod-eq_of_lt h

pub unpack_number-lt : (bs : Bytes) → are_bytes bs ≡ true → unpack_number bs < weight (length bs)
unfolding unpack_number weight
unpack_number-lt [] h = omega arith
unpack_number-lt (b ∷ bs) h =
    let small : b < 256 = ground arith in
    let rest = unpack_number-lt bs (ground arith) in
    let w = weight (length bs) in
    omega (arith, rest, mul-le-mul_right w small, suc-mul b w, mul_comm 256 w)

pub pack_number-unpack_number :
    (k : ℕ) (bs : Bytes)
    → length bs ≡ k
    → are_bytes bs ≡ true
    → pack_number k (unpack_number bs) ≡ bs
unfolding pack_number unpack_number
pack_number-unpack_number zero [] h bytes = refl
pack_number-unpack_number zero (b ∷ bs) h bytes = absurd (omega arith)
pack_number-unpack_number (suc k) [] h bytes = absurd (omega arith)
pack_number-unpack_number (suc k) (b ∷ bs) h bytes =
    let size : length bs ≡ k = omega arith in
    let rest : are_bytes bs ≡ true = ground arith in
    let below : unpack_number bs < weight k =
      subst (λ n. unpack_number bs < weight n) size (unpack_number-lt bs rest) in
    rw
      (
        size,
        div_place b (unpack_number bs) (weight k) below,
        mod_place b (unpack_number bs) (weight k) below,
        pack_number-unpack_number k bs size rest,
      )
      refl

pub are_bytes-pack_number : (k n : ℕ) → n < weight k → are_bytes (pack_number k n) ≡ true
unfolding pack_number weight
are_bytes-pack_number zero n h = refl
are_bytes-pack_number (suc k) n h =
    let small : n / weight k < 256 =
      (div-lt_iff_lt-mul (weight-pos k)).1 (omega (arith, mul_comm (weight k) 256)) in
    ground (arith, small, are_bytes-pack_number k (n % weight k) (mod-lt n (weight-pos k)))

pub are_bytes-take : (n : ℕ) (bs : Bytes) → are_bytes bs ≡ true → are_bytes (take n bs) ≡ true
unfolding take
are_bytes-take zero bs h = refl
are_bytes-take (suc n) [] h = refl
are_bytes-take (suc n) (b ∷ bs) h = ground (arith, are_bytes-take n bs (ground arith))

pub are_bytes-drop : (n : ℕ) (bs : Bytes) → are_bytes bs ≡ true → are_bytes (drop n bs) ≡ true
unfolding drop
are_bytes-drop zero bs h = h
are_bytes-drop (suc n) [] h = refl
are_bytes-drop (suc n) (b ∷ bs) h = are_bytes-drop n bs (ground arith)
