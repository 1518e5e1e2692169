-- ===== src/Measurements/Order.antt =====
-- The order of quantities, by cross products of natural numbers, and the interval's test of it.
use strongwiz.Base.{
  ℕ, zero, suc, ◌+◌, ◌*◌, ◌≤◌, ◌<◌, Bool, true, false, not, ◌&&◌, ◌≡◌, ◌≢◌, ◌↔◌, ◌⊎◌, inl, inr,
  refl, arith, ltb, ◌==◌, string_eq, ◌∙◌, sym, Bool-cases,
}
use native.Mathlib.Nat.{mul-pos}
use strongwiz.Base.Result.{ok, err}
use strongwiz.Base.{ℤ, pos, negsuc}
use strongwiz.Measurements.Quantity.{
  ExactQuantity, IntervalQuantity, scale, neg_of, int_lt, compare, contains_quantity,
  validate_interval, foreign_unit,
}

-- an integer is the difference of these two parts
abbrev pub plus : ℤ → ℕ
plus (pos n) = n
plus (negsuc n) = 0

abbrev pub minus : ℤ → ℕ
minus (pos n) = 0
minus (negsuc n) = suc n

-- x / a ≤ y / b, with every negative part on the other side
abbrev pub IsRatioAtMost : ℤ → ℕ → ℤ → ℕ → Type 0
IsRatioAtMost x a y b = plus x * b + minus y * a ≤ plus y * a + minus x * b

-- the quantity `a` is at most the quantity `b`, both in one unit
abbrev pub IsAtMost : ExactQuantity → ExactQuantity → Type 0
IsAtMost a b = IsRatioAtMost a.numerator a.denominator b.numerator b.denominator

int_lt-neg_neg : (a b : ℕ) → int_lt (neg_of a) (neg_of b) ≡ ltb b a
unfolding int_lt neg_of
int_lt-neg_neg zero zero = refl
int_lt-neg_neg zero (suc b) = ground arith
int_lt-neg_neg (suc a) zero = ground arith
int_lt-neg_neg (suc a) (suc b) = ground arith

int_lt-neg_pos : (a b : ℕ) → 0 < a → int_lt (neg_of a) (pos b) ≡ true
unfolding int_lt neg_of
int_lt-neg_pos zero b h = absurd (omega arith)
int_lt-neg_pos (suc a) b h = refl

int_lt-pos_neg : (a b : ℕ) → int_lt (pos a) (neg_of b) ≡ false
unfolding int_lt neg_of
int_lt-pos_neg a zero = ground arith
int_lt-pos_neg a (suc b) = refl

-- the comparison of the signed cross products is that order
not_above_iff :
    (x y : ℤ) (a b : ℕ)
    → 0 < a
    → 0 < b
    → (int_lt (scale y a) (scale x b) ≡ false) ↔ IsRatioAtMost x a y b
unfolding scale int_lt
not_above_iff (pos x) (pos y) a b ha hb = (λ h. ground arith, λ h. ground arith)
not_above_iff (pos x) (negsuc y) a b ha hb =
    let below = int_lt-neg_pos (suc y * a) (x * b) (mul-pos (omega arith) ha) in
    let positive : 0 < suc y * a = mul-pos (omega arith) ha in
    (λ h. absurd (ground (arith, below)), λ h. absurd (omega arith))
not_above_iff (negsuc x) (pos y) a b ha hb =
    (λ h. omega arith, λ h. int_lt-pos_neg (y * a) (suc x * b))
not_above_iff (negsuc x) (negsuc y) a b ha hb =
    let flipped = int_lt-neg_neg (suc y * a) (suc x * b) in
    (λ h. ground (arith, flipped), λ h. ground (arith, flipped))

-- `compare` answers a unit of its own, and 1 exactly for a quantity that is not at most the other
not_greater_iff :
    (a b : ExactQuantity)
    → (int_lt (scale b.numerator a.denominator) (scale a.numerator b.denominator) ≡ false)
      ↔ IsAtMost a b
not_greater_iff a b =
    not_above_iff a.numerator b.numerator a.denominator b.denominator (ground (arith, a.positive))
      (ground (arith, b.positive))

-- the tests of `contains` as they stand, for one unit
contains_tests :
    (i : IntervalQuantity) (v : ExactQuantity)
    → i.lower.unit ≡ v.unit
    → i.upper.unit ≡ v.unit
    → (b : Bool) × (contains_quantity i v ≡ ok b)
      × ((b ≡ true) ↔ (
          (int_lt (scale v.numerator i.lower.denominator) (scale i.lower.numerator v.denominator)
            ≡ false)
          × (int_lt (scale i.upper.numerator v.denominator) (scale v.numerator i.upper.denominator)
              ≡ false)))
unfolding contains_quantity compare int_lt
contains_tests i v low high = (
  not (int_lt (scale v.numerator i.lower.denominator) (scale i.lower.numerator v.denominator))
      && not
          (int_lt (scale i.upper.numerator v.denominator) (scale v.numerator i.upper.denominator)),
  ground (arith, low, high),
  ((λ h. (ground arith, ground arith)), λ h. ground arith),
)

contains_iff :
    (i : IntervalQuantity) (v : ExactQuantity)
    → i.lower.unit ≡ v.unit
    → i.upper.unit ≡ v.unit
    → (b : Bool) × (contains_quantity i v ≡ ok b)
      × ((b ≡ true) ↔ (IsAtMost i.lower v × IsAtMost v i.upper))
contains_iff i v low high =
    let (b, answer, (tests, back)) = contains_tests i v low high in
    let (above, above_back) = not_greater_iff i.lower v in
    let (below, below_back) = not_greater_iff v i.upper in
    (
      b,
      answer,
      (
        (λ h. let (l, u) = tests h in (above l, below u)),
        λ (l, u). back (above_back l, below_back u),
      ),
    )

validate_interval_parts :
    (i : IntervalQuantity)
    → validate_interval i ≡ ok i
    → (i.lower.unit ≡ i.upper.unit)
      × (int_lt
            (scale i.upper.numerator i.lower.denominator)
            (scale i.lower.numerator i.upper.denominator)
          ≡ false)
unfolding validate_interval compare int_lt
validate_interval_parts i h = (ground arith, ground arith)

foreign_lem :
    (i : IntervalQuantity) (v : ExactQuantity)
    → (i.lower.unit == v.unit) ≡ false
    → contains_quantity i v ≡ err foreign_unit
unfolding contains_quantity compare
foreign_lem i v other = ground (arith, other)

end_lem :
    (i : IntervalQuantity) (v : ExactQuantity)
    → i.lower.unit ≡ v.unit
    → i.upper.unit ≡ v.unit
    → IsAtMost i.lower v
    → IsAtMost v i.upper
    → contains_quantity i v ≡ ok true
end_lem i v low high above below =
    let (b, answer, (_, back)) = contains_iff i v low high in ground (arith, back (above, below))

-- For an interval that its validator lets pass: a quantity of another unit makes `contains` raise
-- for the unit; and of a quantity of the interval's unit it answers whether that lies between the
-- ends, these included, as cross products of natural numbers order them. The ends are in that order,
-- and the interval contains both.
pub contains_quantity_iff :
    (i : IntervalQuantity) (v : ExactQuantity)
    → validate_interval i ≡ ok i
    → (((i.lower.unit ≢ v.unit) × (contains_quantity i v ≡ err foreign_unit))
        ⊎ ((i.lower.unit ≡ v.unit)
            × ((b : Bool) × (contains_quantity i v ≡ ok b)
                × ((b ≡ true) ↔ (IsAtMost i.lower v × IsAtMost v i.upper)))))
      × IsAtMost i.lower i.upper
      × (contains_quantity i i.lower ≡ ok true)
      × (contains_quantity i i.upper ≡ ok true)
contains_quantity_iff i v valid =
    let (units, upright) = validate_interval_parts i valid in
    let ends = (not_greater_iff i.lower i.upper).0 upright in
    (
      elim (Bool-cases (i.lower.unit == v.unit)) [
        | inl same ↦
            let unit : i.lower.unit ≡ v.unit = ground (arith, same) in
            inr (unit, contains_iff i v unit (sym units ∙ unit))
        | inr other ↦ inl ((λ e. ground (arith, other, e)), foreign_lem i v other)
      ],
      ends,
      end_lem i i.lower refl (sym units) (omega arith) ends,
      end_lem i i.upper units refl ends (omega arith),
    )
