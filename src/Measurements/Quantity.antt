-- ===== src/Measurements/Quantity.antt =====
-- `ExactQuantity` and `IntervalQuantity` of measurements.py.
use strongwiz.Base.{
  ℕ, zero, suc, ◌*◌, String, Bool, true, false, not, ◌&&◌, ◌||◌, Option, none, some, List, ◌==◌,
  ltb, has_text, is_nonempty, is_present, string_eq, nat_eq, option_eq, if◌then◌else◌, ◌≡◌,
}
use Prim.Native.Nat.{◌%◌}
use strongwiz.Base.Result.{Result, ok, err, ◌>>=◌, ◌>>◌, raise_if}
use strongwiz.Base.{ℤ, pos, negsuc}

pub data MeasurementError : Type 0 where
  missing_unit noncanonical_zero not_lowest_terms foreign_unit : MeasurementError
  incomplete_interval disagreeing_units inverted_interval bad_resolution : MeasurementError

-- -n
unfoldable pub neg_of : ℕ → ℤ
neg_of zero = pos 0
neg_of (suc n) = negsuc n

-- z * m
unfoldable pub scale : ℤ → ℕ → ℤ
scale (pos n) m = pos (n * m)
scale (negsuc n) m = neg_of (suc n * m)

-- z < w
unfoldable pub int_lt : ℤ → ℤ → Bool
int_lt (pos n) (pos m) = ltb n m
int_lt (pos n) (negsuc m) = false
int_lt (negsuc n) (pos m) = true
int_lt (negsuc n) (negsuc m) = ltb m n

-- abs(z)
unfoldable pub magnitude : ℤ → ℕ
magnitude (pos n) = n
magnitude (negsuc n) = suc n

-- `math.gcd`; the second argument falls in every call
unfoldable pub gcd : ℕ → ℕ → ℕ → ℕ
gcd zero a b = a
gcd (suc fuel) a b = let rest = gcd fuel b (a % b) in if b == 0 then a else rest

-- `PositiveInt` lets no denominator through that is not positive
pub record ExactQuantity : Type 0 where
  pub schema_id : String
  pub numerator : ℤ
  pub denominator : ℕ
  pub positive : ltb 0 denominator ≡ true
  pub unit : String

unfoldable pub validate_quantity : ExactQuantity → Result MeasurementError ExactQuantity
unfolding magnitude gcd
validate_quantity q = do
  raise_if (not (has_text q.unit)) missing_unit
  raise_if (magnitude q.numerator == 0 && not (q.denominator == 1)) noncanonical_zero
  raise_if (not (gcd (suc q.denominator) (magnitude q.numerator) q.denominator == 1))
      not_lowest_terms
  ok q

-- -1, 0 or 1
unfoldable pub compare : ExactQuantity → ExactQuantity → Result MeasurementError ℤ
compare a b =
    if not (a.unit == b.unit)
    then err foreign_unit
    else let left = scale a.numerator b.denominator in
      let right = scale b.numerator a.denominator in
      ok (if int_lt right left then pos 1 else if int_lt left right then negsuc 0 else pos 0)

pub record IntervalQuantity : Type 0 where
  pub schema_id : String
  pub lower : ExactQuantity
  pub upper : ExactQuantity
  pub resolution : Option ExactQuantity
  pub method_ref : String
  pub evidence_refs : List String
  pub scope_id : String
  pub subject_version : ℕ
  pub limitations : List String

-- the test of a resolution against the interval's unit
abbrev pub is_bad_resolution : String → Option ExactQuantity → Bool
is_bad_resolution unit none = false
is_bad_resolution unit (some r) = not (r.unit == unit) || not (int_lt (pos 0) r.numerator)

unfoldable pub validate_interval : IntervalQuantity → Result MeasurementError IntervalQuantity
validate_interval i = do
  raise_if
      (not (is_nonempty i.method_ref)
        || not (is_nonempty i.scope_id)
        || not (is_present i.evidence_refs))
      incomplete_interval
  raise_if (not (i.lower.unit == i.upper.unit)) disagreeing_units
  order ← compare i.lower i.upper
  raise_if (int_lt (pos 0) order) inverted_interval
  raise_if (is_bad_resolution i.lower.unit i.resolution) bad_resolution
  ok i

unfoldable pub contains_quantity : IntervalQuantity → ExactQuantity → Result MeasurementError Bool
contains_quantity i value = compare i.lower value >>= λ low.
    if int_lt (pos 0) low
    then ok false
    else (compare i.upper value >>= λ high. ok (not (int_lt high (pos 0))))
