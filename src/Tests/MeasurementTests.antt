-- ===== src/Tests/MeasurementTests.antt =====
-- Lengths between -1/2 and 3/2, and between 0 and 1.
use strongwiz.Base.{true, none, [], ◌∷◌, ◌≡◌, refl, String_discrete, ◌≢◌, false, ◌⊎◌, Bool, ◌↔◌}
use strongwiz.Base.Result.{ok, err}
use strongwiz.Base.{pos, negsuc}
use strongwiz.Measurements.Quantity.{
  ExactQuantity, IntervalQuantity, contains_quantity, compare, scale, neg_of, int_lt,
  validate_interval, foreign_unit,
}
use strongwiz.Measurements.Order.{contains_quantity_iff, IsAtMost}

abbrev half : ExactQuantity
half = record {
  schema_id = "strongwiz.exact-quantity.v1";
  numerator = pos 1;
  denominator = 2;
  positive = refl;
  unit = "m";
}

abbrev inner : IntervalQuantity
inner = record {
  schema_id = "strongwiz.interval-quantity.v1";
  lower = record half { numerator = pos 0; denominator = 1; positive = refl };
  upper = record half { numerator = pos 1; denominator = 1; positive = refl };
  resolution = none;
  method_ref = "ruler";
  evidence_refs = "e" ∷ [];
  scope_id = "scope";
  subject_version = 0;
  limitations = [];
}

inner_valid : validate_interval inner ≡ ok inner
unfolding validate_interval compare scale neg_of int_lt String_discrete strongwiz.Base.is_nonempty
inner_valid = refl

contains_quantity_iff_example :
    (((inner.lower.unit ≢ half.unit) × (contains_quantity inner half ≡ err foreign_unit))
      ⊎ ((inner.lower.unit ≡ half.unit)
          × ((b : Bool) × (contains_quantity inner half ≡ ok b)
              × ((b ≡ true) ↔ (IsAtMost inner.lower half × IsAtMost half inner.upper)))))
    × IsAtMost inner.lower inner.upper
    × (contains_quantity inner inner.lower ≡ ok true)
    × (contains_quantity inner inner.upper ≡ ok true)
contains_quantity_iff_example = contains_quantity_iff inner half inner_valid

-- between -1/2 and 3/2, signs included
abbrev outer : IntervalQuantity
outer = record inner {
  lower = record half { numerator = negsuc 0 };
  upper = record half { numerator = pos 3 };
}

low_in : contains_quantity outer outer.lower ≡ ok true
unfolding contains_quantity compare scale neg_of int_lt String_discrete
low_in = refl

below_out : contains_quantity outer (record half { numerator = negsuc 2 }) ≡ ok false
unfolding contains_quantity compare scale neg_of int_lt String_discrete
below_out = refl
