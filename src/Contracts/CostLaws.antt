-- ===== src/Contracts/CostLaws.antt =====
-- How budgets behave under the operations of `CostVector`.
use strongwiz.Base.{◌≡◌, true, arith}
use strongwiz.Contracts.Costs.{CostVector, fits_within, add_costs, subtract_floor_zero}

-- Costs that fit can be taken out of the budget and put back, with nothing lost to the floor.
pub subtract_add :
    (c budget : CostVector)
    → fits_within c budget ≡ true
    → add_costs (subtract_floor_zero budget c) c ≡ budget
unfolding fits_within add_costs subtract_floor_zero
subtract_add c budget h = ground arith
