-- ===== src/Tests/PolicyTests.antt =====
-- Cadence and costs on small inputs.
use strongwiz.Base.{◌+◌, ◌≤◌, true, false, [], ◌∷◌, ◌≡◌, refl, arith, length}
use strongwiz.Contracts.{CostVector, no_costs, fits_within, add_costs, subtract_floor_zero}
use strongwiz.Contracts.CostLaws.{subtract_add}
use strongwiz.Policy.{CadenceSignals, CadencePolicy, select}
use strongwiz.Policy.Cadence.{all_fast, all_fast-le}

abbrev quiet : CadenceSignals
quiet = record {
  startup_uncertainty = false;
  structural_novelty = false;
  meaningful_contradiction = false;
  reopening = false;
  invalid_plan = false;
  high_goal_uncertainty = false;
  repeated_no_progress = false;
  fast_streak = 0;
}

abbrev policy : CadencePolicy
policy = record { max_fast_streak = 3 }

two_are_fast : all_fast policy 0 (quiet ∷ quiet ∷ []) ≡ true
unfolding all_fast select
two_are_fast = refl

all_fast-le_example : 0 + length (quiet ∷ quiet ∷ []) ≤ 3
all_fast-le_example = all_fast-le policy 0 (quiet ∷ quiet ∷ []) (ground arith) two_are_fast

abbrev step_costs : CostVector
step_costs = record no_costs { environment_actions = 1; compute_units = 2 }

abbrev budget : CostVector
budget = record no_costs { environment_actions = 2; compute_units = 2 }

subtract_add_example : add_costs (subtract_floor_zero budget step_costs) step_costs ≡ budget
unfolding fits_within
subtract_add_example = subtract_add step_costs budget refl
