-- ===== src/Contracts/Costs.antt =====
-- `CostVector`: heterogeneous costs, compared and combined dimension by dimension.
use strongwiz.Base.{ℕ, ◌+◌, ◌-◌, Bool, ◌&&◌, leb}

pub record CostVector : Type 0 where
  pub environment_actions : ℕ
  pub irreversible_actions : ℕ
  pub life_risk_units : ℕ
  pub wall_clock_ms : ℕ
  pub compute_units : ℕ
  pub memory_bytes : ℕ
  pub context_tokens : ℕ
  pub acquisition_units : ℕ
  pub validation_units : ℕ
  pub transport_units : ℕ
  pub invalidation_units : ℕ
  pub output_units : ℕ

-- `CostVector()`: every field has the default 0
abbrev pub no_costs : CostVector
no_costs = record {
  environment_actions = 0;
  irreversible_actions = 0;
  life_risk_units = 0;
  wall_clock_ms = 0;
  compute_units = 0;
  memory_bytes = 0;
  context_tokens = 0;
  acquisition_units = 0;
  validation_units = 0;
  transport_units = 0;
  invalidation_units = 0;
  output_units = 0;
}

unfoldable pub fits_within : CostVector → CostVector → Bool
fits_within c budget =
    leb c.environment_actions budget.environment_actions
    && leb c.irreversible_actions budget.irreversible_actions
    && leb c.life_risk_units budget.life_risk_units
    && leb c.wall_clock_ms budget.wall_clock_ms
    && leb c.compute_units budget.compute_units
    && leb c.memory_bytes budget.memory_bytes
    && leb c.context_tokens budget.context_tokens
    && leb c.acquisition_units budget.acquisition_units
    && leb c.validation_units budget.validation_units
    && leb c.transport_units budget.transport_units
    && leb c.invalidation_units budget.invalidation_units
    && leb c.output_units budget.output_units

-- the loops over `model_fields`, with the operation on one dimension as an argument
abbrev pub map_costs : (ℕ → ℕ → ℕ) → CostVector → CostVector → CostVector
map_costs f c d = record {
  environment_actions = f c.environment_actions d.environment_actions;
  irreversible_actions = f c.irreversible_actions d.irreversible_actions;
  life_risk_units = f c.life_risk_units d.life_risk_units;
  wall_clock_ms = f c.wall_clock_ms d.wall_clock_ms;
  compute_units = f c.compute_units d.compute_units;
  memory_bytes = f c.memory_bytes d.memory_bytes;
  context_tokens = f c.context_tokens d.context_tokens;
  acquisition_units = f c.acquisition_units d.acquisition_units;
  validation_units = f c.validation_units d.validation_units;
  transport_units = f c.transport_units d.transport_units;
  invalidation_units = f c.invalidation_units d.invalidation_units;
  output_units = f c.output_units d.output_units;
}

-- `__add__`
unfoldable pub add_costs : CostVector → CostVector → CostVector
add_costs = map_costs (λ a b. a + b)

-- `max(0, a - b)`: subtraction on ℕ stops at 0
unfoldable pub subtract_floor_zero : CostVector → CostVector → CostVector
subtract_floor_zero = map_costs (λ a b. a - b)
