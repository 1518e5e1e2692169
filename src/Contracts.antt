-- ===== src/Contracts.antt =====
-- contracts.py: the typed values that cross the boundaries, each with its model validator.
mod Enums
mod Costs
mod Goals
mod Proposal
mod Control
mod Route
pub mod Evidence
pub mod CostLaws
pub use Enums.*
unfoldable pub use Enums.{
  DecisionEffect-discrete, RouteDisposition-discrete, GuardStatus-discrete, BoundaryStatus-discrete,
  GoalStatus-discrete,
}
pub use Costs.{CostVector, no_costs}
unfoldable pub use Costs.{fits_within, add_costs, subtract_floor_zero}
pub use Goals.{Goal, Distinction, goal_eq}
unfoldable pub use Goals.{validate_goal, validate_relevance_chain, Goal-discrete}
pub use Proposal.{ActionSpec, Prediction, CandidateProposal}
unfoldable pub use Proposal.{validate_name, validate_prediction, validate_proposal}
pub use Control.{LabBoundaryBinding, ControlSnapshot, binding_eq}
unfoldable pub use Control.{
  binding_discrete, validate_binding, validate_control, contains_goal, pairs,
}
pub use Route.{GuardResult, RouteDecision, route_eq}
unfoldable pub use Route.{
  GuardResult-discrete, RouteDecision-discrete, validate_nonexecution, nonselecting,
}
