-- ===== src/Contracts/Enums.antt =====
-- The enumerations of contracts.py, and what a validator may raise.
use strongwiz.Base.{Eq}

pub data DecisionEffect : Type 0 where
  plan risk candidate_choice experiment_choice resource access hazard movement progress output :
      DecisionEffect

pub data GoalStatus : Type 0 where
  active parked satisfied abandoned reopened : GoalStatus

pub data RouteDisposition : Type 0 where
  admit hold request_witness reject reopen : RouteDisposition

pub data GuardStatus : Type 0 where
  pass fail unresolved not_applicable : GuardStatus

pub data BoundaryStatus : Type 0 where
  clear hold refuse not_requested : BoundaryStatus

pub data DeliberationMode : Type 0 where
  execute investigate : DeliberationMode

-- The messages of the validators' `ValueError`s.
pub data Invalid : Type 0 where
  unsupported_schema missing_identity incomplete_subgoal incomplete_relevance_chain : Invalid
  too_few_alternatives missing_decision_effect wrong_distinction_parent : Invalid
  effects_disagree duplicate_references unbound_effect unpaired_goals shadow_clearance : Invalid
  not_a_digest missing_reason foreign_scope unlinked_goal : Invalid
  duplicate_proposals unbound_route executing_route unselected_admission selecting_hold : Invalid

unfoldable pub DecisionEffect-discrete : Discrete DecisionEffect
DecisionEffect-discrete = hlevel

unfoldable pub GoalStatus-discrete : Discrete GoalStatus
GoalStatus-discrete = hlevel

unfoldable pub RouteDisposition-discrete : Discrete RouteDisposition
RouteDisposition-discrete = hlevel

unfoldable pub GuardStatus-discrete : Discrete GuardStatus
GuardStatus-discrete = hlevel

unfoldable pub BoundaryStatus-discrete : Discrete BoundaryStatus
BoundaryStatus-discrete = hlevel

instance abbrev pub effect_eq : Eq DecisionEffect
effect_eq = record { dec_eq = DecisionEffect-discrete }

instance abbrev pub goal_status_eq : Eq GoalStatus
goal_status_eq = record { dec_eq = GoalStatus-discrete }

instance abbrev pub disposition_eq : Eq RouteDisposition
disposition_eq = record { dec_eq = RouteDisposition-discrete }

instance abbrev pub guard_status_eq : Eq GuardStatus
guard_status_eq = record { dec_eq = GuardStatus-discrete }

instance abbrev pub boundary_eq : Eq BoundaryStatus
boundary_eq = record { dec_eq = BoundaryStatus-discrete }
