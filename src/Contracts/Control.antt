-- ===== src/Contracts/Control.antt =====
-- `LabBoundaryBinding` and `ControlSnapshot`, the control state of one decision.
use strongwiz.Base.{
  ℕ, String, Bool, true, false, not, ◌&&◌, Option, none, some, List, [], ◌∷◌, Eq, ◌==◌, has_text,
  is_nonempty, all, contains, is_unique, length, string_eq, nat_eq, pair_eq, String_discrete,
}
use strongwiz.Base.Result.{Result, ok, ◌>>◌, raise_if}
use strongwiz.Contracts.Enums.{
  BoundaryStatus, BoundaryStatus-discrete, boundary_eq, Invalid, unsupported_schema,
  missing_identity, unbound_effect, unpaired_goals, duplicate_references, shadow_clearance,
}
use strongwiz.Contracts.Costs.{CostVector}

pub record LabBoundaryBinding : Type 0 where
  pub decision_ref : String
  pub grant_ref : String
  pub proposal_ref : String
  pub action_ref : String
  pub observation_id : String
  pub observation_ref : String
  pub scope_id : String
  pub status : BoundaryStatus

unfoldable pub binding_discrete : Discrete LabBoundaryBinding
binding_discrete = hlevel (String_discrete, BoundaryStatus-discrete)

instance abbrev pub binding_eq : Eq LabBoundaryBinding
binding_eq = record { dec_eq = binding_discrete }

unfoldable pub validate_binding : LabBoundaryBinding → Result Invalid LabBoundaryBinding
validate_binding b = do
  raise_if
      (not (
        all has_text (
          b.decision_ref ∷ b.grant_ref ∷ b.proposal_ref ∷ b.action_ref ∷ b.observation_id
          ∷ b.observation_ref ∷ b.scope_id ∷ [])))
      missing_identity
  raise_if (b.status == BoundaryStatus.not_requested) unbound_effect
  ok b

pub record ControlSnapshot : Type 0 where
  pub schema_id : String
  pub account_id : String
  pub account_version : ℕ
  pub observation_id : String
  pub observation_ref : String
  pub scope_id : String
  pub active_goal_ids : List String
  pub active_goal_refs : List String
  pub available_evidence_refs : List String
  pub available_trace_refs : List String
  pub available_residual_refs : List String
  pub available_account_refs : List String
  pub accepted_material_delta_refs : List String
  pub allowed_action_names : List String
  pub allowed_action_refs : List String
  pub remaining_budget : CostVector
  pub lab_boundary : Option LabBoundaryBinding
  pub execution_grant_ref : Option String
  pub serial_token : String
  pub shadow_only : Bool

is_some {ℓ} : {A : Type ℓ} → Option A → Bool
is_some none = false
is_some (some _) = true

unfoldable pub validate_control : ControlSnapshot → Result Invalid ControlSnapshot
unfolding is_some
validate_control c = do
  raise_if (not (c.schema_id == "strongwiz.contract.v1")) unsupported_schema
  raise_if
      (not (
        all is_nonempty
          (c.account_id ∷ c.observation_id ∷ c.observation_ref ∷ c.scope_id ∷ c.serial_token ∷ [])))
      missing_identity
  raise_if (not (length c.active_goal_ids == length c.active_goal_refs)) unpaired_goals
  raise_if
      (not (
        all is_unique (
          c.active_goal_ids ∷ c.active_goal_refs ∷ c.available_evidence_refs
          ∷ c.available_trace_refs ∷ c.available_residual_refs ∷ c.available_account_refs
          ∷ c.accepted_material_delta_refs ∷ c.allowed_action_names ∷ c.allowed_action_refs ∷ [])))
      duplicate_references
  raise_if (c.shadow_only && is_some c.lab_boundary) shadow_clearance
  ok c

-- `zip` of two lists of one length, which the validator has checked
unfoldable pub pairs : List String → List String → List (String × String)
pairs (x ∷ xs) (y ∷ ys) = (x, y) ∷ pairs xs ys
pairs _ _ = []

unfoldable pub contains_goal : ControlSnapshot → String → String → Bool
unfolding pairs
contains_goal c goal_id goal_ref =
    contains (pairs c.active_goal_ids c.active_goal_refs) (goal_id, goal_ref)
