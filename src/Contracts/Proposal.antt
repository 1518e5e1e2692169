-- ===== src/Contracts/Proposal.antt =====
-- `ActionSpec` and `CandidateProposal`, what a model may propose.
use strongwiz.Base.{
  ℕ, String, Bool, not, ◌&&◌, ◌||◌, is_present, Option, List, [], ◌∷◌, ◌==◌, is_nonempty, has_text,
  all, contains, is_unique, string_eq,
}
use strongwiz.Base.Result.{Result, ok, ◌>>◌, raise_if}
use strongwiz.Canonical.Json.{Json}
use strongwiz.Contracts.Enums.{
  DecisionEffect, effect_eq, Invalid, unsupported_schema, missing_identity,
  wrong_distinction_parent, effects_disagree, duplicate_references,
}
use strongwiz.Contracts.Costs.{CostVector}
use strongwiz.Contracts.Goals.{Distinction}

-- `parameters` is a JSON object
pub record ActionSpec : Type 0 where
  pub name : String
  pub parameters : Json

-- the validator of the field `name`
unfoldable pub validate_name : ActionSpec → Result Invalid ActionSpec
validate_name a = do raise_if (not (has_text a.name)) missing_identity; ok a

pub record Prediction : Type 0 where
  pub prediction_id : String
  pub hypothesis_refs : List String
  pub expected_consequences : List String
  pub falsified_by : List String
  pub alternatives : List String

unfoldable pub validate_prediction : Prediction → Result Invalid Prediction
validate_prediction p = do
  raise_if
      (not (is_nonempty p.prediction_id)
        || not (is_present p.expected_consequences)
        || not (is_present p.falsified_by))
      missing_identity
  ok p

pub record CandidateProposal : Type 0 where
  pub schema_id : String
  pub proposal_id : String
  pub model_driver_id : String
  pub observation_id : String
  pub observation_ref : String
  pub scope_id : String
  pub goal_id : String
  pub goal_ref : String
  pub action : ActionSpec
  pub meaningful_distinction : Distinction
  pub prediction : Prediction
  pub decision_effects : List DecisionEffect
  pub evidence_refs : List String
  pub trace_refs : List String
  pub residual_refs : List String
  pub material_delta_refs : List String
  pub prior_account_ref : Option String
  pub concise_rationale : String
  pub reversible : Bool
  pub expected_progress_rank : ℕ
  pub information_gain_rank : ℕ
  pub risk_rank : ℕ
  pub costs : CostVector

-- `set(xs) == set(ys)`
same_members : List DecisionEffect → List DecisionEffect → Bool
same_members xs ys = all (contains ys) xs && all (contains xs) ys

unfoldable pub validate_proposal : CandidateProposal → Result Invalid CandidateProposal
unfolding same_members
validate_proposal p = do
  raise_if (not (p.schema_id == "strongwiz.contract.v1")) unsupported_schema
  raise_if
      (not (
        all is_nonempty (
          p.proposal_id ∷ p.model_driver_id ∷ p.observation_id ∷ p.observation_ref ∷ p.scope_id
          ∷ p.goal_id ∷ p.goal_ref ∷ p.concise_rationale ∷ [])))
      missing_identity
  raise_if (not (p.meaningful_distinction.parent_goal_id == p.goal_id)) wrong_distinction_parent
  raise_if (not (same_members p.decision_effects p.meaningful_distinction.decision_effects))
      effects_disagree
  raise_if (not (is_unique p.evidence_refs)) duplicate_references
  ok p
