-- ===== src/Contracts/Evidence.antt =====
-- The evidence, observation, hypothesis, request and outcome records of contracts.py.
use strongwiz.Base.{
  ℕ, String, Bool, true, not, ◌&&◌, ◌||◌, Option, none, some, List, [], ◌∷◌, ◌==◌, has_text,
  is_nonempty, is_present, is_unique, is_digest, all, string_eq, option_eq,
}
use strongwiz.Base.Result.{Result, ok, ◌>>◌, raise_if}
use strongwiz.Contracts.Enums.{
  Invalid, unsupported_schema, missing_identity, duplicate_references, not_a_digest, missing_reason,
  foreign_scope, unlinked_goal,
}
use strongwiz.Contracts.Goals.{Goal, Distinction}
use strongwiz.Contracts.Proposal.{ActionSpec}

pub data HypothesisStatus : Type 0 where
  candidate supported narrowed contradicted parked superseded : HypothesisStatus

pub record EvidenceRef : Type 0 where
  pub kind : String
  pub sha256 : String
  pub locator : Option String

-- the two field validators
unfoldable pub validate_evidence : EvidenceRef → Result Invalid EvidenceRef
validate_evidence e = do
  raise_if (not (has_text e.kind)) missing_identity
  raise_if (not (is_digest e.sha256)) not_a_digest
  ok e

pub record Observation : Type 0 where
  pub schema_id : String
  pub observation_id : String
  pub domain : String
  pub scope_id : String
  pub epoch : ℕ
  pub payload_ref : EvidenceRef
  pub summary : String
  pub available_action_names : List String

unfoldable pub validate_identity : Observation → Result Invalid Observation
validate_identity o = do
  raise_if (not (o.schema_id == "strongwiz.contract.v1")) unsupported_schema
  raise_if (not (all is_nonempty (o.observation_id ∷ o.domain ∷ o.scope_id ∷ o.summary ∷ [])))
      missing_identity
  raise_if (not (is_unique o.available_action_names)) duplicate_references
  ok o

pub record Hypothesis : Type 0 where
  pub hypothesis_id : String
  pub claim : String
  pub scope_id : String
  pub components : List String
  pub status : HypothesisStatus
  pub evidence_refs : List String
  pub conflicting_refs : List String
  pub parent_hypothesis_id : Option String
  pub revision_reason : Option String

-- `not value` of an optional text
abbrev pub is_blank : Option String → Bool
is_blank none = true
is_blank (some s) = not (is_nonempty s)

unfoldable pub validate_hypothesis : Hypothesis → Result Invalid Hypothesis
validate_hypothesis h = do
  raise_if
      (not (all is_nonempty (h.hypothesis_id ∷ h.claim ∷ h.scope_id ∷ []))
        || not (is_present h.components))
      missing_identity
  raise_if (not (h.parent_hypothesis_id == none) && is_blank h.revision_reason) missing_reason
  ok h

pub record ReasoningRequest : Type 0 where
  pub schema_id : String
  pub observation : Observation
  pub governing_goal : Goal
  pub scoped_goal : Goal
  pub active_distinctions : List Distinction
  pub retained_fact_refs : List String
  pub feedback_trace_ref : Option String

unfoldable pub validate_request : ReasoningRequest → Result Invalid ReasoningRequest
validate_request r = do
  raise_if (not (r.schema_id == "strongwiz.contract.v1")) unsupported_schema
  raise_if (not (r.scoped_goal.scope_id == r.observation.scope_id)) foreign_scope
  raise_if
      (not (r.scoped_goal.goal_id == r.governing_goal.goal_id)
        && not (r.scoped_goal.governing_goal_id == some r.governing_goal.goal_id))
      unlinked_goal
  ok r

pub record Outcome : Type 0 where
  pub outcome_id : String
  pub observation_before_id : String
  pub observation_before_ref : String
  pub observation_after_id : String
  pub observation_after_ref : String
  pub action : ActionSpec
  pub observed_consequences : List String
  pub state_label : String
  pub evidence_refs : List String
  pub terminal : Bool

unfoldable pub validate_outcome : Outcome → Result Invalid Outcome
validate_outcome o = do
  raise_if
      (not (
        all has_text (
          o.outcome_id ∷ o.observation_before_id ∷ o.observation_before_ref ∷ o.observation_after_id
          ∷ o.observation_after_ref ∷ o.state_label ∷ [])))
      missing_identity
  ok o
