-- ===== src/LabPolicy/Decision.antt =====
-- `LabPolicyDecision` of lab_policy.py.
use strongwiz.Base.{
  String, Bool, true, false, not, ◌||◌, Option, none, some, List, [], ◌∷◌, Eq, ◌==◌, all, string_eq,
  String_discrete, ℕ_discrete,
}
use strongwiz.Base.Result.{Result, ok, ◌>>◌, raise_if}
use strongwiz.Contracts.{BoundaryStatus, boundary_eq, LabBoundaryBinding, BoundaryStatus-discrete}
use strongwiz.LabPolicy.Reviews.{
  LabBoundaryContext, PeaReview, ConsequentialCrossing, SeedReleaseReview, InvalidReview,
  executing_review,
}

-- The content digests of the values that a decision binds.
pub record LabDigests : Type 0 where
  pub of_context : LabBoundaryContext → String
  pub of_review : PeaReview → String
  pub of_crossing : ConsequentialCrossing → String
  pub of_release : SeedReleaseReview → String

pub record LabPolicyDecision : Type 0 where
  pub schema_id : String
  pub context : LabBoundaryContext
  pub pea_review_ref : Option String
  pub pecan_crossing_ref : Option String
  pub seed_release_ref : Option String
  pub external_effect_status : BoundaryStatus
  pub release_status : BoundaryStatus
  pub blockers : List String
  pub limitations : List String
  pub nonexecuting : Bool
  pub authority : String
  pub effect : String

unfoldable pub validate_decision : LabPolicyDecision → Result InvalidReview LabPolicyDecision
validate_decision d = do
  raise_if (not d.nonexecuting || not (d.authority == "NONE") || not (d.effect == "NONE"))
      executing_review
  ok d

-- `status in {CLEAR, NOT_REQUESTED}`
unfoldable pub is_clear_or_idle : BoundaryStatus → Bool
is_clear_or_idle s = s == BoundaryStatus.clear || s == BoundaryStatus.not_requested

unfoldable pub clears_requested_boundaries : LabPolicyDecision → Bool
unfolding is_clear_or_idle
clears_requested_boundaries d =
    all is_clear_or_idle (d.external_effect_status ∷ d.release_status ∷ [])

-- `digest` is the content digest of decisions
unfoldable pub external_effect_binding :
    (LabPolicyDecision → String) → LabPolicyDecision → Option LabBoundaryBinding
external_effect_binding digest d = elim (d.external_effect_status == BoundaryStatus.not_requested) [
  | true ↦ none
  | false ↦ some (record {
    decision_ref = digest d;
    grant_ref = d.context.grant_ref;
    proposal_ref = d.context.proposal_ref;
    action_ref = d.context.action_ref;
    observation_id = d.context.observation_id;
    observation_ref = d.context.observation_ref;
    scope_id = d.context.scope_id;
    status = d.external_effect_status;
  })
]

unfoldable pub LabBoundaryContext-discrete : Discrete LabBoundaryContext
LabBoundaryContext-discrete = hlevel (String_discrete, ℕ_discrete)

unfoldable pub LabPolicyDecision-discrete : Discrete LabPolicyDecision
LabPolicyDecision-discrete =
    hlevel (String_discrete, LabBoundaryContext-discrete, BoundaryStatus-discrete)

instance abbrev pub lab_decision_eq : Eq LabPolicyDecision
lab_decision_eq = record { dec_eq = LabPolicyDecision-discrete }
