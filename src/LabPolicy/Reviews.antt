-- ===== src/LabPolicy/Reviews.antt =====
-- The three reviews of lab_policy.py and the context that they bind, with their validators.
use strongwiz.Base.{
  ℕ, String, Bool, false, not, ◌&&◌, ◌||◌, Option, none, some, List, [], ◌∷◌, Eq, ◌==◌, has_text,
  is_nonempty, is_present, all, any, string_eq,
}
use strongwiz.Base.Result.{Result, ok, ◌>>◌, raise_if}

pub data ReviewStatus : Type 0 where
  supplied refused unresolved not_applicable : ReviewStatus

pub data CrossingStage : Type 0 where
  description recommendation permission authorization : CrossingStage

pub data ReleaseClaimStatus : Type 0 where
  observation measurement interpretation candidate : ReleaseClaimStatus
  bounded_recommendation verified_result blocked failure : ReleaseClaimStatus

unfoldable pub ReviewStatus-discrete : Discrete ReviewStatus
ReviewStatus-discrete = hlevel

unfoldable pub CrossingStage-discrete : Discrete CrossingStage
CrossingStage-discrete = hlevel

instance abbrev pub review_eq : Eq ReviewStatus
review_eq = record { dec_eq = ReviewStatus-discrete }

instance abbrev pub stage_eq : Eq CrossingStage
stage_eq = record { dec_eq = CrossingStage-discrete }

-- The messages of the validators' `ValueError`s.
pub data InvalidReview : Type 0 where
  unsupported_profile missing_reference executing_review skipped_stage : InvalidReview
  manufactured_authorization early_authorization empty_burden : InvalidReview

pub record PeaReview : Type 0 where
  pub schema_id : String
  pub source_version : String
  pub boundary_context_ref : String
  pub external_grant_ref : String
  pub consent : ReviewStatus
  pub standing : ReviewStatus
  pub privacy : ReviewStatus
  pub reversibility : ReviewStatus
  pub remedy : ReviewStatus
  pub contestability : ReviewStatus
  pub refusal : ReviewStatus
  pub human_responsibility_ref : String
  pub open_concerns : List String
  pub nonexecuting : Bool
  pub authority : String

unfoldable pub validate_review : PeaReview → Result InvalidReview PeaReview
validate_review r = do
  raise_if (not (r.source_version == "1.1.3")) unsupported_profile
  raise_if
      (not (
        all is_nonempty
          (r.boundary_context_ref ∷ r.external_grant_ref ∷ r.human_responsibility_ref ∷ [])))
      missing_reference
  raise_if (not r.nonexecuting || not (r.authority == "NONE")) executing_review
  ok r

-- the tuple of statuses that two functions read
unfoldable pub statuses_of : PeaReview → List ReviewStatus
statuses_of r =
    r.consent ∷ r.standing ∷ r.privacy ∷ r.reversibility ∷ r.remedy ∷ r.contestability ∷ r.refusal
    ∷ []

-- `status in {SUPPLIED, NOT_APPLICABLE}`
unfoldable pub is_settled : ReviewStatus → Bool
is_settled s = s == supplied || s == not_applicable

unfoldable pub protective_controls_satisfied : PeaReview → Bool
unfolding is_settled
protective_controls_satisfied r = not (is_present r.open_concerns) && all is_settled (statuses_of r)

pub record ConsequentialCrossing : Type 0 where
  pub schema_id : String
  pub source_version : String
  pub boundary_context_ref : String
  pub subject_ref : String
  pub description_ref : String
  pub recommendation_ref : Option String
  pub permission_ref : Option String
  pub authorization_ref : Option String
  pub current_stage : CrossingStage
  pub externally_supplied_authorization : Bool

-- `value is not None and value.strip()`
unfoldable pub is_supplied : Option String → Bool
is_supplied none = false
is_supplied (some s) = has_text s

-- the references that a stage requires
unfoldable pub required_refs : ConsequentialCrossing → CrossingStage → List (Option String)
required_refs c description = []
required_refs c recommendation = c.recommendation_ref ∷ []
required_refs c permission = c.recommendation_ref ∷ c.permission_ref ∷ []
required_refs c authorization = c.recommendation_ref ∷ c.permission_ref ∷ c.authorization_ref ∷ []

unfoldable pub validate_ladder : ConsequentialCrossing → Result InvalidReview ConsequentialCrossing
unfolding is_supplied required_refs
validate_ladder c = do
  raise_if (not (c.source_version == "1.0.4")) unsupported_profile
  raise_if (not (all is_nonempty (c.boundary_context_ref ∷ c.subject_ref ∷ c.description_ref ∷ [])))
      missing_reference
  raise_if (not (all is_supplied (required_refs c c.current_stage))) skipped_stage
  raise_if (c.current_stage == authorization && not c.externally_supplied_authorization)
      manufactured_authorization
  raise_if (not (c.current_stage == authorization) && c.externally_supplied_authorization)
      early_authorization
  ok c

unfoldable pub may_cross_external_boundary : ConsequentialCrossing → Bool
may_cross_external_boundary c =
    c.current_stage == authorization && c.externally_supplied_authorization

pub record SeedReleaseReview : Type 0 where
  pub schema_id : String
  pub source_version : String
  pub boundary_context_ref : String
  pub output_ref : String
  pub chosen_goal_id : String
  pub chosen_goal_ref : String
  pub claim_status : ReleaseClaimStatus
  pub claim_ceiling : String
  pub uncertainty_status : ReviewStatus
  pub uncertainty_notes : List String
  pub authority_status : ReviewStatus
  pub authority_limits : List String
  pub privacy_status : ReviewStatus
  pub privacy_notes : List String
  pub correction_path : String
  pub reopening_condition : String
  pub natural_stop : String
  pub attention_units_requested : ℕ
  pub preserves_user_agency : Bool
  pub manufactured_dependency_detected : Bool
  pub model_personhood_claim_detected : Bool

-- a burden that is marked supplied and has no content
abbrev is_empty_burden : ReviewStatus × List String → Bool
is_empty_burden (status, notes) = status == supplied && not (is_present notes)

unfoldable pub validate_release : SeedReleaseReview → Result InvalidReview SeedReleaseReview
validate_release r = do
  raise_if (not (r.source_version == "0.3")) unsupported_profile
  raise_if
      (not (
        all has_text (
          r.output_ref ∷ r.boundary_context_ref ∷ r.chosen_goal_id ∷ r.chosen_goal_ref
          ∷ r.claim_ceiling ∷ r.correction_path ∷ r.reopening_condition ∷ r.natural_stop ∷ [])))
      missing_reference
  raise_if
      (any is_empty_burden (
        (r.uncertainty_status, r.uncertainty_notes)
        ∷ (r.authority_status, r.authority_limits)
        ∷ (r.privacy_status, r.privacy_notes)
        ∷ []))
      empty_burden
  ok r

unfoldable pub releasable : SeedReleaseReview → Bool
unfolding is_settled
releasable r =
    r.preserves_user_agency
    && all is_settled (r.uncertainty_status ∷ r.authority_status ∷ r.privacy_status ∷ [])
    && not r.manufactured_dependency_detected
    && not r.model_personhood_claim_detected

pub record LabBoundaryContext : Type 0 where
  pub grant_ref : String
  pub task_id : String
  pub goal_id : String
  pub goal_ref : String
  pub scope_id : String
  pub observation_id : String
  pub observation_ref : String
  pub proposal_ref : String
  pub action_ref : String
  pub output_destination_ref : String
  pub attention_budget : ℕ
  pub release_output_ref : Option String

unfoldable pub validate_context : LabBoundaryContext → Result InvalidReview LabBoundaryContext
validate_context c = do
  raise_if
      (not (
        all has_text (
          c.grant_ref ∷ c.task_id ∷ c.goal_id ∷ c.goal_ref ∷ c.scope_id ∷ c.observation_id
          ∷ c.observation_ref ∷ c.proposal_ref ∷ c.action_ref ∷ c.output_destination_ref ∷ [])))
      missing_reference
  ok c
