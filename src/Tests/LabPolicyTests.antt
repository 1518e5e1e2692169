-- ===== src/Tests/LabPolicyTests.antt =====
-- The rules of the lab on small examples: a satisfied review with an authorized crossing.
use strongwiz.Base.{true, false, none, some, [], ◌≡◌, ◌↔◌, is_present}
use strongwiz.Base.Result.{ok}
use strongwiz.Contracts.{BoundaryStatus}
use strongwiz.LabPolicy.Reviews.{
  PeaReview, ConsequentialCrossing, LabBoundaryContext, supplied, not_applicable, authorization,
}
use strongwiz.LabPolicy.Decision.{LabDigests, LabPolicyDecision, clears_requested_boundaries}
use strongwiz.LabPolicy.Rules.{decide, evaluate_lab_rules}
use strongwiz.LabPolicy.Clearance.{
  MayCross, MayRelease, evaluate_lab_rules_iff, blockers_iff, IsSupplied,
}

abbrev pub context : LabBoundaryContext
context = record {
  grant_ref = "task";
  task_id = "task";
  goal_id = "goal";
  goal_ref = "goal-ref";
  scope_id = "scope";
  observation_id = "obs";
  observation_ref = "obs-ref";
  proposal_ref = "p1";
  action_ref = "move";
  output_destination_ref = "out";
  attention_budget = 0;
  release_output_ref = none;
}

abbrev pub review : PeaReview
review = record {
  schema_id = "strongwiz.pea-review.v1";
  source_version = "1.1.3";
  boundary_context_ref = "context";
  external_grant_ref = "task";
  consent = supplied;
  standing = supplied;
  privacy = supplied;
  reversibility = not_applicable;
  remedy = supplied;
  contestability = supplied;
  refusal = supplied;
  human_responsibility_ref = "person";
  open_concerns = [];
  nonexecuting = true;
  authority = "NONE";
}

abbrev pub crossing : ConsequentialCrossing
crossing = record {
  schema_id = "strongwiz.pecan-crossing.v1";
  source_version = "1.0.4";
  boundary_context_ref = "context";
  subject_ref = "move";
  description_ref = "d";
  recommendation_ref = some "r";
  permission_ref = some "p";
  authorization_ref = some "a";
  current_stage = authorization;
  externally_supplied_authorization = true;
}

abbrev pub lab_digests : LabDigests
lab_digests = record {
  of_context = λ _. "context";
  of_review = λ _. "review";
  of_crossing = λ _. "crossing";
  of_release = λ r. r.output_ref;
}

evaluate_lab_rules_iff_example :
    (r : LabPolicyDecision) × (evaluate_lab_rules lab_digests context
        (some review)
        (some crossing)
        none
        true
        false
      ≡ ok r)
    × ((r.external_effect_status ≡ BoundaryStatus.clear)
        ↔ ((true ≡ true) × MayCross lab_digests context (some review) (some crossing)))
    × ((r.release_status ≡ BoundaryStatus.clear)
        ↔ ((false ≡ true) × MayRelease lab_digests context (some review) none))
evaluate_lab_rules_iff_example =
    evaluate_lab_rules_iff lab_digests context (some review) (some crossing) none true false

blockers_iff_example :
    let r = decide lab_digests context (some review) none none true true in
    ((is_present r.blockers ≡ false)
      ↔ IsSupplied lab_digests context (some review) none none true true)
    × ((clears_requested_boundaries r ≡ true)
        ↔ IsSupplied lab_digests context (some review) none none true true)
blockers_iff_example = blockers_iff lab_digests context (some review) none none true true
