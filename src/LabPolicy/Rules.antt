-- ===== src/LabPolicy/Rules.antt =====
-- `evaluate_lab_rules` of lab_policy.py.

use strongwiz.Base.{
  String, Bool, true, not, ◌||◌, Option, none, some, List, [], ◌∷◌, ◌++◌, ◌==◌, any, join,
  is_present, ltb, string_eq, option_eq, if◌then◌else◌,
}
use mathlib.Core.Option
use strongwiz.Base.Result.{Result}
use strongwiz.Contracts.{BoundaryStatus, boundary_eq}
use strongwiz.LabPolicy.Reviews.{
  LabBoundaryContext, PeaReview, ConsequentialCrossing, SeedReleaseReview, InvalidReview, review_eq,
  refused, unresolved, statuses_of, may_cross_external_boundary, releasable,
}
use strongwiz.LabPolicy.Decision.{LabDigests, LabPolicyDecision, validate_decision}

-- The status of a boundary, with the blockers that were appended on the way.
abbrev pub Gate : Type 0
Gate = BoundaryStatus × List String

abbrev pub blocked_by : BoundaryStatus → String → Gate
blocked_by status blocker = (status, blocker ∷ [])

-- a boundary that is requested passes the gate first, and the second test where that is clear
unfoldable pub gate : Bool → Gate → Gate → Gate
gate requested (status, blockers) second =
    if not requested
    then (BoundaryStatus.not_requested, [])
    else if status == BoundaryStatus.clear
    then second
    else (status, blockers)

module _ (d : LabDigests) (c : LabBoundaryContext) where
  -- `pea_gate`, with the four facts about the review that it closes over
  unfoldable pub pea_gate : Option PeaReview → String → Gate
  pea_gate none boundary = blocked_by BoundaryStatus.hold (join "PEA_UNRESOLVED:" boundary)
  pea_gate (some r) boundary =
      if not (r.external_grant_ref == c.grant_ref)
      then blocked_by BoundaryStatus.refuse (join "PEA_GRANT_BINDING_MISMATCH:" boundary)
      else if not (r.boundary_context_ref == d.of_context c)
      then blocked_by BoundaryStatus.refuse (join "PEA_CONTEXT_BINDING_MISMATCH:" boundary)
      else if any (λ s. s == refused) (statuses_of r)
      then blocked_by BoundaryStatus.refuse (join "PEA_REFUSED:" boundary)
      else if is_present r.open_concerns || any (λ s. s == unresolved) (statuses_of r)
      then blocked_by BoundaryStatus.hold (join "PEA_UNRESOLVED:" boundary)
      else (BoundaryStatus.clear, [])

  -- the tests of the crossing after a clear gate
  unfoldable pub crossing_gate : Option ConsequentialCrossing → Gate
  crossing_gate none = blocked_by BoundaryStatus.hold "PECAN_EXTERNAL_AUTHORIZATION_MISSING"
  crossing_gate (some x) =
      if not (x.subject_ref == c.action_ref) || not (x.boundary_context_ref == d.of_context c)
      then blocked_by BoundaryStatus.refuse "PECAN_ACTION_BINDING_MISMATCH"
      else if not (may_cross_external_boundary x)
      then blocked_by BoundaryStatus.hold "PECAN_EXTERNAL_AUTHORIZATION_MISSING"
      else (BoundaryStatus.clear, [])

  -- the tests of the release review after a clear gate
  unfoldable pub seed_gate : Option SeedReleaseReview → Gate
  seed_gate none = blocked_by BoundaryStatus.hold "SEED_RELEASE_REVIEW_MISSING"
  seed_gate (some r) =
      if not (r.chosen_goal_id == c.goal_id)
        || not (r.chosen_goal_ref == c.goal_ref)
        || not (r.boundary_context_ref == d.of_context c)
        || c.release_output_ref == none
        || not (some r.output_ref == c.release_output_ref)
      then blocked_by BoundaryStatus.refuse "SEED_RELEASE_BINDING_MISMATCH"
      else if ltb c.attention_budget r.attention_units_requested
      then blocked_by BoundaryStatus.refuse "SEED_ATTENTION_BUDGET_EXCEEDED"
      else if not (releasable r)
      then blocked_by BoundaryStatus.refuse "SEED_RELEASE_REFUSED"
      else (BoundaryStatus.clear, [])

  module _ (pea_review : Option PeaReview) (crossing : Option ConsequentialCrossing)
      (seed_release : Option SeedReleaseReview)
      (external_effect_requested release_requested : Bool) where
    unfoldable pub effect_gate : Gate
    unfolding gate
    effect_gate =
        gate external_effect_requested (pea_gate pea_review "external_effect")
          (crossing_gate crossing)

    unfoldable pub release_gate : Gate
    unfolding gate
    release_gate = gate release_requested (pea_gate pea_review "release") (seed_gate seed_release)

    -- the decision before its validator runs
    unfoldable pub decide : LabPolicyDecision
    decide = record {
      schema_id = "strongwiz.lab-policy-decision.v1";
      context = c;
      pea_review_ref = Option.map d.of_review pea_review;
      pecan_crossing_ref = Option.map d.of_crossing crossing;
      seed_release_ref = Option.map d.of_release seed_release;
      external_effect_status = effect_gate.0;
      release_status = release_gate.0;
      blockers = effect_gate.1 ++ release_gate.1;
      limitations =
          "profiles are bounded control interfaces, not legal or ethical authorities"
          ∷ "supplied references are not independently authenticated by this decision" ∷ [];
      nonexecuting = true;
      authority = "NONE";
      effect = "NONE";
    }

    unfoldable pub evaluate_lab_rules : Result InvalidReview LabPolicyDecision
    unfolding decide
    evaluate_lab_rules = validate_decision decide
