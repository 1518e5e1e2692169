-- ===== src/Orchestration/Begin.antt =====
-- `ExecutionCoordinator.begin` of orchestration.py.
use strongwiz.Base.{
  ℕ, String, Bool, true, false, not, ◌&&◌, ◌||◌, Option, none, some, ◌==◌, contains, string_eq,
  nat_eq, option_eq, if◌then◌else◌,
}
use strongwiz.Base.Result.{Result, ok, err}
use strongwiz.Base.Exec.{Exec, pure, gets, lift, or_raise, ◌>>=◌, ◌>>◌, raise_if}
use strongwiz.Contracts.{
  DecisionEffect, effect_eq, CandidateProposal, ControlSnapshot, binding_eq, RouteDecision,
  route_eq, nonselecting, contains_goal, BoundaryStatus, boundary_eq,
}
use strongwiz.Authority.Grant.{TaskGrant}
use strongwiz.Authority.Permit.{
  AuthorityError, unknown_grant, Bindings, DecisionPermit, ReleaseReceipt,
}
use strongwiz.Authority.Registry.{GrantRegistry, begin_permit}
use strongwiz.Routing.Guards.{Digests}
use strongwiz.Routing.Evaluate.{RouterPolicy, evaluate_proposal}
use strongwiz.LabPolicy.Reviews.{
  PeaReview, ConsequentialCrossing, SeedReleaseReview, LabBoundaryContext,
}
use strongwiz.LabPolicy.Decision.{
  LabDigests, LabPolicyDecision, lab_decision_eq, external_effect_binding,
  clears_requested_boundaries,
}
use strongwiz.LabPolicy.Rules.{evaluate_lab_rules}
use strongwiz.Orchestration.Admission.{
  OrchestrationError, from_authority, from_router, from_lab, unadmitted_route, ExecutionAdmission,
  ActionExecutor, admission_of, validate_admission, foreign_control, shadow_route,
  foreign_lab_decision, foreign_writer, unguarded_route, uncleared_boundary, foreign_proposal,
  stale_proposal, disagreeing_context,
}

-- The content digests of all that an execution binds.
pub record ExecutionDigests : Type 0 where
  pub router : Digests
  pub lab : LabDigests
  pub of_grant : TaskGrant → String
  pub of_route : RouteDecision → String
  pub of_lab_decision : LabPolicyDecision → String
  pub of_admission : ExecutionAdmission → String
  pub of_release : ReleaseReceipt → String

-- The arguments of `begin`.
pub record Request : Type 0 where
  pub proposal : CandidateProposal
  pub route : RouteDecision
  pub control : ControlSnapshot
  pub lab_decision : LabPolicyDecision
  pub pea_review : Option PeaReview
  pub crossing : Option ConsequentialCrossing
  pub seed_release : Option SeedReleaseReview
  pub invocation_id : String
  pub boundary : ℕ

-- a callee's error, as one of this module
abbrev pub convert :
    {E A : Type 0} → (E → OrchestrationError) → Result E A → Result OrchestrationError A
convert f (ok a) = ok a
convert f (err e) = err (f e)

abbrev pub Action : Type 0 → Type 0
Action = Exec GrantRegistry OrchestrationError

abbrev pub of_registry : {A : Type 0} → Exec GrantRegistry AuthorityError A → Action A
of_registry m g = let (r, g') = m g in (convert from_authority r, g')

module _ (d : ExecutionDigests) (executor : ActionExecutor) (policy : RouterPolicy) where
  open d use {router, lab}

  -- the tests of the route
  unfoldable pub check_route : Request → Result OrchestrationError (Unit {0})
  check_route q =
      if nonselecting q.route.disposition
      then err unadmitted_route
      else if not (q.route.control_ref == router.of_control q.control)
      then err foreign_control
      else elim (evaluate_proposal router q.proposal q.control (some policy)) [
        | err e ↦ err (from_router e)
        | ok expected ↦
            if not (q.route == expected)
            then err unguarded_route
            else if not (q.route.selected_proposal_ref == some (router.of_proposal q.proposal))
                || not (q.route.selected_proposal_id == some q.proposal.proposal_id)
            then err foreign_proposal
            else ok tt
      ]

  -- `self._grants.require(control.execution_grant_ref)`, for a control that is no shadow
  unfoldable pub find_grant : ControlSnapshot → Action TaskGrant
  find_grant c = do
    raise_if c.shadow_only shadow_route
    r ← or_raise c.execution_grant_ref shadow_route
    found ← gets (λ g. g.grants r)
    or_raise found (from_authority unknown_grant)

  unfoldable pub is_writer : TaskGrant → Bool
  is_writer grant =
      grant.executor_id == executor.executor_id
      && grant.executor_version == executor.executor_version
      && grant.executor_artifact_ref == executor.executor_artifact_ref

  unfoldable pub release_review_required : TaskGrant → CandidateProposal → Bool
  release_review_required grant p =
      grant.release_review_required || contains p.decision_effects DecisionEffect.output

  -- the decision is that of the supplied reviews
  unfoldable pub check_lab : TaskGrant → Request → Result OrchestrationError (Unit {0})
  check_lab grant q =
      elim (evaluate_lab_rules lab q.lab_decision.context q.pea_review q.crossing q.seed_release
        true (release_review_required grant q.proposal)) [
          | err e ↦ err (from_lab e)
          | ok expected ↦
              if not (q.lab_decision == expected) then err foreign_lab_decision else ok tt
        ]

  -- the control holds this clear decision
  unfoldable pub holds_clear : Request → Bool
  holds_clear q = elim (external_effect_binding d.of_lab_decision q.lab_decision) [
    | none ↦ false
    | some b ↦
        b.status == BoundaryStatus.clear
        && q.control.lab_boundary == some b
        && clears_requested_boundaries q.lab_decision
  ]

  unfoldable pub is_current : CandidateProposal → ControlSnapshot → Bool
  is_current p c =
      p.observation_id == c.observation_id
      && p.observation_ref == c.observation_ref
      && p.scope_id == c.scope_id
      && contains_goal c p.goal_id p.goal_ref

  -- the context of the lab decision, the proposal and the grant agree
  unfoldable pub agrees : LabBoundaryContext → CandidateProposal → TaskGrant → Bool
  agrees x p grant =
      x.grant_ref == d.of_grant grant
      && x.task_id == grant.task_id
      && x.goal_id == grant.goal_id
      && x.goal_ref == grant.goal_ref
      && x.scope_id == grant.scope_id
      && x.output_destination_ref == grant.output_destination_ref
      && x.attention_budget == grant.maximum_attention_units
      && x.observation_id == p.observation_id
      && x.observation_ref == p.observation_ref
      && x.proposal_ref == router.of_proposal p
      && x.action_ref == router.of_action p.action
      && p.goal_id == grant.goal_id
      && p.goal_ref == grant.goal_ref

  -- the arguments of `_begin_permit`
  unfoldable pub bindings_of : TaskGrant → Request → Bindings
  bindings_of grant q = record {
    token = q.control.serial_token;
    grant_ref = d.of_grant grant;
    invocation_id = q.invocation_id;
    proposal_ref = router.of_proposal q.proposal;
    action_ref = router.of_action q.proposal.action;
    action_name = q.proposal.action.name;
    executor_id = grant.executor_id;
    executor_version = grant.executor_version;
    executor_artifact_ref = grant.executor_artifact_ref;
    observation_id = q.proposal.observation_id;
    observation_ref = q.proposal.observation_ref;
    scope_id = q.proposal.scope_id;
    route_ref = d.of_route q.route;
    control_ref = router.of_control q.control;
    lab_decision_ref = d.of_lab_decision q.lab_decision;
    boundary = q.boundary;
  }

  -- the tests between the grant's lookup and the permit
  unfoldable pub check_grant : TaskGrant → Request → Result OrchestrationError (Unit {0})
  check_grant grant q =
      if not (is_writer grant) then err foreign_writer else elim (check_lab grant q) [
        | err e ↦ err e
        | ok _ ↦
            if not (holds_clear q)
            then err uncleared_boundary
            else if not (is_current q.proposal q.control)
            then err stale_proposal
            else if not (agrees q.lab_decision.context q.proposal grant)
            then err disagreeing_context
            else ok tt
      ]

  -- the end of `begin`, from the permit on
  unfoldable pub issue : TaskGrant → Request → Action (DecisionPermit × ExecutionAdmission)
  issue grant q = do
    permit ← of_registry (begin_permit (bindings_of grant q))
    admission ← lift (validate_admission (admission_of (bindings_of grant q)))
    pure (permit, admission)

  unfoldable pub begin_under : Request → TaskGrant → Action (DecisionPermit × ExecutionAdmission)
  begin_under q grant = lift (check_grant grant q) >> issue grant q

  unfoldable pub begin : Request → Action (DecisionPermit × ExecutionAdmission)
  begin q = lift (check_route q) >> (find_grant q.control >>= begin_under q)
