-- ===== src/Orchestration/Checked.antt =====
-- What the tests of `begin` on the route and on the grant show.
use strongwiz.Base.{
  String, true, false, some, ◌≡◌, inl, inr, arith, string_eq, nat_eq, option_eq, Option-cases,
}
use strongwiz.Base.Result.{ok}
use strongwiz.Contracts.{
  CandidateProposal, ControlSnapshot, contains_goal, nonselecting, BoundaryStatus, boundary_eq,
  binding_eq, route_eq,
}
use strongwiz.Authority.Grant.{TaskGrant}
use strongwiz.Authority.Registry.{GrantRegistry}
use strongwiz.Routing.Evaluate.{RouterPolicy, evaluate_proposal}
use strongwiz.LabPolicy.Reviews.{LabBoundaryContext}
use strongwiz.LabPolicy.Decision.{
  external_effect_binding, clears_requested_boundaries, lab_decision_eq,
}
use strongwiz.LabPolicy.Clearance.{decided, evaluate_lab_rules_lem}
use strongwiz.Orchestration.Admission.{ActionExecutor}
use strongwiz.Orchestration.Begin.{
  ExecutionDigests, Request, check_route, find_grant, is_writer, release_review_required, check_lab,
  holds_clear, is_current, agrees, check_grant,
}

module _ (d : ExecutionDigests) (executor : ActionExecutor) (policy : RouterPolicy) where
  open d use {router, lab}

  -- the route is the one the guards give, for this control and this proposal
  pub record IsRouted (q : Request) : Type 0 where
    pub evaluated : evaluate_proposal router q.proposal q.control (some policy) ≡ ok q.route
    pub selecting : nonselecting q.route.disposition ≡ false
    pub control_ref : q.route.control_ref ≡ router.of_control q.control
    pub proposal_ref : q.route.selected_proposal_ref ≡ some (router.of_proposal q.proposal)
    pub proposal_id : q.route.selected_proposal_id ≡ some q.proposal.proposal_id

  -- the grant that the control names, and no shadow
  pub record IsGranted (c : ControlSnapshot) (g : GrantRegistry) (grant : TaskGrant) : Type 0 where
    pub unshadowed : c.shadow_only ≡ false
    pub ref : String
    pub named : c.execution_grant_ref ≡ some ref
    pub stored : g.grants ref ≡ some grant

  -- the executor is the grant's, in its version and its artifact
  pub record IsWriter (grant : TaskGrant) : Type 0 where
    pub id : executor.executor_id ≡ grant.executor_id
    pub version : executor.executor_version ≡ grant.executor_version
    pub artifact : executor.executor_artifact_ref ≡ grant.executor_artifact_ref

  -- the control holds the lab's decision, and the decision clears what was requested
  pub record IsHeld (q : Request) : Type 0 where
    pub effect : q.lab_decision.external_effect_status ≡ BoundaryStatus.clear
    pub held : q.control.lab_boundary ≡ external_effect_binding d.of_lab_decision q.lab_decision
    pub clears : clears_requested_boundaries q.lab_decision ≡ true

  -- the proposal is of the observation, the scope and an active goal of the control
  pub record IsCurrent (p : CandidateProposal) (c : ControlSnapshot) : Type 0 where
    pub observation_id : p.observation_id ≡ c.observation_id
    pub observation_ref : p.observation_ref ≡ c.observation_ref
    pub scope : p.scope_id ≡ c.scope_id
    pub goal : contains_goal c p.goal_id p.goal_ref ≡ true

  -- the context of the lab's decision is of the grant and of the proposal, and these have one goal
  pub record IsAgreed (x : LabBoundaryContext) (p : CandidateProposal) (grant : TaskGrant)
      : Type 0 where
    pub grant_ref : x.grant_ref ≡ d.of_grant grant
    pub task : x.task_id ≡ grant.task_id
    pub goal : x.goal_id ≡ grant.goal_id
    pub goal_ref : x.goal_ref ≡ grant.goal_ref
    pub scope : x.scope_id ≡ grant.scope_id
    pub destination : x.output_destination_ref ≡ grant.output_destination_ref
    pub attention : x.attention_budget ≡ grant.maximum_attention_units
    pub observation : x.observation_id ≡ p.observation_id
    pub observation_ref : x.observation_ref ≡ p.observation_ref
    pub proposal : x.proposal_ref ≡ router.of_proposal p
    pub action : x.action_ref ≡ router.of_action p.action
    pub proposed_goal : p.goal_id ≡ grant.goal_id
    pub proposed_goal_ref : p.goal_ref ≡ grant.goal_ref

  pub check_route-IsRouted : (q : Request) → check_route d executor policy q ≡ ok tt → IsRouted q
  unfolding check_route
  check_route-IsRouted q h = ground arith

  pub find_grant-IsGranted :
      (c : ControlSnapshot) (g : GrantRegistry) (grant : TaskGrant)
      → find_grant d executor policy c g ≡ (ok grant, g)
      → IsGranted c g grant
  unfolding find_grant
  find_grant-IsGranted c g grant h = elim (Option-cases c.execution_grant_ref) [
    | inl absent ↦ absurd (ground arith)
    | inr (r, here) ↦ record {
      unshadowed = ground arith;
      ref = r;
      named = here;
      stored = ground arith;
    }
  ]

  is_writer-IsWriter :
      (grant : TaskGrant) → is_writer d executor policy grant ≡ true → IsWriter grant
  unfolding is_writer
  is_writer-IsWriter grant h = ground arith

  holds_clear-IsHeld : (q : Request) → holds_clear d executor policy q ≡ true → IsHeld q
  unfolding holds_clear external_effect_binding
  holds_clear-IsHeld q h = ground arith

  is_current-IsCurrent :
      (p : CandidateProposal) (c : ControlSnapshot)
      → is_current d executor policy p c ≡ true
      → IsCurrent p c
  unfolding is_current
  is_current-IsCurrent p c h = ground arith

  agrees-IsAgreed :
      (x : LabBoundaryContext) (p : CandidateProposal) (grant : TaskGrant)
      → agrees d executor policy x p grant ≡ true
      → IsAgreed x p grant
  unfolding agrees
  agrees-IsAgreed x p grant h = ground arith

  pub check_lab-decided :
      (q : Request) (grant : TaskGrant)
      → check_lab d executor policy grant q ≡ ok tt
      → q.lab_decision
        ≡ decided lab q.lab_decision.context q.pea_review q.crossing q.seed_release true
            (release_review_required d executor policy grant q.proposal)
  unfolding check_lab
  check_lab-decided q grant h = ground (
    arith,
    evaluate_lab_rules_lem lab q.lab_decision.context q.pea_review q.crossing q.seed_release true
        (release_review_required d executor policy grant q.proposal),
  )

  -- what `check_grant` lets pass
  pub check_grant_parts :
      (q : Request) (grant : TaskGrant)
      → check_grant d executor policy grant q ≡ ok tt
      → IsWriter grant
        × (check_lab d executor policy grant q ≡ ok tt)
        × IsHeld q
        × IsCurrent q.proposal q.control
        × IsAgreed q.lab_decision.context q.proposal grant
  unfolding check_grant
  check_grant_parts q grant h = (
    is_writer-IsWriter grant (ground arith),
    ground arith,
    holds_clear-IsHeld q (ground arith),
    is_current-IsCurrent q.proposal q.control (ground arith),
    agrees-IsAgreed q.lab_decision.context q.proposal grant (ground arith),
  )
