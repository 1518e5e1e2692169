-- ===== src/Routing/Guards.antt =====
-- The eight hard guards of `evaluate_proposal` in routing.py.
use strongwiz.Base.{
  String, Bool, not, ◌&&◌, ◌||◌, Option, none, some, List, [], ◌∷◌, ◌++◌, ◌==◌, contains,
  is_present, keep, is_nonempty, sorted_set, difference, string_eq, if◌then◌else◌,
}
use strongwiz.Contracts.{
  CandidateProposal, ControlSnapshot, LabBoundaryBinding, ActionSpec, GuardResult, GuardStatus,
  pass, fail, unresolved, not_applicable, BoundaryStatus, clear, refuse, not_requested,
  contains_goal, fits_within,
}

-- The content digests of the values that a route binds.
pub record Digests : Type 0 where
  pub of_proposal : CandidateProposal → String
  pub of_action : ActionSpec → String
  pub of_control : ControlSnapshot → String

-- `_guard`
unfoldable pub guard : String → GuardStatus → String → List String → GuardResult
guard name status reason refs = record {
  guard = name;
  status = status;
  reason = reason;
  evidence_refs = refs;
}

-- a guard with one test: the status and reason where it holds, and where it does not
abbrev tested : String → Bool → GuardStatus → String → String → List String → GuardResult
tested name ok bad yes_text no_text refs =
    guard name (if ok then pass else bad) (if ok then yes_text else no_text) refs

module _ (p : CandidateProposal) (c : ControlSnapshot) where
  unfoldable pub identity_ok : Bool
  identity_ok =
      p.observation_id == c.observation_id
      && p.observation_ref == c.observation_ref
      && p.scope_id == c.scope_id

  unfoldable pub identity : GuardResult
  unfolding identity_ok guard
  identity =
      tested "IDENTITY" identity_ok fail "proposal binds the current observation and scope"
        "proposal observation or scope is stale" []

  unfoldable pub evidence_missing : List String
  evidence_missing = sorted_set (difference p.evidence_refs c.available_evidence_refs)

  unfoldable pub delta_missing : List String
  delta_missing = sorted_set (difference p.material_delta_refs c.accepted_material_delta_refs)

  unfoldable pub witness_missing : List String
  unfolding evidence_missing delta_missing
  witness_missing = sorted_set (evidence_missing ++ delta_missing)

  unfoldable pub witness : GuardResult
  unfolding witness_missing guard
  witness =
      tested "WITNESS" (not (is_present witness_missing)) unresolved
        "all proposal witnesses are in the control aperture"
        "one or more proposal witnesses are unavailable"
        (keep (λ ref. not (contains witness_missing ref)) p.evidence_refs)

  unfoldable pub scope : GuardResult
  unfolding guard
  scope =
      tested "SCOPE" (contains_goal c p.goal_id p.goal_ref) fail
        "proposal serves an active scoped goal" "proposal goal is not active" []

  unfoldable pub missing_trace : List String
  missing_trace = sorted_set (difference p.trace_refs c.available_trace_refs)

  unfoldable pub missing_residual : List String
  missing_residual = sorted_set (difference p.residual_refs c.available_residual_refs)

  unfoldable pub trace : GuardResult
  unfolding missing_trace missing_residual guard
  trace =
      tested "TRACE" (not (is_present missing_trace) && not (is_present missing_residual))
        unresolved "trace and residual dependencies are available"
        "trace or residual dependency is unavailable"
        (keep (λ ref. not (contains (missing_trace ++ missing_residual) ref))
          (p.trace_refs ++ p.residual_refs))

  unfoldable pub resource_ok : Bool
  resource_ok = fits_within p.costs c.remaining_budget

  unfoldable pub resource : GuardResult
  unfolding resource_ok guard
  resource =
      tested "RESOURCE" resource_ok unresolved
        "declared heterogeneous costs fit the remaining budget"
        "at least one declared cost dimension exceeds its budget" []

  unfoldable pub reentry : GuardResult
  unfolding delta_missing guard
  reentry = elim p.prior_account_ref [
    | none ↦ guard "REENTRY" not_applicable "proposal does not request reopening" []
    | some account ↦
        if not (contains c.available_account_refs account)
        then guard "REENTRY" unresolved
            "prior account is outside the control-owned reopening aperture" []
        else if is_present p.material_delta_refs && not (is_present delta_missing)
        then guard "REENTRY" pass "reopening names a prior account and accepted material delta"
            p.material_delta_refs
        else guard "REENTRY" unresolved "reopening lacks an accepted material delta" []
  ]

module _ (d : Digests) (p : CandidateProposal) (c : ControlSnapshot) where
  -- the lab decision is that of this grant, proposal, action, observation and scope
  unfoldable pub binds_effect : String → LabBoundaryBinding → Bool
  binds_effect grant b =
      b.grant_ref == grant
      && b.proposal_ref == d.of_proposal p
      && b.action_ref == d.of_action p.action
      && b.observation_id == p.observation_id
      && b.observation_ref == p.observation_ref
      && b.scope_id == p.scope_id

  unfoldable pub boundary_guard : String → LabBoundaryBinding → GuardResult
  unfolding binds_effect guard
  boundary_guard grant b =
      let refs = grant ∷ b.decision_ref ∷ [] in
      if not (binds_effect grant b)
      then guard "AUTHORITY" fail
          "the lab decision is not bound to this exact grant, proposal, action, and scope" refs
      else elim b.status [
        | BoundaryStatus.hold ↦
            guard "AUTHORITY" unresolved
              "the control-owned lab policy decision holds the external effect" refs
        | refuse ↦
            guard "AUTHORITY" fail
              "the control-owned lab policy decision refuses the external effect" refs
        | clear ↦
            guard "AUTHORITY" pass
              "external grant and control-owned lab clearance are supplied but not authenticated here"
              refs
        | not_requested ↦
            guard "AUTHORITY" unresolved "laboratory clearance lacks its decision receipt" []
      ]

  -- the cases of `control.lab_boundary` under a grant
  unfoldable pub granted_guard : String → Option LabBoundaryBinding → GuardResult
  unfolding boundary_guard guard
  granted_guard grant none =
      guard "AUTHORITY" unresolved
        "non-shadow consideration requires a control-owned lab policy decision" (grant ∷ [])
  granted_guard grant (some b) = boundary_guard grant b

  ungranted : GuardResult
  unfolding guard
  ungranted =
      guard "AUTHORITY" unresolved "non-shadow consideration requires an external execution grant"
        []

  unfoldable pub authority : GuardResult
  unfolding granted_guard ungranted guard
  authority =
      if c.shadow_only
      then guard "AUTHORITY" not_applicable "shadow route requests no external effect" []
      else elim c.execution_grant_ref [
        | none ↦ ungranted
        | some grant ↦ if is_nonempty grant then granted_guard grant c.lab_boundary else ungranted
      ]

  unfoldable pub action_allowed : Bool
  action_allowed =
      contains c.allowed_action_names p.action.name
      && (not (is_present c.allowed_action_refs)
          || contains c.allowed_action_refs (d.of_action p.action))

  unfoldable pub consequence : GuardResult
  unfolding action_allowed guard
  consequence =
      tested "CONSEQUENCE" action_allowed fail
        "action is in the independently supplied action aperture"
        "action is outside the supplied action aperture" []
