-- ===== src/Routing/Admission.antt =====
-- A route selects its proposal exactly when the proposal is admissible.
use strongwiz.Base.{
  is_present-append, String, Bool, true, false, not, ◌&&◌, Option, none, some, ◌≡◌, ◌⊎◌, inl, inr,
  ◌↔◌, refl, arith, contains, is_present, all, is_nonempty, has_text, string_eq, if◌then◌else◌,
  is_present-sorted_set, is_present-difference,
}
use strongwiz.Base.Map.{get_or}
use strongwiz.Base.Result.{ok}
use strongwiz.Contracts.{
  CandidateProposal, ControlSnapshot, LabBoundaryBinding, fail, unresolved, guard_status_eq, clear,
  contains_goal, fits_within, RouteDecision, validate_nonexecution, nonselecting,
}
use strongwiz.Routing.Guards.{
  Digests, identity, scope, authority, consequence, resource, reentry, identity_ok, action_allowed,
  resource_ok, witness_missing, evidence_missing, delta_missing, missing_trace, missing_residual,
  binds_effect,
}
use strongwiz.Routing.Evaluate.{
  RouterPolicy, default_policy, has_status, unresolved_witnesses, disposition, decision,
  evaluate_proposal,
}

-- The external effect is cleared: no effect is asked for, or a grant is named and the lab's
-- decision clears exactly this grant, proposal, action, observation and scope.
abbrev pub IsCleared : Digests → CandidateProposal → ControlSnapshot → Type 0
IsCleared d p c =
    (c.shadow_only ≡ true)
    ⊎ ((grant : String) × (b : LabBoundaryBinding) × (c.execution_grant_ref ≡ some grant)
        × (is_nonempty grant ≡ true)
        × (c.lab_boundary ≡ some b)
        × (binds_effect d p c grant b ≡ true)
        × (b.status ≡ clear))

-- The conditions on a proposal, each stated without the guards.
pub record IsAdmissible (d : Digests) (p : CandidateProposal) (c : ControlSnapshot) : Type 0 where
  pub observation : p.observation_id ≡ c.observation_id
  pub observation_content : p.observation_ref ≡ c.observation_ref
  pub same_scope : p.scope_id ≡ c.scope_id
  pub goal : contains_goal c p.goal_id p.goal_ref ≡ true
  pub evidence : all (contains c.available_evidence_refs) p.evidence_refs ≡ true
  pub deltas : all (contains c.accepted_material_delta_refs) p.material_delta_refs ≡ true
  pub traces : all (contains c.available_trace_refs) p.trace_refs ≡ true
  pub residuals : all (contains c.available_residual_refs) p.residual_refs ≡ true
  pub cleared : IsCleared d p c
  pub action : contains c.allowed_action_names p.action.name ≡ true
  pub action_content :
      (is_present c.allowed_action_refs ≡ false)
      ⊎ (contains c.allowed_action_refs (d.of_action p.action) ≡ true)
  pub budget : fits_within p.costs c.remaining_budget ≡ true
  pub reopening :
      (p.prior_account_ref ≡ none)
      ⊎ ((account : String) × (p.prior_account_ref ≡ some account)
          × (contains c.available_account_refs account ≡ true)
          × (is_present p.material_delta_refs ≡ true))

module _ (p : CandidateProposal) (c : ControlSnapshot) where
  delta_missing_lem :
      is_present (delta_missing p c)
      ≡ not (all (contains c.accepted_material_delta_refs) p.material_delta_refs)
  unfolding delta_missing
  delta_missing_lem = rw (is_present-sorted_set, is_present-difference)

  -- nothing is missing exactly when each list of references is at hand
  unresolved_lem :
      is_present (unresolved_witnesses p c)
      ≡ not (
          all (contains c.available_evidence_refs) p.evidence_refs
          && all (contains c.accepted_material_delta_refs) p.material_delta_refs
          && all (contains c.available_trace_refs) p.trace_refs
          && all (contains c.available_residual_refs) p.residual_refs)
  unfolding unresolved_witnesses witness_missing evidence_missing delta_missing missing_trace
      missing_residual
  unresolved_lem =
      simp (is_present-sorted_set, is_present-append, is_present-difference) (ground arith)

module _ (d : Digests) (p : CandidateProposal) (c : ControlSnapshot) where
  -- the authority guard neither fails nor waits
  passes_authority : Bool
  unfolding has_status
  passes_authority =
      not (has_status fail (authority d p c)) && not (has_status unresolved (authority d p c))

  IsCleared-of_passes : passes_authority ≡ true → IsCleared d p c
  unfolding passes_authority authority
  IsCleared-of_passes h = ground arith

  passes_of_cleared : IsCleared d p c → passes_authority ≡ true
  unfolding passes_authority authority
  passes_of_cleared (inl shadow) = ground arith
  passes_of_cleared (inr (grant, b, named, present, at, binds, cleared)) = ground arith

  -- the guards that the disposition reads, all in one test
  passes_guards : Bool
  unfolding passes_authority has_status
  passes_guards =
      identity_ok p c
      && contains_goal c p.goal_id p.goal_ref
      && passes_authority
      && action_allowed d p c
      && not (is_present (unresolved_witnesses p c))
      && resource_ok p c
      && not (has_status unresolved (reentry p c))

  selects_of_guards :
      (policy : RouterPolicy) → nonselecting (disposition d p c policy) ≡ not passes_guards
  unfolding disposition passes_guards nonselecting identity scope consequence resource
  selects_of_guards policy = ground arith

  IsAdmissible-of_guards : passes_guards ≡ true → IsAdmissible d p c
  unfolding passes_guards identity_ok action_allowed resource_ok reentry has_status
  IsAdmissible-of_guards h = record {
    observation = ground arith;
    observation_content = ground arith;
    same_scope = ground arith;
    goal = ground arith;
    evidence = ground (arith, unresolved_lem p c);
    deltas = ground (arith, unresolved_lem p c);
    traces = ground (arith, unresolved_lem p c);
    residuals = ground (arith, unresolved_lem p c);
    cleared = IsCleared-of_passes (ground arith);
    action = ground arith;
    action_content = ground arith;
    budget = ground arith;
    reopening = ground (arith, delta_missing_lem p c, unresolved_lem p c);
  }

  guards_of_admissible : IsAdmissible d p c → passes_guards ≡ true
  unfolding passes_guards identity_ok action_allowed resource_ok reentry has_status
  guards_of_admissible a =
      ground (arith, delta_missing_lem p c, unresolved_lem p c, passes_of_cleared a.cleared)

  -- what the validator asks of a decision that the router built
  pub validate_decision :
      (policy : RouterPolicy)
      → has_text (d.of_control c) ≡ true
      → validate_nonexecution (decision d p c policy) ≡ ok (decision d p c policy)
  unfolding validate_nonexecution decision
  validate_decision policy digest = ground arith

  pub decision_iff :
      (policy : RouterPolicy)
      → (nonselecting (decision d p c policy).disposition ≡ false) ↔ IsAdmissible d p c
  unfolding decision
  decision_iff policy = (
    (λ selecting. IsAdmissible-of_guards (ground (arith, selects_of_guards policy))),
    λ admissible. ground (arith, selects_of_guards policy, guards_of_admissible admissible),
  )

  -- Where the control digest is not blank, evaluation returns a decision, and that decision selects
  -- (admits or reopens) exactly the admissible proposals, whatever the policy: the current
  -- observation and scope, an active goal, every evidence, delta, trace and residual reference at
  -- hand, a cleared effect, an allowed action, costs within the budget, and for a reopening a known
  -- account and a material delta. A selecting decision names this proposal and its digest, and any
  -- other names none.
  pub evaluate_proposal_iff :
      (policy : Option RouterPolicy)
      → has_text (d.of_control c) ≡ true
      → (r : RouteDecision) × (evaluate_proposal d p c policy ≡ ok r)
        × ((nonselecting r.disposition ≡ false) ↔ IsAdmissible d p c)
        × (r.selected_proposal_id
            ≡ (if nonselecting r.disposition then none else some p.proposal_id))
        × (r.selected_proposal_ref
            ≡ (if nonselecting r.disposition then none else some (d.of_proposal p)))
  unfolding evaluate_proposal decision
  evaluate_proposal_iff policy digest =
      let q = get_or policy default_policy in
      (decision d p c q, validate_decision q digest, decision_iff q, refl, refl)

  -- the converse of evaluation for a decision at hand
  pub IsAdmissible-of :
      (policy : Option RouterPolicy) (r : RouteDecision)
      → evaluate_proposal d p c policy ≡ ok r
      → nonselecting r.disposition ≡ false
      → IsAdmissible d p c
  unfolding evaluate_proposal validate_nonexecution
  IsAdmissible-of policy r done selecting =
      (decision_iff (get_or policy default_policy)).0 (ground arith)
