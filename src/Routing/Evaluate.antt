-- ===== src/Routing/Evaluate.antt =====
-- `RouterPolicy` and `evaluate_proposal` of routing.py.
use strongwiz.Base.{
  String, Bool, true, ◌||◌, Option, none, some, List, [], ◌∷◌, ◌++◌, ◌==◌, is_present, sorted_set,
  if◌then◌else◌,
}
use strongwiz.Base.Map.{get_or}
use strongwiz.Base.Result.{Result}
use strongwiz.Contracts.{
  CandidateProposal, ControlSnapshot, GuardResult, GuardStatus, fail, unresolved, guard_status_eq,
  RouteDecision, RouteDisposition, admit, request_witness, reject, reopen, Invalid,
  validate_nonexecution, nonselecting,
}
use strongwiz.Routing.Guards.{
  Digests, identity, witness, scope, trace, authority, consequence, resource, reentry,
  witness_missing, missing_trace, missing_residual,
}

pub record RouterPolicy : Type 0 where
  pub policy_id : String
  pub request_missing_witness : Bool
  pub reopen_on_material_delta : Bool
  pub limitations : List String

-- `RouterPolicy()`
abbrev pub default_policy : RouterPolicy
default_policy = record {
  policy_id = "strongwiz.router.v1";
  request_missing_witness = true;
  reopen_on_material_delta = true;
  limitations =
      "advisory route only"
      ∷ "supplied evidence and control state are not independently authenticated"
      ∷ "route does not grant permission or execute an action" ∷ [];
}

unfoldable pub has_status : GuardStatus → GuardResult → Bool
has_status s g = g.status == s

module _ (p : CandidateProposal) (c : ControlSnapshot) where
  unfoldable pub unresolved_witnesses : List String
  unresolved_witnesses =
      sorted_set (witness_missing p c ++ missing_trace p c ++ missing_residual p c)

module _ (d : Digests) (p : CandidateProposal) (c : ControlSnapshot) where
  unfoldable pub hard_fail : Bool
  unfolding has_status
  hard_fail =
      has_status fail (identity p c)
      || has_status fail (scope p c)
      || has_status fail (authority d p c)
      || has_status fail (consequence d p c)

  unfoldable pub is_held : Bool
  unfolding has_status
  is_held =
      has_status unresolved (authority d p c)
      || has_status unresolved (resource p c)
      || has_status unresolved (reentry p c)

  unfoldable pub disposition : RouterPolicy → RouteDisposition
  unfolding hard_fail unresolved_witnesses is_held
  disposition policy =
      if hard_fail
      then reject
      else if is_present (unresolved_witnesses p c)
      then (if policy.request_missing_witness then request_witness else RouteDisposition.hold)
      else if is_held
      then RouteDisposition.hold
      else elim p.prior_account_ref [
        | none ↦ admit
        | some _ ↦ if policy.reopen_on_material_delta then reopen else admit
      ]

  -- the decision before its validator runs
  unfoldable pub decision : RouterPolicy → RouteDecision
  unfolding nonselecting
  decision policy =
      let chosen = disposition policy in
      record {
        schema_id = "strongwiz.contract.v1";
        control_ref = d.of_control c;
        disposition = chosen;
        selected_proposal_id = if nonselecting chosen then none else some p.proposal_id;
        selected_proposal_ref = if nonselecting chosen then none else some (d.of_proposal p);
        guards =
            identity p c
            ∷ witness p c
            ∷ scope p c
            ∷ trace p c
            ∷ authority d p c
            ∷ consequence d p c
            ∷ resource p c
            ∷ reentry p c
            ∷ [];
        missing_witness_refs = unresolved_witnesses p c;
        limitations = policy.limitations;
        nonexecution_marker = true;
        authority = "NONE";
        effect = "NONE";
      }

  unfoldable pub evaluate_proposal : Option RouterPolicy → Result Invalid RouteDecision
  unfolding decision
  evaluate_proposal policy = validate_nonexecution (decision (get_or policy default_policy))
