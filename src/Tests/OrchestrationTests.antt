-- ===== src/Tests/OrchestrationTests.antt =====
-- The coordinator on a small example: a permit under the grant, and one call of its executor.
use strongwiz.Base.{
  true, false, none, some, [], ◌∷◌, ◌≡◌, refl, String_discrete, length, ◌≤◌, ◌+◌, pos,
}
use strongwiz.Base.Result.{ok}
use strongwiz.Base.{
  ℕ_discrete, Option_discrete, Pair_discrete, is_nonempty, has_text, insert_text, sorted_set,
  is_space, join, text_lt,
}
use strongwiz.Contracts.{
  nonselecting, contains_goal, fits_within, pairs, validate_nonexecution, binding_discrete,
  DecisionEffect-discrete, RouteDisposition-discrete, GuardStatus-discrete, BoundaryStatus-discrete,
  GuardResult-discrete, RouteDecision-discrete,
}
use strongwiz.Routing.Evaluate.{disposition, hard_fail, has_status, is_held, unresolved_witnesses}
use strongwiz.Routing.Guards.{
  identity, scope, authority, consequence, witness_missing, missing_trace, missing_residual,
  resource, action_allowed, binds_effect, boundary_guard, delta_missing, evidence_missing,
  granted_guard, guard, identity_ok, reentry, resource_ok, trace, witness,
}
use strongwiz.Authority.Grant.{GrantSource-discrete, GrantStatus-discrete, TaskGrant-discrete}
use strongwiz.LabPolicy.Decision.{
  LabBoundaryContext-discrete, LabPolicyDecision-discrete, clears_requested_boundaries,
  external_effect_binding, is_clear_or_idle, validate_decision,
}
use strongwiz.LabPolicy.Reviews.{
  CrossingStage-discrete, ReviewStatus-discrete, is_settled, may_cross_external_boundary,
  releasable, statuses_of,
}
use strongwiz.LabPolicy.Rules.{
  crossing_gate, effect_gate, evaluate_lab_rules, gate, pea_gate, release_gate, seed_gate,
}
use strongwiz.Contracts.{ControlSnapshot, LabBoundaryBinding, BoundaryStatus}
use strongwiz.LabPolicy.Rules.{decide}
use strongwiz.Routing.Evaluate.{default_policy, evaluate_proposal, decision}
use strongwiz.Authority.Registry.{
  GrantRegistry, new_registry, activate, begin_permit, require_active, reserve_and_issue,
}
use strongwiz.Authority.Permit.{DecisionPermit, new_permit}
use strongwiz.Orchestration.Execute.{Bench, execute_once}
use strongwiz.Orchestration.Once.{execute_once-IsSafe, IsSafe, Attempt, attempts, attempts-le}
use strongwiz.Orchestration.Admission.{
  ExecutionAdmission, admission_of, validate_admission, ActionExecutor, raised, ExecutionAdmission,
  admission_of,
}
use strongwiz.Orchestration.Begin.{
  ExecutionDigests, Request, begin, bindings_of, check_route, find_grant, check_grant, issue,
  begin_under, check_lab, holds_clear, is_writer, agrees, is_current, release_review_required,
}
use strongwiz.Orchestration.Warrant.{begin-IsWarranted, IsWarranted}
use strongwiz.Tests.RoutingTests.{first, control, digests}
use strongwiz.Tests.AuthorityTests.{grant, digest}
use strongwiz.Tests.LabPolicyTests.{context, review, crossing, lab_digests}

abbrev execution_digests : ExecutionDigests
execution_digests = record {
  router = digests;
  lab = lab_digests;
  of_grant = digest;
  of_route = λ _. "route";
  of_lab_decision = λ _. "decision";
  of_admission = λ a. a.invocation_id;
  of_release = λ _. "release";
}

abbrev writer : ActionExecutor
writer = record {
  executor_id = "writer";
  executor_version = "1";
  executor_artifact_ref = "artifact";
  execute = λ _. raised "OSError";
}

abbrev cleared : LabBoundaryBinding
cleared = record {
  decision_ref = "decision";
  grant_ref = "task";
  proposal_ref = "p1";
  action_ref = "move";
  observation_id = "obs";
  observation_ref = "obs-ref";
  scope_id = "scope";
  status = BoundaryStatus.clear;
}

abbrev granted : ControlSnapshot
granted = record control {
  lab_boundary = some cleared;
  execution_grant_ref = some "task";
  shadow_only = false;
}

abbrev request : Request
request = record {
  proposal = first;
  route = decision digests first granted default_policy;
  control = granted;
  lab_decision = decide lab_digests context (some review) (some crossing) none true false;
  pea_review = some review;
  crossing = some crossing;
  seed_release = none;
  invocation_id = "i1";
  boundary = 2;
}

abbrev registry : GrantRegistry
registry = (activate digest grant (new_registry 7)).1

abbrev permit : DecisionPermit
permit = record {
  bindings = bindings_of execution_digests writer default_policy grant request;
  issuer = 7;
  used = false;
}

abbrev admission : ExecutionAdmission
admission = admission_of permit.bindings

abbrev registry_after : GrantRegistry
registry_after = (begin execution_digests writer default_policy request registry).1

permit_issued :
    begin execution_digests writer default_policy request registry
    ≡ (ok (permit, admission), registry_after)
unfolding begin begin_under check_route find_grant check_grant check_lab holds_clear is_writer
    agrees is_current release_review_required issue bindings_of validate_admission activate
    begin_permit require_active reserve_and_issue new_permit String_discrete admission_of
    evaluate_proposal decision decide ℕ_discrete Option_discrete Pair_discrete is_nonempty has_text
    insert_text sorted_set is_space join text_lt nonselecting contains_goal fits_within pairs
    validate_nonexecution binding_discrete DecisionEffect-discrete RouteDisposition-discrete
    GuardStatus-discrete BoundaryStatus-discrete GuardResult-discrete RouteDecision-discrete
    disposition hard_fail has_status is_held unresolved_witnesses identity scope authority
    consequence witness_missing missing_trace missing_residual resource action_allowed binds_effect
    boundary_guard delta_missing evidence_missing granted_guard guard identity_ok reentry
    resource_ok trace witness GrantSource-discrete GrantStatus-discrete TaskGrant-discrete
    LabBoundaryContext-discrete LabPolicyDecision-discrete clears_requested_boundaries
    external_effect_binding is_clear_or_idle validate_decision CrossingStage-discrete
    ReviewStatus-discrete is_settled may_cross_external_boundary releasable statuses_of
    crossing_gate effect_gate evaluate_lab_rules gate pea_gate release_gate seed_gate
permit_issued = refl

begin-IsWarranted_example :
    IsWarranted execution_digests writer default_policy request registry permit admission
begin-IsWarranted_example =
    begin-IsWarranted execution_digests writer default_policy request registry registry_after permit
      admission permit_issued

abbrev bench : Bench
bench = record { registry = registry_after; permit = permit; commands = [] }

execute_once-IsSafe_example :
    IsSafe execution_digests writer "ValueError" admission first
      (pos 3)
      bench
      (execute_once execution_digests writer "ValueError" admission first (pos 3) bench).1
execute_once-IsSafe_example =
    execute_once-IsSafe execution_digests writer "ValueError" admission first (pos 3) bench

abbrev again : Attempt execution_digests writer "ValueError"
again = record {
  registry = registry_after;
  admission = admission;
  proposal = first;
  boundary = pos 3;
}

attempts-le_example :
    length (attempts execution_digests writer "ValueError" (again ∷ again ∷ []) bench).commands
    ≤ 0 + 1
attempts-le_example = attempts-le execution_digests writer "ValueError" (again ∷ again ∷ []) bench
