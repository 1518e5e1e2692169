-- ===== src/Orchestration/Execute.antt =====
-- `ExecutionCoordinator.execute_once` of orchestration.py.
use strongwiz.Base.{
  join, String, Bool, true, not, ◌||◌, Option, none, some, List, [], ◌∷◌, ◌++◌, ◌==◌, string_eq,
  option_eq, if◌then◌else◌, ℤ,
}
use strongwiz.Base.Exec.{Exec, pure, gets, lift, ◌>>=◌, ◌>>◌, raise_if, modify}
use strongwiz.Contracts.{CandidateProposal}
use strongwiz.Contracts.Evidence.{EvidenceRef}
use strongwiz.Authority.Permit.{DecisionPermit, ReleaseReceipt, ReleaseStatus}
use strongwiz.Authority.Registry.{GrantRegistry, Release, release_permit}
use strongwiz.Orchestration.Admission.{
  OrchestrationError, from_authority, ExecutionAdmission, admission_eq, ActionExecutor,
  admission_of, validate_admission, ExecutionCommand, ExecutorAnswer, observed, unbound, raised,
  ExecutionCallResult, ExecutionAttemptReceipt, validate_attempt, is_bound, ExecutionDisposition,
  completed, blocked, unknown_effect, disagreeing_admission,
}
use strongwiz.Orchestration.Begin.{ExecutionDigests, convert}

-- What a call of `execute_once` can change: the registry, the permit, and the commands that the
-- executor has been called with, the last one last.
pub record Bench : Type 0 where
  pub registry : GrantRegistry
  pub permit : DecisionPermit
  pub commands : List ExecutionCommand

abbrev pub Action : Type 0 → Type 0
Action = Exec Bench OrchestrationError

-- `command_error` is the name of the exception that a malformed command raises
module _ (d : ExecutionDigests) (executor : ActionExecutor) (command_error : String) where
  open d use {router}

  -- the tests of the permit against the admission, the executor and the proposal
  unfoldable pub disagrees :
      ExecutionAdmission → DecisionPermit → ExecutionAdmission → CandidateProposal → Bool
  disagrees expected p a proposal =
      not (a == expected)
      || not (p.grant_ref == a.grant_ref)
      || not (p.invocation_id == a.invocation_id)
      || not (p.proposal_ref == a.proposal_ref)
      || not (p.action_ref == a.action_ref)
      || not (p.route_ref == a.route_ref)
      || not (p.control_ref == a.control_ref)
      || not (p.lab_decision_ref == a.lab_decision_ref)
      || not (p.executor_id == a.executor_id)
      || not (p.executor_version == a.executor_version)
      || not (p.executor_artifact_ref == a.executor_artifact_ref)
      || not (a.executor_id == executor.executor_id)
      || not (a.executor_version == executor.executor_version)
      || not (a.executor_artifact_ref == executor.executor_artifact_ref)
      || not (p.observation_id == a.observation_id)
      || not (p.observation_ref == a.observation_ref)
      || not (a.proposal_ref == router.of_proposal proposal)
      || not (a.action_ref == router.of_action proposal.action)

  unfoldable pub release_of : ExecutionAdmission → ℤ → Release
  release_of a boundary = record {
    proposal_ref = a.proposal_ref;
    action_ref = a.action_ref;
    candidate_ref = a.proposal_ref;
    boundary = boundary;
    action_name = a.action_name;
    executor_id = executor.executor_id;
  }

  -- `self._grants._release_permit(permit, ...)`
  unfoldable pub release : Release → Action ReleaseReceipt
  release r b =
      let (result, (g, p)) = release_permit r (b.registry, b.permit) in
      (convert from_authority result, record b { registry = g; permit = p })

  unfoldable pub attempt_of :
      ExecutionAdmission
      → ReleaseReceipt
      → ExecutionDisposition
      → Option String
      → Option String
      → ExecutionAttemptReceipt
  attempt_of a r disposition evidence category = record {
    schema_id = "strongwiz.execution-attempt.v1";
    admission_ref = d.of_admission a;
    release_ref = d.of_release r;
    executor_id = a.executor_id;
    executor_version = a.executor_version;
    executor_artifact_ref = a.executor_artifact_ref;
    proposal_ref = a.proposal_ref;
    action_ref = a.action_ref;
    idempotency_key = d.of_admission a;
    disposition = disposition;
    result_evidence_ref = evidence;
    failure_category = category;
  }

  -- `self._result`, with the attempt that its caller has built
  unfoldable pub conclude :
      ExecutionAdmission
      → ReleaseReceipt
      → ExecutionAttemptReceipt
      → Option EvidenceRef
      → Action ExecutionCallResult
  conclude a r attempt evidence = do
    checked ← lift (validate_attempt attempt)
    pure (record { admission = a; release = r; attempt = checked; observation = evidence })

  unfoldable pub command_of : ExecutionAdmission → CandidateProposal → ExecutionCommand
  command_of a proposal = record {
    invocation_id = a.invocation_id;
    idempotency_key = d.of_admission a;
    grant_ref = a.grant_ref;
    admission_ref = d.of_admission a;
    proposal_ref = a.proposal_ref;
    action_ref = a.action_ref;
    action = proposal.action;
    executor_id = a.executor_id;
    executor_version = a.executor_version;
    executor_artifact_ref = a.executor_artifact_ref;
    non_authorizing = true;
    authority = "NONE";
  }

  -- the `try`: the command is built, and the executor is called with it
  unfoldable pub call_executor : ExecutionCommand → Action ExecutorAnswer
  call_executor c =
      if not (is_bound router.of_action c)
      then pure (raised command_error)
      else (modify (λ b. record b { commands = b.commands ++ c ∷ [] }) >> pure (executor.execute c))

  -- the `except` and what follows the `try`
  unfoldable pub answer :
      ExecutionAdmission → ReleaseReceipt → ExecutorAnswer → Action ExecutionCallResult
  answer a r (observed e) = conclude a r (attempt_of a r completed (some e.sha256) none) (some e)
  answer a r unbound =
      conclude a r
        (attempt_of a r unknown_effect none (some (join "executor_effect_unknown:" "TypeError")))
        none
  answer a r (raised name) =
      conclude a r
        (attempt_of a r unknown_effect none (some (join "executor_effect_unknown:" name))) none

  -- what follows the release
  unfoldable pub carry_out :
      ExecutionAdmission → CandidateProposal → ReleaseReceipt → Action ExecutionCallResult
  carry_out a proposal r = elim r.status [
    | ReleaseStatus.released ↦ call_executor (command_of a proposal) >>= answer a r
    | other ↦ conclude a r (attempt_of a r blocked none (some "grant_revalidation_blocked")) none
  ]

  unfoldable pub execute_once :
      ExecutionAdmission → CandidateProposal → ℤ → Action ExecutionCallResult
  execute_once a proposal boundary = do
    p ← gets (λ b. b.permit)
    expected ← lift (validate_admission (admission_of p.bindings))
    raise_if (disagrees expected p a proposal) disagreeing_admission
    r ← release (release_of a boundary)
    carry_out a proposal r
