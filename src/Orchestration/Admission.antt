-- ===== src/Orchestration/Admission.antt =====
-- The records of orchestration.py and drivers.py that an execution binds, with their validators.
use strongwiz.Base.{
  String, Bool, true, false, not, ◌&&◌, ◌||◌, Option, none, some, [], ◌∷◌, Eq, ◌==◌, has_text, all,
  string_eq, option_eq, String_discrete,
}
use strongwiz.Base.Result.{Result, ok, ◌>>◌, raise_if}
use strongwiz.Contracts.{ActionSpec, Invalid}
use strongwiz.Contracts.Evidence.{EvidenceRef}
use strongwiz.Authority.Permit.{AuthorityError, Bindings, ReleaseReceipt}
use strongwiz.LabPolicy.Reviews.{InvalidReview}

-- The messages of `OrchestrationError`, the errors that pass through, and the `ValueError`s of the
-- records built on the way.
pub data OrchestrationError : Type 0 where
  unadmitted_route foreign_control unguarded_route foreign_proposal : OrchestrationError
  shadow_route foreign_writer foreign_lab_decision uncleared_boundary : OrchestrationError
  stale_proposal disagreeing_context disagreeing_admission : OrchestrationError
  incomplete_admission incomplete_attempt : OrchestrationError
  from_authority : AuthorityError → OrchestrationError
  from_router : Invalid → OrchestrationError
  from_lab : InvalidReview → OrchestrationError

pub record ExecutionAdmission : Type 0 where
  pub schema_id : String
  pub route_ref : String
  pub control_ref : String
  pub lab_decision_ref : String
  pub grant_ref : String
  pub proposal_ref : String
  pub action_ref : String
  pub action_name : String
  pub executor_id : String
  pub executor_version : String
  pub executor_artifact_ref : String
  pub observation_id : String
  pub observation_ref : String
  pub scope_id : String
  pub invocation_id : String
  pub nonexecuting : Bool
  pub effect : String

unfoldable pub ExecutionAdmission-discrete : Discrete ExecutionAdmission
ExecutionAdmission-discrete = hlevel (String_discrete)

instance abbrev pub admission_eq : Eq ExecutionAdmission
admission_eq = record { dec_eq = ExecutionAdmission-discrete }

unfoldable pub validate_admission :
    ExecutionAdmission → Result OrchestrationError ExecutionAdmission
validate_admission a = do
  raise_if
      (not (
        all has_text (
          a.route_ref ∷ a.control_ref ∷ a.lab_decision_ref ∷ a.grant_ref ∷ a.proposal_ref
          ∷ a.action_ref ∷ a.action_name ∷ a.executor_id ∷ a.executor_version
          ∷ a.executor_artifact_ref ∷ a.observation_id ∷ a.observation_ref ∷ a.scope_id
          ∷ a.invocation_id ∷ [])))
      incomplete_admission
  raise_if (not a.nonexecuting || not (a.effect == "NONE")) incomplete_admission
  ok a

-- the admission that repeats a permit's bindings
unfoldable pub admission_of : Bindings → ExecutionAdmission
admission_of b = record {
  schema_id = "strongwiz.execution-admission.v1";
  route_ref = b.route_ref;
  control_ref = b.control_ref;
  lab_decision_ref = b.lab_decision_ref;
  grant_ref = b.grant_ref;
  proposal_ref = b.proposal_ref;
  action_ref = b.action_ref;
  action_name = b.action_name;
  executor_id = b.executor_id;
  executor_version = b.executor_version;
  executor_artifact_ref = b.executor_artifact_ref;
  observation_id = b.observation_id;
  observation_ref = b.observation_ref;
  scope_id = b.scope_id;
  invocation_id = b.invocation_id;
  nonexecuting = true;
  effect = "NONE";
}

pub data ExecutionDisposition : Type 0 where
  completed blocked failed_infrastructure unknown_effect : ExecutionDisposition

unfoldable pub ExecutionDisposition-discrete : Discrete ExecutionDisposition
ExecutionDisposition-discrete = hlevel

instance abbrev pub execution_eq : Eq ExecutionDisposition
execution_eq = record { dec_eq = ExecutionDisposition-discrete }

pub record ExecutionAttemptReceipt : Type 0 where
  pub schema_id : String
  pub admission_ref : String
  pub release_ref : String
  pub executor_id : String
  pub executor_version : String
  pub executor_artifact_ref : String
  pub proposal_ref : String
  pub action_ref : String
  pub idempotency_key : String
  pub disposition : ExecutionDisposition
  pub result_evidence_ref : Option String
  pub failure_category : Option String

-- `value is not None and value.strip()`
abbrev pub names_category : Option String → Bool
names_category none = false
names_category (some s) = has_text s

unfoldable pub validate_attempt :
    ExecutionAttemptReceipt → Result OrchestrationError ExecutionAttemptReceipt
validate_attempt a = do
  raise_if
      (not (
        all has_text (
          a.admission_ref ∷ a.release_ref ∷ a.executor_id ∷ a.executor_version
          ∷ a.executor_artifact_ref ∷ a.proposal_ref ∷ a.action_ref ∷ a.idempotency_key ∷ [])))
      incomplete_attempt
  raise_if
      (a.disposition == completed
        && (a.result_evidence_ref == none || not (a.failure_category == none)))
      incomplete_attempt
  raise_if (not (a.disposition == completed) && not (names_category a.failure_category))
      incomplete_attempt
  ok a

-- `ExecutionCommand` of drivers.py
pub record ExecutionCommand : Type 0 where
  pub invocation_id : String
  pub idempotency_key : String
  pub grant_ref : String
  pub admission_ref : String
  pub proposal_ref : String
  pub action_ref : String
  pub action : ActionSpec
  pub executor_id : String
  pub executor_version : String
  pub executor_artifact_ref : String
  pub non_authorizing : Bool
  pub authority : String

-- `model_post_init`; `digest` is the content digest of actions
unfoldable pub is_bound : (ActionSpec → String) → ExecutionCommand → Bool
is_bound digest c =
    all has_text (
      c.invocation_id ∷ c.idempotency_key ∷ c.grant_ref ∷ c.admission_ref ∷ c.proposal_ref
      ∷ c.action_ref ∷ c.executor_id ∷ c.executor_version ∷ c.executor_artifact_ref ∷ [])
    && c.action_ref == digest c.action
    && c.non_authorizing
    && c.authority == "NONE"

-- what the executor's call does: it returns evidence, returns something else, or raises
pub data ExecutorAnswer : Type 0 where
  observed : EvidenceRef → ExecutorAnswer
  unbound : ExecutorAnswer
  raised : String → ExecutorAnswer

-- `ActionExecutor` of drivers.py, an interface that a program outside fills
pub record ActionExecutor : Type 0 where
  pub executor_id : String
  pub executor_version : String
  pub executor_artifact_ref : String
  pub execute : ExecutionCommand → ExecutorAnswer

-- `ExecutionCallResult`; the observation is here the evidence that it is paired with
pub record ExecutionCallResult : Type 0 where
  pub admission : ExecutionAdmission
  pub release : ReleaseReceipt
  pub attempt : ExecutionAttemptReceipt
  pub observation : Option EvidenceRef
