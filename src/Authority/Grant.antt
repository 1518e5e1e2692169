-- ===== src/Authority/Grant.antt =====
-- `TaskGrant` of authority.py: an externally rooted, bounded permission, with its validator.
use strongwiz.Base.{
  ℕ, String, Bool, not, ◌||◌, Option, List, [], ◌∷◌, Eq, has_text, all, is_unique, is_present, ltb,
  string_eq, String_discrete, ℕ_discrete,
}
use strongwiz.Base.Result.{Result, ok, ◌>>◌, raise_if}

pub data GrantSource : Type 0 where
  human external_control system_policy : GrantSource

pub data GrantStatus : Type 0 where
  active revoked superseded expired exhausted : GrantStatus

pub record TaskGrant : Type 0 where
  pub schema_id : String
  pub root_ref : String
  pub source : GrantSource
  pub task_id : String
  pub goal_id : String
  pub goal_ref : String
  pub scope_id : String
  pub generation : ℕ
  pub issued_boundary : ℕ
  pub not_before_boundary : ℕ
  pub expires_boundary : ℕ
  pub maximum_invocations : ℕ
  pub allowed_action_names : List String
  pub allowed_action_refs : List String
  pub executor_id : String
  pub executor_version : String
  pub executor_artifact_ref : String
  pub output_destination_ref : String
  pub release_review_required : Bool
  pub maximum_attention_units : ℕ
  pub replaces_grant_ref : Option String

unfoldable pub GrantSource-discrete : Discrete GrantSource
GrantSource-discrete = hlevel

unfoldable pub GrantStatus-discrete : Discrete GrantStatus
GrantStatus-discrete = hlevel

unfoldable pub TaskGrant-discrete : Discrete TaskGrant
TaskGrant-discrete = hlevel (String_discrete, ℕ_discrete, GrantSource-discrete)

instance abbrev pub grant_status_eq : Eq GrantStatus
grant_status_eq = record { dec_eq = GrantStatus-discrete }

instance abbrev pub grant_eq : Eq TaskGrant
grant_eq = record { dec_eq = TaskGrant-discrete }

-- The messages of the `ValueError`s; `nonpositive_budget` is the field's type `PositiveInt`.
pub data InvalidGrant : Type 0 where
  missing_binding begins_before_issue expires_before_start no_action_aperture : InvalidGrant
  duplicate_aperture nonpositive_budget : InvalidGrant

unfoldable pub validate_grant : TaskGrant → Result InvalidGrant TaskGrant
validate_grant g = do
  raise_if (not (ltb 0 g.maximum_invocations)) nonpositive_budget
  raise_if
      (not (
        all has_text (
          g.root_ref ∷ g.task_id ∷ g.goal_id ∷ g.goal_ref ∷ g.scope_id ∷ g.executor_id
          ∷ g.executor_version ∷ g.executor_artifact_ref ∷ g.output_destination_ref ∷ [])))
      missing_binding
  raise_if (ltb g.not_before_boundary g.issued_boundary) begins_before_issue
  raise_if (ltb g.expires_boundary g.not_before_boundary) expires_before_start
  raise_if (not (is_present g.allowed_action_names)) no_action_aperture
  raise_if (not (is_unique g.allowed_action_names) || not (is_unique g.allowed_action_refs))
      duplicate_aperture
  ok g
