-- ===== src/Authority/Permit.antt =====
-- `DecisionPermit` and `ReleaseReceipt` of authority.py.
use strongwiz.Base.{
  ℕ, String, Bool, true, false, Option, [], ◌∷◌, is_nonempty, all, ◌==◌, nat_eq, if◌then◌else◌,
}
use strongwiz.Base.Exec.{Exec, gets, ◌>>=◌, ◌>>◌, raise_if, modify}
use strongwiz.Base.Result.{Result, ok, err}

-- The messages of the `AuthorityError`s. `missing_key` stands for the `KeyError` of a subscript
-- that the source does not guard, and `negative_boundary` for the `ValidationError` of a receipt whose
-- boundary is below zero.
pub data AuthorityError : Type 0 where
  rewritten_grant inexact_replacement absent_replacement not_revocable : AuthorityError
  unknown_grant not_active not_yet_active grant_expired action_outside action_ref_outside :
      AuthorityError
  executor_outside executor_version_outside scope_outside : AuthorityError
  serial_token_reused invocation_reused budget_exhausted : AuthorityError
  missing_permit_binding permit_consumed permit_foreign permit_used : AuthorityError
  no_reservation missing_key negative_boundary : AuthorityError

-- The exact bindings of one permit: the arguments of `_begin_permit`. `token` is `serial_token`.
pub record Bindings : Type 0 where
  pub token : String
  pub grant_ref : String
  pub invocation_id : String
  pub proposal_ref : String
  pub action_ref : String
  pub action_name : String
  pub executor_id : String
  pub executor_version : String
  pub executor_artifact_ref : String
  pub observation_id : String
  pub observation_ref : String
  pub scope_id : String
  pub route_ref : String
  pub control_ref : String
  pub lab_decision_ref : String
  pub boundary : ℕ

-- `issuer` is the identity of the registry's private object; `used` is the one mutable field.
pub record DecisionPermit : Type 0 where
  pub bindings : Bindings
  pub open bindings use *
  pub issuer : ℕ
  pub used : Bool

-- `DecisionPermit.__init__`
unfoldable pub new_permit : ℕ → Bindings → Result AuthorityError DecisionPermit
new_permit issuer b =
    if all is_nonempty (
      b.token ∷ b.grant_ref ∷ b.invocation_id ∷ b.proposal_ref ∷ b.action_ref ∷ b.action_name
      ∷ b.executor_id ∷ b.executor_version ∷ b.executor_artifact_ref ∷ b.observation_id
      ∷ b.observation_ref ∷ b.scope_id ∷ b.route_ref ∷ b.control_ref ∷ b.lab_decision_ref ∷ [])
    then ok (record { bindings = b; issuer = issuer; used = false })
    else err missing_permit_binding

-- `DecisionPermit.consume`
unfoldable pub consume : Exec DecisionPermit AuthorityError (Unit {0})
consume = do raise_if (← gets (λ p. p.used)) permit_consumed; modify (λ p. record p { used = true })

-- `DecisionPermit.issued_by`
unfoldable pub issued_by : ℕ → DecisionPermit → Bool
issued_by issuer p = p.issuer == issuer

pub data ReleaseStatus : Type 0 where
  released blocked quarantined : ReleaseStatus

-- The texts of `ReleaseReceipt.reason`.
pub data ReleaseReason : Type 0 where
  bindings_differ : ReleaseReason
  control_changed : AuthorityError → ReleaseReason
  revalidated : ReleaseReason

-- The receipt repeats the permit's bindings; `boundary` is that of the release.
pub record ReleaseReceipt : Type 0 where
  pub bindings : Bindings
  pub candidate_ref : Option String
  pub status : ReleaseStatus
  pub reason : ReleaseReason
  pub release_boundary : ℕ
  pub output_destination_ref : Option String
