-- ===== src/Heartbeat/Observe.antt =====
-- `EventDrivenHeartbeat` of heartbeat.py.
use strongwiz.Base.{
  is_digest, ℕ, ◌+◌, String, Bool, true, false, not, ◌||◌, Option, none, some, List, [], ◌∷◌, ◌==◌,
  all, is_present, has_text, leb, length, string_eq, nat_eq, option_eq, list_eq, if◌then◌else◌,
}
use strongwiz.Base.Result
use strongwiz.Base.Result.{Result, ok, err}
use strongwiz.Base.Exec.{Exec, pure, gets, lift, or_raise, ◌>>=◌, ◌>>◌, raise_if, modify}
use strongwiz.Heartbeat.State.{
  band_eq, aperture_eq, risk_eq, reason_eq, HeartbeatState, HeartbeatBoundaryWitness, HeartbeatView,
  require_digest, HeartbeatReason, HeartbeatError, validate_witness, HeartbeatLivenessEvidence,
  undisplayed, missing_field, phase_changed, crossed_run, no_cause, lost_predecessor, initial,
  before_genesis, checkpoint_changed, sorted_reasons, observed_liveness, foreign_evidence,
  not_a_digest, active_gate_changed, not_liveness, stale_progress, unchanged_policy,
  budget_band_changed, missing_evidence, steering_aperture_changed, unbound_view, risk_band_changed,
  residual_set_changed, terminal_state_changed,
}

-- The content digests of heartbeat.py's values.
pub record HeartbeatDigests : Type 0 where
  pub of_boundary : HeartbeatBoundaryWitness → String
  pub of_view : HeartbeatView → String

pub record HeartbeatEmission : Type 0 where
  pub view : HeartbeatView
  pub durable_boundary : Option HeartbeatBoundaryWitness
  pub reasons : List HeartbeatReason

-- `SteeringChangeReceipt`; the arguments of `record_steering_change` are its middle fields
pub record SteeringChange : Type 0 where
  pub supplied_authority_ref : String
  pub instruction_ref : String
  pub prior_policy_ref : String
  pub resulting_policy_ref : String
  pub reversible : Bool
  pub concise_effect : String

pub record SteeringChangeReceipt : Type 0 where
  pub schema_id : String
  pub run_id : String
  pub displayed_view_ref : String
  pub change : SteeringChange
  pub authority : String

unfoldable pub validate_change : SteeringChangeReceipt → Result HeartbeatError SteeringChangeReceipt
unfolding require_digest
validate_change r =
    Result.◌>>◌
      (Result.raise_if (not (has_text r.run_id) || not (has_text r.change.concise_effect))
        missing_field)
      (Result.◌>>◌
        (Result.raise_if
          (not (
            all is_digest (
              r.displayed_view_ref ∷ r.change.supplied_authority_ref ∷ r.change.instruction_ref
              ∷ r.change.prior_policy_ref ∷ r.change.resulting_policy_ref ∷ [])))
          not_a_digest)
        (Result.◌>>◌
          (Result.raise_if (r.change.prior_policy_ref == r.change.resulting_policy_ref)
            unchanged_policy)
          (ok r)))

-- the reasons whose comparison found a change
unfoldable pub changed : List (Bool × HeartbeatReason) → List HeartbeatReason
changed [] = []
changed ((b, r) ∷ rest) = let others = changed rest in if b then r ∷ others else others

-- `comparisons`
unfoldable pub comparisons : HeartbeatState → HeartbeatState → List (Bool × HeartbeatReason)
comparisons before after =
    (not (before.phase == after.phase), phase_changed)
    ∷ (not (before.latest_checkpoint_ref == after.latest_checkpoint_ref), checkpoint_changed)
    ∷ (not (before.active_gate == after.active_gate), active_gate_changed)
    ∷ (not (before.budget_band == after.budget_band), budget_band_changed)
    ∷ (not (before.steering_aperture == after.steering_aperture), steering_aperture_changed)
    ∷ (not (before.risk_band == after.risk_band), risk_band_changed)
    ∷ (not (before.residual_refs == after.residual_refs), residual_set_changed)
    ∷ (not (before.terminal_state == after.terminal_state), terminal_state_changed)
    ∷ []

-- `_material_reasons`
unfoldable pub material_reasons :
    HeartbeatState → HeartbeatState → Result HeartbeatError (List HeartbeatReason)
material_reasons before after =
    if not (before.run_id == after.run_id)
    then err crossed_run
    else ok (sorted_reasons (changed (comparisons before after)))

pub record Heartbeat : Type 0 where
  pub state : Option HeartbeatState
  pub boundary : Option HeartbeatBoundaryWitness
  pub last_view : Option HeartbeatView
  pub last_liveness_ordinal : Option ℕ

abbrev pub new_heartbeat : Heartbeat
new_heartbeat = record {
  state = none;
  boundary = none;
  last_view = none;
  last_liveness_ordinal = none;
}

abbrev pub Action : Type 0 → Type 0
Action = Exec Heartbeat HeartbeatError

-- `_render`
unfoldable pub render : HeartbeatState → Option String → Option String → HeartbeatView
render s boundary_ref liveness_ref = record {
  schema_id = "strongwiz.heartbeat-view.v1";
  run_id = s.run_id;
  phase = s.phase;
  latest_checkpoint_ref = s.latest_checkpoint_ref;
  active_gate = s.active_gate;
  budget_band = s.budget_band;
  budget_snapshot_ref = s.budget_snapshot_ref;
  steering_aperture = s.steering_aperture;
  risk_band = s.risk_band;
  residual_count = length s.residual_refs;
  terminal_state = s.terminal_state;
  boundary_ref = boundary_ref;
  liveness_evidence_ref = liveness_ref;
  ephemeral = true;
  claim_ceiling = "lossy steering projection only";
  authority = "NONE";
  effect = "NONE";
}

abbrev pub boundary_of :
    ℕ → Option String → HeartbeatState → List HeartbeatReason → HeartbeatBoundaryWitness
boundary_of sequence predecessor s reasons = record {
  schema_id = "strongwiz.heartbeat-boundary.v1";
  sequence = sequence;
  predecessor_ref = predecessor;
  state = s;
  reasons = reasons;
  authority = "EVIDENCE_ONLY";
  effect = "NONE";
}

module _ (d : HeartbeatDigests) where
  -- `HeartbeatEmission.validate_emission`
  unfoldable pub validate_emission : HeartbeatEmission → Result HeartbeatError HeartbeatEmission
  validate_emission e =
      Result.◌>>◌ (Result.raise_if (not (is_present e.reasons)) no_cause) (elim e.durable_boundary [
        | none ↦
            Result.◌>>◌ (Result.raise_if (not (e.reasons == observed_liveness ∷ [])) not_liveness) (
              Result.◌>>◌ (Result.raise_if (e.view.liveness_evidence_ref == none) missing_evidence)
                (ok e))
        | some b ↦
            Result.◌>>◌
              (Result.raise_if
                (not (b.reasons == e.reasons)
                  || not (e.view.boundary_ref == some (d.of_boundary b)))
                unbound_view)
              (ok e)
      ])

  unfoldable pub restore : HeartbeatBoundaryWitness → Heartbeat
  unfolding render
  restore b = record {
    state = some b.state;
    boundary = some b;
    last_view = some (render b.state (some (d.of_boundary b)) none);
    last_liveness_ordinal = none;
  }

  -- the end of `observe`, from the rendering on
  unfoldable pub emit :
      HeartbeatState → HeartbeatBoundaryWitness → Action (Option HeartbeatEmission)
  unfolding validate_emission render
  emit s b = do
    let view = render s (some (d.of_boundary b)) none
    modify (λ h. record h { state = some s; boundary = some b; last_view = some view })
    e ←
        lift (
          validate_emission
            (record { view = view; durable_boundary = some b; reasons = b.reasons }))
    pure (some e)

  -- `observe` where there is a state and there are reasons
  unfoldable pub succeed : HeartbeatState → List HeartbeatReason → Action (Option HeartbeatEmission)
  succeed s reasons = do
    p ← gets (λ h. h.boundary) >>= λ b. or_raise b lost_predecessor
    b ← lift (validate_witness (boundary_of (p.sequence + 1) (some (d.of_boundary p)) s reasons))
    emit s b

  unfoldable pub observe_reasons :
      HeartbeatState → List HeartbeatReason → Action (Option HeartbeatEmission)
  observe_reasons s [] = modify (λ h. record h { state = some s }) >> pure none
  observe_reasons s (r ∷ rs) = succeed s (r ∷ rs)

  unfoldable pub observe_from :
      HeartbeatState → Option HeartbeatState → Action (Option HeartbeatEmission)
  unfolding observe_reasons
  observe_from s none = do
    b ← lift (validate_witness (boundary_of 0 none s (initial ∷ [])))
    emit s b
  observe_from s (some before) = do
    reasons ← lift (material_reasons before s)
    observe_reasons s reasons

  unfoldable pub observe : HeartbeatState → Action (Option HeartbeatEmission)
  unfolding observe_from observe_reasons
  observe s = do before ← gets (λ h. h.state); observe_from s before

  -- the ordinal does not exceed the last one
  unfoldable pub is_stale : ℕ → Option ℕ → Bool
  is_stale n none = false
  is_stale n (some last) = leb n last

  abbrev boundary_digest : Option HeartbeatBoundaryWitness → Option String
  boundary_digest none = none
  boundary_digest (some b) = some (d.of_boundary b)

  unfoldable pub show_liveness : HeartbeatLivenessEvidence → Action HeartbeatEmission
  unfolding is_stale validate_emission render
  show_liveness e = do
    s ← gets (λ h. h.state) >>= λ x. or_raise x before_genesis
    raise_if (not (e.run_id == s.run_id)) foreign_evidence
    raise_if (← gets (λ h. is_stale e.progress_ordinal h.last_liveness_ordinal)) stale_progress
    boundary_ref ← gets (λ h. boundary_digest h.boundary)
    let view = render s boundary_ref (some e.evidence_ref)
    modify
        (λ h. record h { last_liveness_ordinal = some e.progress_ordinal; last_view = some view })
    lift (
        validate_emission
          (record { view = view; durable_boundary = none; reasons = observed_liveness ∷ [] }))

  unfoldable pub record_steering_change : SteeringChange → Action SteeringChangeReceipt
  record_steering_change c = do
    v ← gets (λ h. h.last_view) >>= λ x. or_raise x undisplayed
    lift (
        validate_change (record {
          schema_id = "strongwiz.steering-change.v1";
          run_id = v.run_id;
          displayed_view_ref = d.of_view v;
          change = c;
          authority = "SUPPLIED_EXTERNALLY";
        }))
