-- ===== src/Heartbeat/State.antt =====
-- The records of heartbeat.py with their validators.
use strongwiz.Base.{
  is_digest, ℕ, String, Bool, true, not, ◌&&◌, ◌||◌, Option, none, some, List, [], ◌∷◌, ◌==◌, Eq,
  all, contains, is_present, has_text, sorted_set, leb, ltb, string_eq, nat_eq, option_eq, list_eq,
  if◌then◌else◌,
}
use strongwiz.Base.Result.{Result, ok, err, ◌>>◌, raise_if}

pub data BudgetBand : Type 0 where
  healthy watch critical exhausted : BudgetBand

pub data SteeringAperture : Type 0 where
  safe limited closed : SteeringAperture

pub data RiskBand : Type 0 where
  low elevated high : RiskBand

pub data HeartbeatReason : Type 0 where
  initial phase_changed checkpoint_changed active_gate_changed : HeartbeatReason
  budget_band_changed steering_aperture_changed risk_band_changed : HeartbeatReason
  residual_set_changed terminal_state_changed observed_liveness : HeartbeatReason

unfoldable pub BudgetBand-discrete : Discrete BudgetBand
BudgetBand-discrete = hlevel

unfoldable pub SteeringAperture-discrete : Discrete SteeringAperture
SteeringAperture-discrete = hlevel

unfoldable pub RiskBand-discrete : Discrete RiskBand
RiskBand-discrete = hlevel

unfoldable pub HeartbeatReason-discrete : Discrete HeartbeatReason
HeartbeatReason-discrete = hlevel

instance abbrev pub band_eq : Eq BudgetBand
band_eq = record { dec_eq = BudgetBand-discrete }

instance abbrev pub aperture_eq : Eq SteeringAperture
aperture_eq = record { dec_eq = SteeringAperture-discrete }

instance abbrev pub risk_eq : Eq RiskBand
risk_eq = record { dec_eq = RiskBand-discrete }

instance abbrev pub reason_eq : Eq HeartbeatReason
reason_eq = record { dec_eq = HeartbeatReason-discrete }

-- The messages of `HeartbeatError` and of the validators' `ValueError`.
pub data HeartbeatError : Type 0 where
  not_a_digest unsupported_schema missing_field unsorted_residuals : HeartbeatError
  blank_terminal_state wrong_genesis missing_predecessor wrong_reasons : HeartbeatError
  unsorted_reasons no_cause not_liveness missing_evidence unbound_view : HeartbeatError
  unchanged_policy crossed_run lost_predecessor before_genesis : HeartbeatError
  foreign_evidence stale_progress undisplayed : HeartbeatError

unfoldable pub require_digest : String → Result HeartbeatError (Unit {0})
require_digest s = raise_if (not (is_digest s)) not_a_digest

pub record HeartbeatState : Type 0 where
  pub schema_id : String
  pub run_id : String
  pub phase : String
  pub latest_checkpoint_ref : Option String
  pub active_gate : String
  pub budget_band : BudgetBand
  pub budget_snapshot_ref : String
  pub steering_aperture : SteeringAperture
  pub risk_band : RiskBand
  pub residual_refs : List String
  pub terminal_state : Option String

-- the test of an optional text, which `None` passes
unfoldable pub absent_or : (String → Bool) → Option String → Bool
absent_or test none = true
absent_or test (some s) = test s

unfoldable pub validate_state : HeartbeatState → Result HeartbeatError HeartbeatState
unfolding absent_or require_digest
validate_state s = do
  raise_if (not (s.schema_id == "strongwiz.heartbeat-state.v1")) unsupported_schema
  raise_if (not (all has_text (s.run_id ∷ s.phase ∷ s.active_gate ∷ []))) missing_field
  require_digest s.budget_snapshot_ref
  raise_if (not (absent_or is_digest s.latest_checkpoint_ref)) not_a_digest
  raise_if (not (s.residual_refs == sorted_set s.residual_refs)) unsorted_residuals
  raise_if (not (all is_digest s.residual_refs)) not_a_digest
  raise_if (not (absent_or has_text s.terminal_state)) blank_terminal_state
  ok s

-- the place of a reason's value in the order of texts, which `key=str` sorts by
unfoldable pub rank : HeartbeatReason → ℕ
rank active_gate_changed = 0
rank budget_band_changed = 1
rank checkpoint_changed = 2
rank initial = 3
rank observed_liveness = 4
rank phase_changed = 5
rank residual_set_changed = 6
rank risk_band_changed = 7
rank steering_aperture_changed = 8
rank terminal_state_changed = 9

-- `sorted(reasons, key=str)`
unfoldable pub insert_reason : HeartbeatReason → List HeartbeatReason → List HeartbeatReason
insert_reason r [] = r ∷ []
insert_reason r (x ∷ xs) =
    let rest = insert_reason r xs in if leb (rank r) (rank x) then r ∷ x ∷ xs else x ∷ rest

unfoldable pub sorted_reasons : List HeartbeatReason → List HeartbeatReason
unfolding insert_reason
sorted_reasons [] = []
sorted_reasons (r ∷ rs) = insert_reason r (sorted_reasons rs)

-- `tuple(sorted(set(reasons), key=str)) == reasons`: each is before the next
unfoldable pub is_increasing : List HeartbeatReason → Bool
is_increasing [] = true
is_increasing (r ∷ []) = true
is_increasing (r ∷ s ∷ rs) = let rest = is_increasing (s ∷ rs) in ltb (rank r) (rank s) && rest

pub record HeartbeatBoundaryWitness : Type 0 where
  pub schema_id : String
  pub sequence : ℕ
  pub predecessor_ref : Option String
  pub state : HeartbeatState
  pub reasons : List HeartbeatReason
  pub authority : String
  pub effect : String

unfoldable pub validate_witness :
    HeartbeatBoundaryWitness → Result HeartbeatError HeartbeatBoundaryWitness
unfolding is_increasing require_digest
validate_witness w = do
  raise_if (not (w.schema_id == "strongwiz.heartbeat-boundary.v1")) unsupported_schema
  (if w.sequence == 0
      then raise_if (not (w.predecessor_ref == none) || not (w.reasons == initial ∷ []))
          wrong_genesis
      else elim w.predecessor_ref [
        | none ↦ err missing_predecessor
        | some p ↦
            require_digest p
            >> raise_if (not (is_present w.reasons) || contains w.reasons initial) wrong_reasons
      ])
  raise_if (not (is_increasing w.reasons)) unsorted_reasons
  ok w

pub record HeartbeatLivenessEvidence : Type 0 where
  pub schema_id : String
  pub run_id : String
  pub progress_ordinal : ℕ
  pub evidence_ref : String
  pub concise_observation : String

unfoldable pub validate_liveness :
    HeartbeatLivenessEvidence → Result HeartbeatError HeartbeatLivenessEvidence
unfolding require_digest
validate_liveness e = do
  raise_if (not (has_text e.run_id) || not (has_text e.concise_observation)) missing_field
  require_digest e.evidence_ref
  ok e

pub record HeartbeatView : Type 0 where
  pub schema_id : String
  pub run_id : String
  pub phase : String
  pub latest_checkpoint_ref : Option String
  pub active_gate : String
  pub budget_band : BudgetBand
  pub budget_snapshot_ref : String
  pub steering_aperture : SteeringAperture
  pub risk_band : RiskBand
  pub residual_count : ℕ
  pub terminal_state : Option String
  pub boundary_ref : Option String
  pub liveness_evidence_ref : Option String
  pub ephemeral : Bool
  pub claim_ceiling : String
  pub authority : String
  pub effect : String
