-- ===== src/Tests/HeartbeatTests.antt =====
-- The heartbeat over two states of one run.
use strongwiz.Base.{
  is_digest, ℕ_discrete, String, true, none, some, [], ◌∷◌, ◌≡◌, ◌↔◌, refl, all, text_lt, Option,
  String_discrete, string_eq, ◌+◌,
}
use strongwiz.Base.Result.{ok}
use strongwiz.Heartbeat.State.{
  HeartbeatState, HeartbeatBoundaryWitness, healthy, critical, safe, low, initial,
}
use strongwiz.Heartbeat.Observe.{
  Heartbeat, HeartbeatDigests, HeartbeatEmission, boundary_of, new_heartbeat, observe,
}
use strongwiz.Heartbeat.Order.{IsSameMaterial}
use strongwiz.Heartbeat.Trace.{
  see, boundaries, IsLinked, is_of_run, boundaries-IsLinked, observe_silent_iff,
}

abbrev zeros : String
zeros = "0000000000000000000000000000000000000000000000000000000000000000"

abbrev digests : HeartbeatDigests
digests = record { of_boundary = λ b. zeros; of_view = λ v. zeros }

digests_lem : (b : HeartbeatBoundaryWitness) → is_digest (digests.of_boundary b) ≡ true
unfolding is_digest ℕ_discrete
digests_lem b = refl

abbrev calm : HeartbeatState
calm = record {
  schema_id = "strongwiz.heartbeat-state.v1";
  run_id = "run";
  phase = "start";
  latest_checkpoint_ref = none;
  active_gate = "gate";
  budget_band = healthy;
  budget_snapshot_ref = zeros;
  steering_aperture = safe;
  risk_band = low;
  residual_refs = [];
  terminal_state = none;
}

abbrev spent : HeartbeatState
spent = record calm { budget_band = critical }

calls_are_of_run : is_of_run digests "run" (see calm ∷ see spent ∷ see spent ∷ []) ≡ true
unfolding String_discrete
calls_are_of_run = refl

boundaries-IsLinked_example :
    IsLinked digests none (boundaries digests new_heartbeat (see calm ∷ see spent ∷ see spent ∷ []))
boundaries-IsLinked_example =
    boundaries-IsLinked digests digests_lem "run" (see calm ∷ see spent ∷ see spent ∷ [])
      calls_are_of_run

abbrev genesis : HeartbeatBoundaryWitness
genesis = boundary_of 0 none calm (initial ∷ [])

abbrev started : Heartbeat
started = record new_heartbeat { state = some calm; boundary = some genesis }

observe_silent_iff_example :
    (x : Option HeartbeatEmission) × ((observe digests spent started).0 ≡ ok x)
    × ((x ≡ none) ↔ IsSameMaterial calm spent)
    × ((observe digests spent started).1.state ≡ some spent)
    × (x ≡ none → (observe digests spent started).1.boundary ≡ some genesis)
    × ((e : HeartbeatEmission)
        → x ≡ some e
        → (b : HeartbeatBoundaryWitness) × (e.durable_boundary ≡ some b)
          × ((observe digests spent started).1.boundary ≡ some b)
          × (b.state ≡ spent)
          × (b.sequence ≡ genesis.sequence + 1)
          × (b.predecessor_ref ≡ some (digests.of_boundary genesis)))
observe_silent_iff_example =
    observe_silent_iff digests digests_lem started spent calm genesis refl refl refl

-- the values of the reasons by their rank are in the order of texts
ranks_follow_values :
    all
      (λ (pair : String × String). text_lt pair.0 pair.1)
      (("active_gate_changed", "budget_band_changed")
        ∷ ("budget_band_changed", "checkpoint_changed")
        ∷ ("checkpoint_changed", "initial")
        ∷ ("initial", "observed_liveness")
        ∷ ("observed_liveness", "phase_changed")
        ∷ ("phase_changed", "residual_set_changed")
        ∷ ("residual_set_changed", "risk_band_changed")
        ∷ ("risk_band_changed", "steering_aperture_changed")
        ∷ ("steering_aperture_changed", "terminal_state_changed")
        ∷ [])
    ≡ true
unfolding text_lt
ranks_follow_values = refl
