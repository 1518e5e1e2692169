-- ===== src/Heartbeat/Chain.antt =====
-- The boundaries that a heartbeat emits, linked one to the next.
use strongwiz.Base.{
  is_digest, ◌+◌, true, none, some, [], ◌∷◌, ◌≡◌, refl, arith, is_present, string_eq, nat_eq,
  option_eq, list_eq, if◌then◌else◌,
}
use strongwiz.Base.Result.{ok}
use strongwiz.Heartbeat.State.{
  HeartbeatState, HeartbeatBoundaryWitness, reason_eq, sorted_reasons, validate_witness,
  require_digest, is_increasing, initial,
}
use strongwiz.Heartbeat.Observe.{
  Heartbeat, HeartbeatDigests, HeartbeatEmission, boundary_of, changed, comparisons, render,
  observe, emit, validate_emission, observe_from, observe_reasons, succeed, material_reasons,
}
use strongwiz.Heartbeat.Order.{increasing_reasons, not_initial, is_present-sorted_reasons}

-- the boundary and the emission that follow from a change
module _ (d : HeartbeatDigests) where
  abbrev pub next_boundary :
      HeartbeatBoundaryWitness → HeartbeatState → HeartbeatState → HeartbeatBoundaryWitness
  next_boundary p before s =
      boundary_of (p.sequence + 1) (some (d.of_boundary p)) s
        (sorted_reasons (changed (comparisons before s)))

  abbrev pub emission_of : HeartbeatState → HeartbeatBoundaryWitness → HeartbeatEmission
  emission_of s b = record {
    view = render s (some (d.of_boundary b)) none;
    durable_boundary = some b;
    reasons = b.reasons;
  }

  abbrev pub after_emission : Heartbeat → HeartbeatState → HeartbeatBoundaryWitness → Heartbeat
  after_emission h s b = record h {
    state = some s;
    boundary = some b;
    last_view = some (render s (some (d.of_boundary b)) none);
  }

  emit_lem :
      (h : Heartbeat) (s : HeartbeatState) (b : HeartbeatBoundaryWitness)
      → is_present b.reasons ≡ true
      → emit d s b h ≡ (ok (some (emission_of s b)), after_emission h s b)
  unfolding emit validate_emission render
  emit_lem h s b present = ground arith

  pub observe_first :
      (h : Heartbeat) (s : HeartbeatState)
      → h.state ≡ none
      → observe d s h ≡ (
        ok (some (emission_of s (boundary_of 0 none s (initial ∷ [])))),
        after_emission h s (boundary_of 0 none s (initial ∷ [])),
      )
  unfolding observe observe_from validate_witness is_increasing
  observe_first h s new = ground (arith, emit_lem h s (boundary_of 0 none s (initial ∷ [])) refl)

  module _ (digests : (b : HeartbeatBoundaryWitness) → is_digest (d.of_boundary b) ≡ true) where
    next_valid :
        (p : HeartbeatBoundaryWitness) (before s : HeartbeatState)
        → is_present (changed (comparisons before s)) ≡ true
        → validate_witness (next_boundary p before s) ≡ ok (next_boundary p before s)
    unfolding validate_witness require_digest
    next_valid p before s present = ground (
      arith,
      digests p,
      increasing_reasons before s,
      not_initial before s,
      is_present-sorted_reasons (changed (comparisons before s)),
    )

    pub observe_next :
        (h : Heartbeat) (s before : HeartbeatState) (p : HeartbeatBoundaryWitness)
        → h.state ≡ some before
        → h.boundary ≡ some p
        → before.run_id ≡ s.run_id
        → observe d s h ≡ (
            if is_present (changed (comparisons before s))
            then (
              ok (some (emission_of s (next_boundary p before s))),
              after_emission h s (next_boundary p before s),
            )
            else (ok none, record h { state = some s }))
    unfolding observe observe_from observe_reasons succeed material_reasons
    observe_next h s before p state boundary run = ground (
      arith,
      next_valid p before s,
      is_present-sorted_reasons (changed (comparisons before s)),
      emit_lem h s (next_boundary p before s),
    )
