-- ===== src/Heartbeat/Trace.antt =====
-- Calls of one heartbeat one after the other, and the boundaries that they make durable.
use strongwiz.Base.{
  is_digest, ◌+◌, String, Bool, true, ◌&&◌, Option, none, some, List, [], ◌∷◌, ◌==◌, ◌≡◌, ◌↔◌, refl,
  arith, is_present, string_eq, nat_eq, option_eq, list_eq, Bool-cases, inl, inr,
}
use strongwiz.Base.Result.{Result, ok, err}
use strongwiz.Heartbeat.State.{
  HeartbeatState, HeartbeatBoundaryWitness, HeartbeatLivenessEvidence, reason_eq, HeartbeatError,
}
use strongwiz.Heartbeat.Observe.{
  Heartbeat, HeartbeatDigests, HeartbeatEmission, changed, comparisons, observe, show_liveness,
  new_heartbeat,
}
use strongwiz.Heartbeat.Order.{IsSameMaterial, unchanged_of_same, IsSameMaterial_of_unchanged}
use strongwiz.Heartbeat.Chain.{observe_next, observe_first}

pub data Call : Type 0 where
  see : HeartbeatState → Call
  live : HeartbeatLivenessEvidence → Call

module _ (d : HeartbeatDigests) where
  durable : Result HeartbeatError (Option HeartbeatEmission) → Option HeartbeatBoundaryWitness
  durable (ok (some e)) = e.durable_boundary
  durable (ok none) = none
  durable (err _) = none

  prepend :
      Option HeartbeatBoundaryWitness
      → List HeartbeatBoundaryWitness
      → List HeartbeatBoundaryWitness
  prepend none bs = bs
  prepend (some b) bs = b ∷ bs

  -- the boundaries made durable by the calls, the first one first
  unfoldable pub boundaries : Heartbeat → List Call → List HeartbeatBoundaryWitness
  unfolding durable prepend
  boundaries h [] = []
  boundaries h (see s ∷ rest) =
      let (r, h') = observe d s h in prepend (durable r) (boundaries h' rest)
  boundaries h (live e ∷ rest) = boundaries (show_liveness d e h).1 rest

  -- the first boundary is a genesis, and each other one names the digest of the one before it and
  -- bears the next number
  abbrev pub IsLinked : Option HeartbeatBoundaryWitness → List HeartbeatBoundaryWitness → Type 0
  IsLinked _ [] = Unit {0}
  IsLinked none (b ∷ bs) = (b.sequence ≡ 0) × (b.predecessor_ref ≡ none) × IsLinked (some b) bs
  IsLinked (some p) (b ∷ bs) =
      (b.sequence ≡ p.sequence + 1)
      × (b.predecessor_ref ≡ some (d.of_boundary p))
      × IsLinked (some b) bs

  -- every state that the calls show is of this run
  abbrev pub is_of_run : String → List Call → Bool
  is_of_run run [] = true
  is_of_run run (see s ∷ rest) = s.run_id == run && is_of_run run rest
  is_of_run run (live _ ∷ rest) = is_of_run run rest

  -- the heartbeat has seen nothing, or has a state of the run and its last boundary
  abbrev pub IsBeating : String → Heartbeat → Option HeartbeatBoundaryWitness → Type 0
  IsBeating run h none = h.state ≡ none
  IsBeating run h (some p) =
      (s : HeartbeatState) × (h.state ≡ some s) × (h.boundary ≡ some p) × (s.run_id ≡ run)

  live_keeps :
      (run : String) (h : Heartbeat) (e : HeartbeatLivenessEvidence)
      (p : Option HeartbeatBoundaryWitness)
      → IsBeating run h p
      → IsBeating run (show_liveness d e h).1 p
  unfolding show_liveness
  live_keeps run h e none new = ground arith
  live_keeps run h e (some p) (s, state, boundary, same) = (s, ground arith, ground arith, same)

  module _ (digests : (b : HeartbeatBoundaryWitness) → is_digest (d.of_boundary b) ≡ true) where
    IsLinked-from :
        (run : String) (h : Heartbeat) (p : Option HeartbeatBoundaryWitness) (calls : List Call)
        → IsBeating run h p
        → is_of_run run calls ≡ true
        → IsLinked p (boundaries h calls)
    unfolding boundaries
    IsLinked-from run h p [] beats runs = tt
    IsLinked-from run h p (live e ∷ rest) beats runs =
        IsLinked-from run (show_liveness d e h).1 p rest (live_keeps run h e p beats) (ground arith)
    IsLinked-from run h none (see s ∷ rest) new runs =
        rw (observe_first d h s new) (
          refl,
          refl,
          IsLinked-from run _ (some _) rest (s, refl, refl, ground arith) (ground arith),
        )
    IsLinked-from run h (some p) (see s ∷ rest) (t, state, boundary, same) runs =
        let next = observe_next d digests h s t p state boundary (ground arith) in
        elim (Bool-cases (is_present (changed (comparisons t s)))) [
          | inl change ↦
              rw (next, change)
                (
                  refl,
                  refl,
                  IsLinked-from run _ (some _) rest (s, refl, refl, ground arith) (ground arith),
                )
          | inr silent ↦
              rw (next, silent)
                (IsLinked-from run _ (some p) rest (s, refl, boundary, ground arith) (ground arith))
        ]

    -- Where digests have the form of SHA-256, every sequence of states of one run and of liveness
    -- evidence, shown to a new heartbeat, makes boundaries durable that form one chain from a
    -- genesis on: each other one names the digest of its predecessor and bears the next number.
    pub boundaries-IsLinked :
        (run : String) (calls : List Call)
        → is_of_run run calls ≡ true
        → IsLinked none (boundaries new_heartbeat calls)
    boundaries-IsLinked run calls runs = IsLinked-from run new_heartbeat none calls refl runs

    -- A heartbeat that has a state and its boundary answers every state of the same run without
    -- raising, and keeps the state. It is silent, and keeps the boundary, exactly when nothing but
    -- the budget snapshot differs from the last state. Otherwise its emission makes a boundary
    -- durable that the heartbeat keeps: one of the new state, with the number after that of the last
    -- boundary, and with the digest of that boundary as its predecessor.
    pub observe_silent_iff :
        (h : Heartbeat) (s before : HeartbeatState) (p : HeartbeatBoundaryWitness)
        → h.state ≡ some before
        → h.boundary ≡ some p
        → before.run_id ≡ s.run_id
        → (x : Option HeartbeatEmission) × ((observe d s h).0 ≡ ok x)
          × ((x ≡ none) ↔ IsSameMaterial before s)
          × ((observe d s h).1.state ≡ some s)
          × (x ≡ none → (observe d s h).1.boundary ≡ some p)
          × ((e : HeartbeatEmission)
              → x ≡ some e
              → (b : HeartbeatBoundaryWitness) × (e.durable_boundary ≡ some b)
                × ((observe d s h).1.boundary ≡ some b)
                × (b.state ≡ s)
                × (b.sequence ≡ p.sequence + 1)
                × (b.predecessor_ref ≡ some (d.of_boundary p)))
    observe_silent_iff h s before p state boundary run =
        let next = observe_next d digests h s before p state boundary run in
        elim (Bool-cases (is_present (changed (comparisons before s)))) [
          | inl change ↦
              rw (next, change)
                (
                  some _,
                  refl,
                  (
                    (λ e. absurd (ground arith)),
                    λ same. ground (arith, unchanged_of_same before s same),
                  ),
                  refl,
                  (λ e. absurd (ground arith)),
                  λ e same. (_, ground arith, refl, refl, refl, refl),
                )
          | inr silent ↦
              rw (next, silent)
                (
                  none,
                  refl,
                  ((λ _. IsSameMaterial_of_unchanged before s silent), λ _. refl),
                  refl,
                  (λ _. boundary),
                  λ e same. absurd (ground arith),
                )
        ]
