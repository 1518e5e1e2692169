-- ===== src/Heartbeat/Order.antt =====
-- The order of the reasons, and when there are any.
use strongwiz.Base.{
  ℕ_discrete, ℕ, Bool, true, false, not, ◌&&◌, List, [], ◌∷◌, ◌==◌, ◌≡◌, refl, arith, contains,
  is_present, ltb, string_eq, nat_eq, option_eq, list_eq,
}
use strongwiz.Heartbeat.State.{
  HeartbeatState, HeartbeatReason, reason_eq, rank, insert_reason, sorted_reasons, is_increasing,
  initial,
}
use strongwiz.Heartbeat.Observe.{changed, comparisons}

-- the reason comes before all of these
abbrev before_all : ℕ → List HeartbeatReason → Bool
before_all n [] = true
before_all n (x ∷ xs) = ltb n (rank x) && before_all n xs

abbrev absent : ℕ → List HeartbeatReason → Bool
absent n [] = true
absent n (x ∷ xs) = not (rank x == n) && absent n xs

absent-insert_reason :
    (n : ℕ) (r : HeartbeatReason) (xs : List HeartbeatReason)
    → absent n (insert_reason r xs) ≡ (not (rank r == n) && absent n xs)
unfolding insert_reason
absent-insert_reason n r [] = refl
absent-insert_reason n r (x ∷ xs) = ground (arith, absent-insert_reason n r xs)

absent-sorted_reasons :
    (n : ℕ) (xs : List HeartbeatReason) → absent n (sorted_reasons xs) ≡ absent n xs
unfolding sorted_reasons
absent-sorted_reasons n [] = refl
absent-sorted_reasons n (x ∷ xs) = rw (absent-insert_reason, absent-sorted_reasons n xs) refl

increasing_insert :
    (r : HeartbeatReason) (xs : List HeartbeatReason)
    → is_increasing xs ≡ true
    → absent (rank r) xs ≡ true
    → is_increasing (insert_reason r xs) ≡ true
unfolding insert_reason is_increasing
increasing_insert r [] h k = refl
increasing_insert r (x ∷ []) h k = ground arith
increasing_insert r (x ∷ y ∷ ys) h k = ground (arith, increasing_insert r (y ∷ ys))

-- no two reasons have one rank
abbrev distinct : List HeartbeatReason → Bool
distinct [] = true
distinct (x ∷ xs) = absent (rank x) xs && distinct xs

increasing_sorted :
    (xs : List HeartbeatReason) → distinct xs ≡ true → is_increasing (sorted_reasons xs) ≡ true
unfolding sorted_reasons is_increasing
increasing_sorted [] h = refl
increasing_sorted (x ∷ xs) h =
    increasing_insert x (sorted_reasons xs) (increasing_sorted xs (ground arith))
      (rw absent-sorted_reasons (ground arith))

abbrev snds : List (Bool × HeartbeatReason) → List HeartbeatReason
snds [] = []
snds ((_, r) ∷ rest) = r ∷ snds rest

absent-changed :
    (n : ℕ) (cs : List (Bool × HeartbeatReason))
    → absent n (snds cs) ≡ true
    → absent n (changed cs) ≡ true
unfolding changed
absent-changed n [] h = refl
absent-changed n ((b, r) ∷ rest) h = ground (arith, absent-changed n rest)

distinct-changed :
    (cs : List (Bool × HeartbeatReason)) → distinct (snds cs) ≡ true → distinct (changed cs) ≡ true
unfolding changed
distinct-changed [] h = refl
distinct-changed ((b, r) ∷ rest) h =
    ground (arith, distinct-changed rest, absent-changed (rank r) rest)

is_present-insert_reason :
    (r : HeartbeatReason) (xs : List HeartbeatReason) → is_present (insert_reason r xs) ≡ true
unfolding insert_reason
is_present-insert_reason r [] = refl
is_present-insert_reason r (x ∷ xs) = ground arith

pub is_present-sorted_reasons :
    (xs : List HeartbeatReason) → is_present (sorted_reasons xs) ≡ is_present xs
unfolding sorted_reasons
is_present-sorted_reasons [] = refl
is_present-sorted_reasons (x ∷ xs) = is_present-insert_reason x (sorted_reasons xs)

not_contained :
    (xs : List HeartbeatReason) → absent (rank initial) xs ≡ true → contains xs initial ≡ false
not_contained [] h = refl
not_contained (x ∷ xs) h = ground (arith, not_contained xs)

module _ (before after : HeartbeatState) where
  pub increasing_reasons :
      is_increasing (sorted_reasons (changed (comparisons before after))) ≡ true
  unfolding comparisons rank ℕ_discrete
  increasing_reasons = increasing_sorted _ (distinct-changed (comparisons before after) refl)

  pub not_initial : contains (sorted_reasons (changed (comparisons before after))) initial ≡ false
  unfolding comparisons rank ℕ_discrete
  not_initial =
      not_contained _
        (rw absent-sorted_reasons (absent-changed (rank initial) (comparisons before after) refl))

  -- nothing that the steering interface promises has changed, but for the budget snapshot
  pub record IsSameMaterial : Type 0 where
    pub phase : before.phase ≡ after.phase
    pub checkpoint : before.latest_checkpoint_ref ≡ after.latest_checkpoint_ref
    pub gate : before.active_gate ≡ after.active_gate
    pub band : before.budget_band ≡ after.budget_band
    pub aperture : before.steering_aperture ≡ after.steering_aperture
    pub risk : before.risk_band ≡ after.risk_band
    pub residuals : before.residual_refs ≡ after.residual_refs
    pub terminal : before.terminal_state ≡ after.terminal_state

  pub IsSameMaterial_of_unchanged :
      is_present (changed (comparisons before after)) ≡ false → IsSameMaterial
  unfolding changed comparisons
  IsSameMaterial_of_unchanged h = record {
    phase = ground arith;
    checkpoint = ground arith;
    gate = ground arith;
    band = ground arith;
    aperture = ground arith;
    risk = ground arith;
    residuals = ground arith;
    terminal = ground arith;
  }

  pub unchanged_of_same : IsSameMaterial → is_present (changed (comparisons before after)) ≡ false
  unfolding changed comparisons
  unchanged_of_same m = ground arith
