-- ===== src/Authority/World/Effects.antt =====
-- What each method of the registry leaves unchanged, and how it moves the counters.
use strongwiz.Base.{
  ℕ, ◌+◌, ◌-◌, ◌<◌, String, false, some, ◌≡◌, arith, refl, string_eq, pair_eq, nat_eq, option_eq,
  ◌⊎◌, ◌∷◌, contains, inl, inr, true, ◌==◌,
}
use strongwiz.Base.Result.{Result, ok, err, is_ok}
use strongwiz.Base.Map.{get_or, insert, Map}
use strongwiz.Authority.Grant.{TaskGrant}
use strongwiz.Authority.Permit.{AuthorityError, Bindings, DecisionPermit, new_permit}
use strongwiz.Authority.Registry.{
  GrantRegistry, revoke, require_active, finish_reservation, reserve_and_issue, begin_permit,
  release_permit, Release, activate, natural,
}

-- two registries that differ in statuses and the active reference at most
pub record SameCounters (g h : GrantRegistry) : Type 0 where
  pub grants : h.grants ≡ g.grants
  pub invocations : h.invocations ≡ g.invocations
  pub outstanding : h.outstanding ≡ g.outstanding
  pub invocation_ids : h.invocation_ids ≡ g.invocation_ids
  pub serial_tokens : h.serial_tokens ≡ g.serial_tokens
  pub permit_issuer : h.permit_issuer ≡ g.permit_issuer

pub revoke-SameCounters : (r : String) (g : GrantRegistry) → SameCounters g (revoke r g).1
unfolding revoke
revoke-SameCounters r g = ground arith

pub require_active-SameCounters :
    (r : String) (t : ℕ) (a b c d e s : String) (g : GrantRegistry)
    → SameCounters g (require_active r t a b c d e s g).1
unfolding require_active
require_active-SameCounters r t a b c d e s g = ground arith

-- the grant of a call that `_require_active` lets pass
pub require_active-known :
    (r : String) (t : ℕ) (a b c d e s : String) (g : GrantRegistry) (grant : TaskGrant)
    → (require_active r t a b c d e s g).0 ≡ ok grant
    → g.grants r ≡ some grant
unfolding require_active
require_active-known r t a b c d e s g grant h = ground arith

-- the counter of a key, 0 where there is none
abbrev pub count_of : Map String ℕ → String → ℕ
count_of m r = get_or (m r) 0

-- `h` is `g` after the writes of `_begin_permit` to its counters
pub record IsReserved (b : Bindings) (grant : TaskGrant) (g h : GrantRegistry) : Type 0 where
  pub known : g.grants b.grant_ref ≡ some grant
  pub in_budget : count_of g.invocations b.grant_ref < grant.maximum_invocations
  pub grants : h.grants ≡ g.grants
  pub invocations :
      h.invocations ≡ insert b.grant_ref (count_of g.invocations b.grant_ref + 1) g.invocations
  pub outstanding :
      h.outstanding ≡ insert b.grant_ref (count_of g.outstanding b.grant_ref + 1) g.outstanding
  pub invocation_ids : h.invocation_ids ≡ (b.grant_ref, b.invocation_id) ∷ g.invocation_ids
  pub serial_tokens : h.serial_tokens ≡ b.token ∷ g.serial_tokens
  pub new_invocation : contains g.invocation_ids (b.grant_ref, b.invocation_id) ≡ false
  pub new_token : contains g.serial_tokens b.token ≡ false
  pub permit_issuer : h.permit_issuer ≡ g.permit_issuer

-- how `_begin_permit` ends: refused before it writes a counter, or after the reservation
abbrev pub Begun :
    Bindings → GrantRegistry → Result AuthorityError DecisionPermit × GrantRegistry → Type 0
Begun b g (res, h) =
    ((is_ok res ≡ false) × SameCounters g h)
    ⊎ ((grant : TaskGrant) × IsReserved b grant g h × (res ≡ new_permit g.permit_issuer b))

reserve_and_issue_lem :
    (b : Bindings) (grant : TaskGrant) (g : GrantRegistry)
    → g.grants b.grant_ref ≡ some grant
    → let (res, h) = reserve_and_issue b grant g in
      ((is_ok res ≡ false) × SameCounters g h)
      ⊎ (IsReserved b grant g h × (res ≡ new_permit g.permit_issuer b))
unfolding reserve_and_issue
reserve_and_issue_lem b grant g known = ground arith

-- the rest of `_begin_permit` from a registry `h` with the counters of `g`
begin_from :
    (b : Bindings) (g h : GrantRegistry) (found : Result AuthorityError TaskGrant)
    → SameCounters g h
    → ((grant : TaskGrant) → found ≡ ok grant → g.grants b.grant_ref ≡ some grant)
    → Begun b g (elim found [ ok grant ↦ reserve_and_issue b grant h | err e ↦ (err e, h) ])
begin_from b g h (err e) same known = inl (refl, same)
begin_from b g h (ok grant) same known =
    elim (reserve_and_issue_lem b grant h (rw same.grants (known grant refl))) [
      | inl (no_permit, kept) ↦ inl (no_permit, ground arith)
      | inr (kept, issued) ↦ inr (grant, ground arith, ground arith)
    ]

pub begin_permit_lem : (b : Bindings) (g : GrantRegistry) → Begun b g (begin_permit b g)
unfolding begin_permit
begin_permit_lem b g =
    let (found, h) =
      require_active b.grant_ref b.boundary b.action_name b.action_ref b.executor_id
        b.executor_version b.executor_artifact_ref b.scope_id g in
    begin_from b g h found (require_active-SameCounters _ _ _ _ _ _ _ _ g)
      (require_active-known _ _ _ _ _ _ _ _ g)

-- `_finish_reservation` where there is something to finish
pub record IsFinished (r : String) (g h : GrantRegistry) : Type 0 where
  pub outstanding : h.outstanding ≡ insert r (count_of g.outstanding r - 1) g.outstanding
  pub grants : h.grants ≡ g.grants
  pub invocations : h.invocations ≡ g.invocations
  pub invocation_ids : h.invocation_ids ≡ g.invocation_ids
  pub serial_tokens : h.serial_tokens ≡ g.serial_tokens
  pub permit_issuer : h.permit_issuer ≡ g.permit_issuer

pub finish_reservation-IsFinished :
    (r : String) (g : GrantRegistry)
    → 0 < count_of g.outstanding r
    → IsFinished r g (finish_reservation r g).1
unfolding finish_reservation
finish_reservation-IsFinished r g h = ground arith

-- `_finish_reservation` returns when the grant and its counter are known
pub finish_reservation-is_ok :
    (r : String) (g : GrantRegistry) (grant : TaskGrant) (used : ℕ)
    → 0 < count_of g.outstanding r
    → g.grants r ≡ some grant
    → g.invocations r ≡ some used
    → is_ok (finish_reservation r g).0 ≡ true
unfolding finish_reservation
finish_reservation-is_ok r g grant used h known charged = ground arith

-- A permit of another registry, or a used one, is refused, and nothing is written.
pub release_permit_refused :
    (r : Release) (g : GrantRegistry) (p : DecisionPermit)
    → (p.issuer == g.permit_issuer) ≡ false ⊎ (p.used ≡ true)
    → (is_ok (release_permit r (g, p)).0 ≡ false) × ((release_permit r (g, p)).1 ≡ (g, p))
unfolding release_permit
release_permit_refused r g p why = ground arith

-- Any other release spends the permit and takes back one reservation, whatever its outcome.
module _ (r : Release) (g : GrantRegistry) (p : DecisionPermit)
    (own : (p.issuer == g.permit_issuer) ≡ true) (fresh : p.used ≡ false)
    (held : 0 < count_of g.outstanding p.grant_ref) where
  pub release_permit_spends : (release_permit r (g, p)).1.1 ≡ record p { used = true }
  unfolding release_permit
  release_permit_spends = ground arith

  pub release_permit-IsFinished : IsFinished p.grant_ref g (release_permit r (g, p)).1.0
  unfolding release_permit
  release_permit-IsFinished =
      let checked : GrantRegistry =
        (require_active p.grant_ref (natural r.boundary) r.action_name p.action_ref p.executor_id
          p.executor_version p.executor_artifact_ref p.scope_id g).1 in
      ground (
        arith,
        finish_reservation-IsFinished p.grant_ref g held,
        finish_reservation-IsFinished p.grant_ref checked,
        require_active-SameCounters p.grant_ref (natural r.boundary) r.action_name p.action_ref
            p.executor_id p.executor_version p.executor_artifact_ref p.scope_id g,
      )

module _ (grant_ref : TaskGrant → String) where
  pub activate_refused :
      (grant : TaskGrant) (g : GrantRegistry)
      → is_ok (activate grant_ref grant g).0 ≡ false
      → (activate grant_ref grant g).1 ≡ g
  unfolding activate
  activate_refused grant g h = ground arith
