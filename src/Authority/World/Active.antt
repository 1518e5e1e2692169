-- ===== src/Authority/World/Active.antt =====
-- At most one grant is active.
use mathlib.Core.Option.{some-injective}
use strongwiz.Base.{
  ℕ, String, false, some, List, [], ◌∷◌, ◌==◌, ◌≡◌, ◌⊎◌, inl, inr, arith, get_elem?, string_eq,
  nat_eq, option_eq, Option-cases, Bool-cases, ◌≢◌, if◌then◌else◌, ◌↔◌, sym, ◌∙◌, ap,
}
use strongwiz.Base.Result.{Result, ok, err, is_ok}
use strongwiz.Authority.Grant.{TaskGrant, active, superseded, grant_status_eq, grant_eq}
use strongwiz.Authority.Permit.{DecisionPermit, AuthorityError, Bindings}
use strongwiz.Authority.Registry.{
  GrantRegistry, activate, revoke, require_active, finish_reservation, begin_permit,
  reserve_and_issue, Release, release_permit, natural,
}
use strongwiz.Authority.World.Effects.{count_of, activate_refused}
use strongwiz.Authority.Release.{require_effect, effect_of}
use strongwiz.Authority.World.{
  World, new_world, Event, activate_grant, revoke_grant, begin, release, introduce, run, step, true,
  none,
}

-- a status of `active` at this reference makes it the current one
abbrev pub IsExclusiveAt : String → GrantRegistry → Type 0
IsExclusiveAt r g = g.statuses r ≡ some active → g.active_ref ≡ some r

module _ (r : String) where
  activate-IsExclusiveAt :
      (grant_ref : TaskGrant → String) (grant : TaskGrant) (g : GrantRegistry)
      → IsExclusiveAt r g
      → IsExclusiveAt r (activate grant_ref grant g).1
  unfolding activate
  activate-IsExclusiveAt grant_ref grant g x h = ground arith

  revoke-IsExclusiveAt :
      (s : String) (g : GrantRegistry) → IsExclusiveAt r g → IsExclusiveAt r (revoke s g).1
  unfolding revoke
  revoke-IsExclusiveAt s g x h = ground arith

  require_active-IsExclusiveAt :
      (s : String) (t : ℕ) (a b c d e f : String) (g : GrantRegistry)
      → IsExclusiveAt r g
      → IsExclusiveAt r (require_active s t a b c d e f g).1
  unfolding require_active
  require_active-IsExclusiveAt s t a b c d e f g x h = ground arith

  finish_reservation-IsExclusiveAt :
      (s : String) (g : GrantRegistry)
      → IsExclusiveAt r g
      → IsExclusiveAt r (finish_reservation s g).1
  unfolding finish_reservation
  finish_reservation-IsExclusiveAt s g x h = ground arith

  reserve_and_issue-IsExclusiveAt :
      (b : Bindings) (grant : TaskGrant) (g : GrantRegistry)
      → IsExclusiveAt r g
      → IsExclusiveAt r (reserve_and_issue b grant g).1
  unfolding reserve_and_issue
  reserve_and_issue-IsExclusiveAt b grant g x h = ground arith

  reserve_from :
      (b : Bindings) (found : Result AuthorityError TaskGrant) (g : GrantRegistry)
      → IsExclusiveAt r g
      → IsExclusiveAt r
          (elim found as (λ _. Result AuthorityError DecisionPermit × GrantRegistry) [
            | ok grant ↦ reserve_and_issue b grant g
            | err e ↦ (err e, g)
          ]).1
  reserve_from b (ok grant) g x = reserve_and_issue-IsExclusiveAt b grant g x
  reserve_from b (err e) g x = x

  begin_permit-IsExclusiveAt :
      (b : Bindings) (g : GrantRegistry) → IsExclusiveAt r g → IsExclusiveAt r (begin_permit b g).1
  unfolding begin_permit
  begin_permit-IsExclusiveAt b g x =
      reserve_from b _ _ (require_active-IsExclusiveAt _ _ _ _ _ _ _ _ g x)

  release_permit-IsExclusiveAt :
      (rel : Release) (g : GrantRegistry) (p : DecisionPermit)
      → IsExclusiveAt r g
      → IsExclusiveAt r (release_permit rel (g, p)).1.0
  unfolding release_permit
  release_permit-IsExclusiveAt rel g p x h =
      let (_, checked) = require_effect (effect_of rel p) g in
      ground (
        arith,
        finish_reservation-IsExclusiveAt p.grant_ref g x,
        finish_reservation-IsExclusiveAt p.grant_ref checked,
        require_active-IsExclusiveAt p.grant_ref (natural rel.boundary) rel.action_name p.action_ref
            p.executor_id p.executor_version p.executor_artifact_ref p.scope_id g x,
      )

  step-IsExclusiveAt :
      (grant_ref : TaskGrant → String) (e : Event) (w : World)
      → IsExclusiveAt r w.registry
      → IsExclusiveAt r (step grant_ref e w).registry
  unfolding step
  step-IsExclusiveAt grant_ref (activate_grant grant) w x =
      activate-IsExclusiveAt grant_ref grant w.registry x
  step-IsExclusiveAt grant_ref (revoke_grant s) w x = revoke-IsExclusiveAt s w.registry x
  step-IsExclusiveAt grant_ref (begin b) w x = begin_permit-IsExclusiveAt b w.registry x
  step-IsExclusiveAt grant_ref (release i rel) w x = elim (Option-cases (get_elem? w.permits i)) [
    | inl missing ↦ rw (missing, step) x
    | inr (p, at) ↦ rw (at, step) (release_permit-IsExclusiveAt rel w.registry p x)
  ]
  step-IsExclusiveAt grant_ref (introduce p) w x =
      elim (Bool-cases (p.issuer == w.registry.permit_issuer)) [
        | inl own ↦ rw own x
        | inr foreign ↦ rw foreign x
      ]

  pub run-IsExclusiveAt :
      (grant_ref : TaskGrant → String) (es : List Event) (w : World)
      → IsExclusiveAt r w.registry
      → IsExclusiveAt r (run grant_ref es w).registry
  unfolding run
  run-IsExclusiveAt grant_ref [] w x = x
  run-IsExclusiveAt grant_ref (e ∷ es) w x =
      run-IsExclusiveAt grant_ref es (step grant_ref e w) (step-IsExclusiveAt grant_ref e w x)

-- After any calls on a new registry, two grants that both have the status active are one grant,
-- and it is the registry's current one.
pub active_grant_unique :
    (grant_ref : TaskGrant → String) (issuer : ℕ) (es : List Event) (r s : String)
    → let g = (run grant_ref es (new_world issuer)).registry in
      g.statuses r ≡ some active → g.statuses s ≡ some active → (r ≡ s) × (g.active_ref ≡ some r)
active_grant_unique grant_ref issuer es r s hr hs =
    let er = run-IsExclusiveAt r grant_ref es (new_world issuer) (λ h. cc) hr in
    let es' = run-IsExclusiveAt s grant_ref es (new_world issuer) (λ h. cc) hs in (cc, er)

-- what an activation of a grant under this reference leaves in the registry
pub record IsActivated (r : String) (grant : TaskGrant) (g h : GrantRegistry) : Type 0 where
  pub active_ref : h.active_ref ≡ some r
  pub in_force : h.statuses r ≡ some active
  pub statuses :
      (s : String)
      → s ≢ r
      → h.statuses s ≡ (if g.active_ref == some s then some superseded else g.statuses s)
  pub grants : (s : String) → h.grants s ≡ (if s == r then some grant else g.grants s)
  pub charged : (s : String) → count_of h.invocations s ≡ count_of g.invocations s
  pub reserved : (s : String) → count_of h.outstanding s ≡ count_of g.outstanding s

activate_iff :
    (grant_ref : TaskGrant → String) (grant : TaskGrant) (g : GrantRegistry)
    → (is_ok (activate grant_ref grant g).0 ≡ true) ↔ (
        ((g.grants (grant_ref grant) ≡ none) ⊎ (g.grants (grant_ref grant) ≡ some grant))
        × (grant.replaces_grant_ref ≡ g.active_ref))
unfolding activate
activate_iff grant_ref grant g = (λ h. ground arith, λ h. ground arith)

activate-IsActivated :
    (grant_ref : TaskGrant → String) (grant : TaskGrant) (g : GrantRegistry)
    → let (res, h) = activate grant_ref grant g in
      is_ok res ≡ true → (res ≡ ok (grant_ref grant)) × IsActivated (grant_ref grant) grant g h
unfolding activate
activate-IsActivated grant_ref grant g done = (
  ground arith,
  record {
    active_ref = ground arith;
    in_force = ground arith;
    statuses = λ s ne. ground arith;
    grants = λ s. ground arith;
    charged = λ s. ground arith;
    reserved = λ s. ground arith;
  },
)

-- After any calls on a new registry, an activation returns exactly when its reference is new or
-- stores this same grant, and the grant replaces what is current: the current grant, or nothing
-- where there is none. One that returns stores its grant and makes it the current one and the only
-- one with the status active; another grant that was current is superseded, every other status and
-- stored grant stays, and so do the invocations charged and the reservations held by any grant. One
-- that raises changes nothing.
pub activate_replaces :
    (grant_ref : TaskGrant → String) (issuer : ℕ) (es : List Event) (grant : TaskGrant)
    → let g = (run grant_ref es (new_world issuer)).registry in
      let (res, h) = activate grant_ref grant g in
      ((is_ok res ≡ true) ↔ (
        ((g.grants (grant_ref grant) ≡ none) ⊎ (g.grants (grant_ref grant) ≡ some grant))
        × (grant.replaces_grant_ref ≡ g.active_ref)))
      × (((is_ok res ≡ false) × (h ≡ g))
          ⊎ ((res ≡ ok (grant_ref grant))
              × IsActivated (grant_ref grant) grant g h
              × ((s : String) → (h.statuses s ≡ some active) ↔ (s ≡ grant_ref grant))))
activate_replaces grant_ref issuer es grant =
    let g = (run grant_ref es (new_world issuer)).registry in
    let h = (activate grant_ref grant g).1 in
    let only : (s : String) → IsExclusiveAt s h = λ s.
      activate-IsExclusiveAt s grant_ref grant g
        (run-IsExclusiveAt s grant_ref es (new_world issuer) (λ e. cc)) in
    (
      activate_iff grant_ref grant g,
      elim (Bool-cases (is_ok (activate grant_ref grant g).0)) [
        | inl done ↦
            let (named, after) = activate-IsActivated grant_ref grant g done in
            inr (
              named,
              after,
              λ s. (
                (λ e. some-injective s (grant_ref grant) (sym (only s e) ∙ after.active_ref)),
                λ e. ap h.statuses e ∙ after.in_force,
              ),
            )
        | inr raised ↦ inl (raised, activate_refused grant_ref grant g raised)
      ],
    )
