-- ===== src/Authority/World/Budget.antt =====
-- The counters of the registry bound the permits that are about, after any calls.
use strongwiz.Base.{
  ℕ, ◌≤◌, ◌<◌, String, true, false, some, List, [], ◌∷◌, ◌++◌, ◌==◌, ◌≡◌, refl, arith, tally,
  tally-append, tally-set, tally-pos, get_elem?, set, string_eq, nat_eq, option_eq, pair_eq, ◌⊎◌,
  inl, inr, Option-cases, Bool-cases, set_same, sym,
}
use mathlib.Core.List.{append-nil}
use strongwiz.Base.Result.{Result, ok, err}
use strongwiz.Base.Map.{has_key}
use strongwiz.Authority.Grant.{TaskGrant, grant_eq}
use strongwiz.Authority.Permit.{Bindings, DecisionPermit, new_permit, AuthorityError}
use strongwiz.Authority.Registry.{GrantRegistry, activate, begin_permit, Release, release_permit}
use strongwiz.Authority.World.{
  World, new_world, Event, activate_grant, revoke_grant, begin, release, introduce, step, run,
  is_for, is_open, issued,
}
use strongwiz.Authority.World.Effects.{
  SameCounters, IsReserved, IsFinished, Begun, count_of, begin_permit_lem, revoke-SameCounters,
  release_permit_refused, release_permit_spends, release_permit-IsFinished,
}

-- The counters of one grant reference.
pub record IsAccountedAt (g : GrantRegistry) (permits : List DecisionPermit) (r : String)
    : Type 0 where
  pub issued_le : tally (is_for g.permit_issuer r) permits ≤ count_of g.invocations r
  pub open_le : tally (is_open g.permit_issuer r) permits ≤ count_of g.outstanding r
  pub within :
      (grant : TaskGrant)
      → g.grants r ≡ some grant
      → count_of g.invocations r ≤ grant.maximum_invocations
  pub keyed : has_key g.invocations r ≡ has_key g.grants r
  pub held : has_key g.outstanding r ≡ has_key g.grants r

abbrev pub IsAccounted : World → Type 0
IsAccounted w = (r : String) → IsAccountedAt w.registry w.permits r

same-IsAccountedAt :
    (g h : GrantRegistry) (ps : List DecisionPermit) (r : String)
    → SameCounters g h
    → IsAccountedAt g ps r
    → IsAccountedAt h ps r
same-IsAccountedAt g h ps r same a = record {
  issued_le = ground arith;
  open_le = ground arith;
  within = λ grant known. ground (arith, a.within grant);
  keyed = ground arith;
  held = ground arith;
}

module _ (grant_ref : TaskGrant → String) where
  activate-IsAccountedAt :
      (grant : TaskGrant) (g : GrantRegistry) (ps : List DecisionPermit) (r : String)
      → IsAccountedAt g ps r
      → IsAccountedAt (activate grant_ref grant g).1 ps r
  unfolding activate
  activate-IsAccountedAt grant g ps r a = record {
    issued_le = ground arith;
    open_le = ground arith;
    within = λ x known. ground (arith, a.within x);
    keyed = ground arith;
    held = ground arith;
  }

reserved-IsAccountedAt :
    (b : Bindings) (grant : TaskGrant) (g h : GrantRegistry) (ps : List DecisionPermit) (r : String)
    → IsReserved b grant g h
    → IsAccountedAt g ps r
    → IsAccountedAt h ps r
reserved-IsAccountedAt b grant g h ps r res a = record {
  issued_le = ground arith;
  open_le = ground arith;
  within = λ x known. ground (arith, a.within x);
  keyed = ground arith;
  held = ground arith;
}

issued-IsAccountedAt :
    (b : Bindings) (grant : TaskGrant) (g h : GrantRegistry) (ps : List DecisionPermit)
    (p : DecisionPermit) (r : String)
    → IsReserved b grant g h
    → new_permit g.permit_issuer b ≡ ok p
    → IsAccountedAt g ps r
    → IsAccountedAt h (ps ++ p ∷ []) r
unfolding new_permit
issued-IsAccountedAt b grant g h ps p r res made a = record {
  issued_le = ground (arith, tally-append (is_for h.permit_issuer r) ps (p ∷ []));
  open_le = ground (arith, tally-append (is_open h.permit_issuer r) ps (p ∷ []));
  within = λ x known. ground (arith, a.within x);
  keyed = ground arith;
  held = ground arith;
}

foreign-IsAccountedAt :
    (g : GrantRegistry) (ps : List DecisionPermit) (p : DecisionPermit) (r : String)
    → (p.issuer == g.permit_issuer) ≡ false
    → IsAccountedAt g ps r
    → IsAccountedAt g (ps ++ p ∷ []) r
foreign-IsAccountedAt g ps p r foreign a = record {
  issued_le = ground (arith, tally-append (is_for g.permit_issuer r) ps (p ∷ []));
  open_le = ground (arith, tally-append (is_open g.permit_issuer r) ps (p ∷ []));
  within = a.within;
  keyed = a.keyed;
  held = a.held;
}

-- an unused permit of this registry has a reservation to give back
pub held_by_open :
    (g : GrantRegistry) (ps : List DecisionPermit) (i : ℕ) (p : DecisionPermit)
    → get_elem? ps i ≡ some p
    → (p.issuer == g.permit_issuer) ≡ true
    → p.used ≡ false
    → IsAccountedAt g ps p.grant_ref
    → 0 < count_of g.outstanding p.grant_ref
held_by_open g ps i p at own fresh a =
    ground (arith, tally-pos (is_open g.permit_issuer p.grant_ref) ps i p at)

spent-IsAccountedAt :
    (g h : GrantRegistry) (ps : List DecisionPermit) (i : ℕ) (p : DecisionPermit) (r : String)
    → get_elem? ps i ≡ some p
    → (p.issuer == g.permit_issuer) ≡ true
    → p.used ≡ false
    → IsFinished p.grant_ref g h
    → 0 < count_of g.outstanding p.grant_ref
    → IsAccountedAt g ps r
    → IsAccountedAt h (set ps i (record p { used = true })) r
spent-IsAccountedAt g h ps i p r at own fresh fin held a = record {
  issued_le =
      ground (arith, tally-set (is_for h.permit_issuer r) ps i p (record p { used = true }) at);
  open_le =
      ground (arith, tally-set (is_open h.permit_issuer r) ps i p (record p { used = true }) at);
  within = λ x known. ground (arith, a.within x);
  keyed = ground arith;
  held = ground arith;
}

-- What a release does to the registry and to the permit, in one of two ways.
release-IsAccountedAt :
    (rel : Release) (g : GrantRegistry) (ps : List DecisionPermit) (i : ℕ) (p : DecisionPermit)
    → get_elem? ps i ≡ some p
    → ((s : String) → IsAccountedAt g ps s)
    → (r : String) → let (_, (h, q)) = release_permit rel (g, p) in IsAccountedAt h (set ps i q) r
release-IsAccountedAt rel g ps i p at a r = elim (Bool-cases (p.issuer == g.permit_issuer)) [
  | inr foreign ↦ unchanged (inl foreign)
  | inl own ↦ elim (Bool-cases p.used) [
    | inl spent ↦ unchanged (inr spent)
    | inr fresh ↦
        let held = held_by_open g ps i p at own fresh (a p.grant_ref) in
        rw (release_permit_spends rel g p own fresh held) (
          spent-IsAccountedAt g _ ps i p r at own fresh
            (release_permit-IsFinished rel g p own fresh held) held (a r))
  ]
]
  where
    unchanged :
        (p.issuer == g.permit_issuer) ≡ false ⊎ (p.used ≡ true)
        → let (_, (h, q)) = release_permit rel (g, p) in IsAccountedAt h (set ps i q) r
    unchanged why = rw ((release_permit_refused rel g p why).1, set_same ps i p at) (a r)

begin-IsAccountedAt :
    (b : Bindings) (g h : GrantRegistry) (ps : List DecisionPermit)
    (res : Result AuthorityError DecisionPermit) (r : String)
    → Begun b g (res, h)
    → IsAccountedAt g ps r
    → IsAccountedAt h (ps ++ issued res) r
begin-IsAccountedAt b g h ps (err e) r (inl refused) a =
    rw append-nil (same-IsAccountedAt g h ps r refused.1 a)
begin-IsAccountedAt b g h ps (err e) r (inr (grant, res, made)) a =
    rw append-nil (reserved-IsAccountedAt b grant g h ps r res a)
begin-IsAccountedAt b g h ps (ok p) r (inl refused) a = cc refused.0
begin-IsAccountedAt b g h ps (ok p) r (inr (grant, res, made)) a =
    issued-IsAccountedAt b grant g h ps p r res (sym made) a

module _ (grant_ref : TaskGrant → String) where
  pub step-IsAccounted : (e : Event) (w : World) → IsAccounted w → IsAccounted (step grant_ref e w)
  unfolding step
  step-IsAccounted (activate_grant grant) w a r =
      activate-IsAccountedAt grant_ref grant w.registry w.permits r (a r)
  step-IsAccounted (revoke_grant s) w a r =
      same-IsAccountedAt w.registry _ w.permits r (revoke-SameCounters s w.registry) (a r)
  step-IsAccounted (begin b) w a r =
      let (res, h) = begin_permit b w.registry in
      begin-IsAccountedAt b w.registry h w.permits res r (begin_permit_lem b w.registry) (a r)
  step-IsAccounted (release i rel) w a r = elim (Option-cases (get_elem? w.permits i)) [
    | inl missing ↦ rw (missing, step) (a r)
    | inr (p, at) ↦ rw (at, step) (release-IsAccountedAt rel w.registry w.permits i p at a r)
  ]
  step-IsAccounted (introduce p) w a r = elim (Bool-cases (p.issuer == w.registry.permit_issuer)) [
    | inl own ↦ rw own (a r)
    | inr foreign ↦ rw foreign (foreign-IsAccountedAt w.registry w.permits p r foreign (a r))
  ]

  pub run-IsAccounted :
      (es : List Event) (w : World) → IsAccounted w → IsAccounted (run grant_ref es w)
  unfolding run
  run-IsAccounted [] w a = a
  run-IsAccounted (e ∷ es) w a = run-IsAccounted es (step grant_ref e w) (step-IsAccounted e w a)

pub new-IsAccounted : (issuer : ℕ) → IsAccounted (new_world issuer)
new-IsAccounted issuer r = record {
  issued_le = omega arith;
  open_le = omega arith;
  within = λ grant known. cc;
  keyed = refl;
  held = refl;
}

-- After any calls on a new registry, whatever permits of other registries are brought in, the
-- permits that it has issued for a known grant are no more than the invocations charged to that
-- grant, and those are no more than the grant's maximum; the permits still unused are no more
-- than its outstanding reservations.
pub issued-le-maximum :
    (grant_ref : TaskGrant → String) (issuer : ℕ) (es : List Event) (r : String) (grant : TaskGrant)
    → (run grant_ref es (new_world issuer)).registry.grants r ≡ some grant
    → let w = run grant_ref es (new_world issuer) in
      (tally (is_for w.registry.permit_issuer r) w.permits ≤ count_of w.registry.invocations r)
      × (count_of w.registry.invocations r ≤ grant.maximum_invocations)
      × (tally (is_open w.registry.permit_issuer r) w.permits ≤ count_of w.registry.outstanding r)
issued-le-maximum grant_ref issuer es r grant known =
    let a = run-IsAccounted grant_ref es (new_world issuer) (new-IsAccounted issuer) r in
    (a.issued_le, a.within grant known, a.open_le)
