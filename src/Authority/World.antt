-- ===== src/Authority/World.antt =====
-- A registry among the permits that its callers hold. A permit is a mutable object that callers
-- share, so the permits stand in one list and a caller names one by its position.
pub mod Effects
pub mod Budget
pub mod Serve
pub mod Active
pub mod Tokens
use strongwiz.Base.{
  ℕ, String, Bool, true, false, ◌&&◌, not, none, some, List, [], ◌∷◌, ◌++◌, ◌==◌, get_elem?, set,
  string_eq, nat_eq, if◌then◌else◌,
}
use strongwiz.Base.Result.{Result, ok, err}
use strongwiz.Authority.Grant.{TaskGrant}
use strongwiz.Authority.Permit.{AuthorityError, Bindings, DecisionPermit}
use strongwiz.Authority.Registry.{
  GrantRegistry, new_registry, activate, revoke, begin_permit, Release, release_permit,
}

pub record World : Type 0 where
  pub registry : GrantRegistry
  pub permits : List DecisionPermit

abbrev pub new_world : ℕ → World
new_world issuer = record { registry = new_registry issuer; permits = [] }

-- One call on the registry. `release` names a permit by its position; `introduce` brings in a
-- permit of another registry.
pub data Event : Type 0 where
  activate_grant : TaskGrant → Event
  revoke_grant : String → Event
  begin : Bindings → Event
  release : ℕ → Release → Event
  introduce : DecisionPermit → Event

-- the permit that a call returned, if it did
abbrev pub issued : Result AuthorityError DecisionPermit → List DecisionPermit
issued (ok p) = p ∷ []
issued (err _) = []

module _ (grant_ref : TaskGrant → String) where
  -- An exception ends its own call only; what the call wrote stays.
  unfoldable pub step : Event → World → World
  step (activate_grant g) w = record w { registry = (activate grant_ref g w.registry).1 }
  step (revoke_grant r) w = record w { registry = (revoke r w.registry).1 }
  step (begin b) w =
      let (res, g) = begin_permit b w.registry in
      record { registry = g; permits = w.permits ++ issued res }
  step (release i r) w = elim (get_elem? w.permits i) [
    | none ↦ w
    | some p ↦
        let (_, (g, p')) = release_permit r (w.registry, p) in
        record { registry = g; permits = set w.permits i p' }
  ]
  step (introduce p) w =
      if p.issuer == w.registry.permit_issuer then w else record w { permits = w.permits ++ p ∷ [] }

  unfoldable pub run : List Event → World → World
  unfolding step
  run [] w = w
  run (e ∷ es) w = run es (step e w)

-- The permits that the registry with this issuer issued for a grant.
abbrev pub is_for : ℕ → String → DecisionPermit → Bool
is_for issuer r p = p.issuer == issuer && p.grant_ref == r

-- Of these, the ones that are not yet used.
abbrev pub is_open : ℕ → String → DecisionPermit → Bool
is_open issuer r p = p.issuer == issuer && p.grant_ref == r && not p.used
