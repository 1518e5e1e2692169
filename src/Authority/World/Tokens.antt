-- ===== src/Authority/World/Tokens.antt =====
-- No serial token is admitted twice.
use strongwiz.Base.{
  zero, suc, ℕ, String, true, false, some, List, [], ◌∷◌, ◌++◌, ◌==◌, ◌≡◌, refl, ◌⊎◌, inl, inr,
  arith, get_elem?, set, string_eq, nat_eq, pair_eq, Option-cases, Bool-cases, not, ◌&&◌, is_unique,
  contains, contains-append, if◌then◌else◌, set_same, suc,
}
use mathlib.Core.List.{append-nil}
use strongwiz.Base.Result.{Result, ok, err}
use strongwiz.Authority.Grant.{TaskGrant}
use strongwiz.Authority.Permit.{DecisionPermit, AuthorityError, Bindings, new_permit}
use strongwiz.Authority.Registry.{
  GrantRegistry, activate, revoke, begin_permit, Release, release_permit,
}
use strongwiz.Authority.World.{
  World, new_world, Event, activate_grant, revoke_grant, begin, release, introduce, run, step,
  issued,
}
use strongwiz.Authority.World.Effects.{
  IsReserved, Begun, begin_permit_lem, revoke-SameCounters, release_permit_refused,
  release_permit_spends, release_permit-IsFinished,
}
use strongwiz.Authority.World.Budget.{IsAccounted, held_by_open, new-IsAccounted, step-IsAccounted}

-- the serial tokens of the permits that one issuer made
abbrev pub tokens : ℕ → List DecisionPermit → List String
tokens issuer [] = []
tokens issuer (p ∷ ps) = if p.issuer == issuer then p.token ∷ tokens issuer ps else tokens issuer ps

is_unique-append :
    (xs : List String) (k : String)
    → is_unique (xs ++ k ∷ []) ≡ (is_unique xs && not (contains xs k))
is_unique-append [] k = refl
is_unique-append (x ∷ xs) k = ground (arith, is_unique-append xs k, contains-append xs (k ∷ []) x)

tokens-append :
    (issuer : ℕ) (ps : List DecisionPermit) (p : DecisionPermit)
    → tokens issuer (ps ++ p ∷ [])
      ≡ (if p.issuer == issuer then tokens issuer ps ++ p.token ∷ [] else tokens issuer ps)
tokens-append issuer [] p = ground arith
tokens-append issuer (q ∷ ps) p = ground (arith, tokens-append issuer ps p)

tokens-set :
    (issuer : ℕ) (ps : List DecisionPermit) (i : ℕ) (p : DecisionPermit)
    → get_elem? ps i ≡ some p
    → tokens issuer (set ps i (record p { used = true })) ≡ tokens issuer ps
tokens-set issuer [] i p h = refl
tokens-set issuer (q ∷ ps) zero p h = ground arith
tokens-set issuer (q ∷ ps) (suc i) p h = ground (arith, tokens-set issuer ps i p h)

-- The tokens of the permits are different, and the registry remembers each.
record IsSerial (g : GrantRegistry) (ps : List DecisionPermit) : Type 0 where
  unique : is_unique (tokens g.permit_issuer ps) ≡ true
  remembered :
      (k : String)
      → contains (tokens g.permit_issuer ps) k ≡ true
      → contains g.serial_tokens k ≡ true

same-IsSerial :
    (g h : GrantRegistry) (ps : List DecisionPermit)
    → h.permit_issuer ≡ g.permit_issuer
    → h.serial_tokens ≡ g.serial_tokens
    → IsSerial g ps
    → IsSerial h ps
same-IsSerial g h ps issuer tokens s = record {
  unique = ground arith;
  remembered = λ k. ground (arith, s.remembered k);
}

issued-IsSerial :
    (b : Bindings) (grant : TaskGrant) (g h : GrantRegistry) (ps : List DecisionPermit)
    (res : Result AuthorityError DecisionPermit)
    → IsReserved b grant g h
    → res ≡ new_permit g.permit_issuer b
    → IsSerial g ps
    → IsSerial h (ps ++ issued res)
unfolding new_permit
issued-IsSerial b grant g h ps (err e) r made s =
    rw append-nil
      (record { unique = ground arith; remembered = λ k. ground (arith, s.remembered k) })
issued-IsSerial b grant g h ps (ok p) r made s = record {
  unique = ground (
    arith,
    s.remembered b.token,
    tokens-append h.permit_issuer ps p,
    is_unique-append (tokens h.permit_issuer ps) b.token,
  );
  remembered = λ k. ground (
    arith,
    s.remembered k,
    tokens-append h.permit_issuer ps p,
    contains-append (tokens h.permit_issuer ps) (b.token ∷ []) k,
  );
}

foreign-IsSerial :
    (g : GrantRegistry) (ps : List DecisionPermit) (p : DecisionPermit)
    → (p.issuer == g.permit_issuer) ≡ false
    → IsSerial g ps
    → IsSerial g (ps ++ p ∷ [])
foreign-IsSerial g ps p foreign s = record {
  unique = ground (arith, tokens-append g.permit_issuer ps p);
  remembered = λ k. ground (arith, s.remembered k, tokens-append g.permit_issuer ps p);
}

begin-IsSerial :
    (b : Bindings) (g h : GrantRegistry) (ps : List DecisionPermit)
    (res : Result AuthorityError DecisionPermit)
    → Begun b g (res, h)
    → IsSerial g ps
    → IsSerial h (ps ++ issued res)
begin-IsSerial b g h ps (err e) (inl (_, same)) s =
    rw append-nil (same-IsSerial g h ps same.permit_issuer same.serial_tokens s)
begin-IsSerial b g h ps (ok p) (inl (refused, _)) s = cc refused
begin-IsSerial b g h ps res (inr (grant, r, made)) s = issued-IsSerial b grant g h ps res r made s

release-IsSerial :
    (rel : Release) (g : GrantRegistry) (ps : List DecisionPermit) (i : ℕ) (p : DecisionPermit)
    → get_elem? ps i ≡ some p
    → IsAccounted (record { registry = g; permits = ps })
    → IsSerial g ps
    → let (_, (h, q)) = release_permit rel (g, p) in IsSerial h (set ps i q)
release-IsSerial rel g ps i p at a s = elim (Bool-cases (p.issuer == g.permit_issuer)) [
  | inr foreign ↦ unchanged (inl foreign)
  | inl own ↦ elim (Bool-cases p.used) [
    | inl spent ↦ unchanged (inr spent)
    | inr fresh ↦
        let held = held_by_open g ps i p at own fresh (a p.grant_ref) in
        let fin = release_permit-IsFinished rel g p own fresh held in
        rw (release_permit_spends rel g p own fresh held) (record {
          unique = ground (arith, s.unique, fin, tokens-set g.permit_issuer ps i p at);
          remembered =
              λ k. ground (arith, s.remembered k, fin, tokens-set g.permit_issuer ps i p at);
        })
  ]
]
  where
    unchanged :
        (p.issuer == g.permit_issuer) ≡ false ⊎ (p.used ≡ true)
        → let (_, (h, q)) = release_permit rel (g, p) in IsSerial h (set ps i q)
    unchanged why = rw ((release_permit_refused rel g p why).1, set_same ps i p at) s

module _ (grant_ref : TaskGrant → String) where
  activate-IsSerial :
      (grant : TaskGrant) (g : GrantRegistry) (ps : List DecisionPermit)
      → IsSerial g ps
      → IsSerial (activate grant_ref grant g).1 ps
  unfolding activate
  activate-IsSerial grant g ps s =
      same-IsSerial g (activate grant_ref grant g).1 ps (ground arith) (ground arith) s

  step-IsSerial :
      (e : Event) (w : World)
      → IsAccounted w
      → IsSerial w.registry w.permits
      → IsSerial (step grant_ref e w).registry (step grant_ref e w).permits
  unfolding step
  step-IsSerial (activate_grant grant) w a s = activate-IsSerial grant w.registry w.permits s
  step-IsSerial (revoke_grant r) w a s =
      let same = revoke-SameCounters r w.registry in
      same-IsSerial w.registry (revoke r w.registry).1 w.permits same.permit_issuer
        same.serial_tokens s
  step-IsSerial (begin b) w a s =
      let (res, h) = begin_permit b w.registry in
      begin-IsSerial b w.registry h w.permits res (begin_permit_lem b w.registry) s
  step-IsSerial (release i rel) w a s = elim (Option-cases (get_elem? w.permits i)) [
    | inl missing ↦ rw (missing, step) s
    | inr (p, at) ↦ rw (at, step) (release-IsSerial rel w.registry w.permits i p at a s)
  ]
  step-IsSerial (introduce p) w a s = elim (Bool-cases (p.issuer == w.registry.permit_issuer)) [
    | inl own ↦ rw own s
    | inr foreign ↦ rw foreign (foreign-IsSerial w.registry w.permits p foreign s)
  ]

  run-IsSerial :
      (es : List Event) (w : World)
      → IsAccounted w
      → IsSerial w.registry w.permits
      → IsSerial (run grant_ref es w).registry (run grant_ref es w).permits
  unfolding run
  run-IsSerial [] w a s = s
  run-IsSerial (e ∷ es) w a s =
      run-IsSerial es (step grant_ref e w) (step-IsAccounted grant_ref e w a)
        (step-IsSerial e w a s)

-- After any calls on a new registry, no two of the permits that it issued bear the same serial
-- token.
pub serial_tokens_unique :
    (grant_ref : TaskGrant → String) (issuer : ℕ) (es : List Event)
    → let w = run grant_ref es (new_world issuer) in
      is_unique (tokens w.registry.permit_issuer w.permits) ≡ true
serial_tokens_unique grant_ref issuer es =
    (run-IsSerial grant_ref es (new_world issuer) (new-IsAccounted issuer)
      (record { unique = refl; remembered = λ k h. cc })).unique
