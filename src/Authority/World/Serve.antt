-- ===== src/Authority/World/Serve.antt =====
-- No permit of the registry is stranded: a release of it returns a receipt.
use strongwiz.Base.{
  ℤ, pos, negsuc, ◌+◌, ◌↔◌, ℕ, ◌<◌, String, true, false, some, List, ◌==◌, ◌≡◌, refl, arith,
  get_elem?, string_eq, nat_eq,
}
use strongwiz.Base.Result.{Result, ok, err, is_ok}
use strongwiz.Base.Map.{Map, has_key}
use strongwiz.Authority.Grant.{TaskGrant}
use strongwiz.Authority.Permit.{
  DecisionPermit, ReleaseReceipt, released, negative_boundary, AuthorityError,
}
use strongwiz.Authority.Registry.{GrantRegistry, Release, bindings_match, release_permit, natural}
use strongwiz.Authority.Release.{
  released-Justified, Permits, effect_of, require_effect, result_of, require_active_iff,
}
use strongwiz.Authority.World.{new_world, Event, run}
use strongwiz.Authority.World.Effects.{
  release_permit_spends, release_permit-IsFinished, count_of, require_active-SameCounters,
  finish_reservation-is_ok,
}
use strongwiz.Authority.World.Budget.{run-IsAccounted, new-IsAccounted, held_by_open}

value_of_key :
    {V : Type 0} (m : Map String V) (r : String) → has_key m r ≡ true → (v : V) × (m r ≡ some v)
value_of_key m r h = ground arith

is_ok_value {ℓ} : {E A : Type ℓ} (x : Result E A) → is_ok x ≡ true → (a : A) × (x ≡ ok a)
is_ok_value (ok a) h = (a, refl)
is_ok_value (err e) h = cc

module _ (r : Release) (g : GrantRegistry) (p : DecisionPermit)
    (own : (p.issuer == g.permit_issuer) ≡ true) (fresh : p.used ≡ false)
    (held : 0 < count_of g.outstanding p.grant_ref) where
  returns :
      (grant : TaskGrant) (used n : ℕ)
      → g.grants p.grant_ref ≡ some grant
      → g.invocations p.grant_ref ≡ some used
      → r.boundary ≡ pos n
      → is_ok (result_of r g p) ≡ true
  unfolding release_permit
  returns grant used n known charged above =
      let checked : GrantRegistry = (require_effect (effect_of r p) g).1 in
      ground (
        arith,
        finish_reservation-is_ok p.grant_ref g grant used,
        finish_reservation-is_ok p.grant_ref checked grant used,
        require_active-SameCounters p.grant_ref (natural r.boundary) r.action_name p.action_ref
            p.executor_id p.executor_version p.executor_artifact_ref p.scope_id g,
      )

  refuses :
      (grant : TaskGrant) (used k : ℕ)
      → g.grants p.grant_ref ≡ some grant
      → g.invocations p.grant_ref ≡ some used
      → r.boundary ≡ negsuc k
      → result_of r g p ≡ err negative_boundary
  unfolding release_permit
  refuses grant used k known charged below =
      ground (arith, finish_reservation-is_ok p.grant_ref g grant used)

  receipt_boundary :
      (n : ℕ) (receipt : ReleaseReceipt)
      → r.boundary ≡ pos n
      → result_of r g p ≡ ok receipt
      → receipt.release_boundary ≡ n
  unfolding release_permit
  receipt_boundary n receipt above done = ground arith

  is_released :
      (receipt : ReleaseReceipt) (grant : TaskGrant)
      → result_of r g p ≡ ok receipt
      → bindings_match r p ≡ true
      → (require_effect (effect_of r p) g).0 ≡ ok grant
      → receipt.status ≡ released
  unfolding release_permit
  is_released receipt grant done same found = ground arith

-- how a release of an unused permit ends: by a receipt, or by an error for its boundary alone
pub Ended :
    Release → GrantRegistry → DecisionPermit → ℤ → Result AuthorityError ReleaseReceipt → Type 0
Ended r g p (pos n) res =
    (receipt : ReleaseReceipt) × (res ≡ ok receipt)
    × (receipt.release_boundary ≡ n)
    × ((receipt.status ≡ released)
        ↔ ((bindings_match r p ≡ true) × ((grant : TaskGrant) × Permits g grant (effect_of r p))))
Ended r g p (negsuc k) res = res ≡ err negative_boundary

module _ (r : Release) (g : GrantRegistry) (p : DecisionPermit)
    (own : (p.issuer == g.permit_issuer) ≡ true) (fresh : p.used ≡ false)
    (held : 0 < count_of g.outstanding p.grant_ref) where
  Ended-from :
      (grant : TaskGrant) (used : ℕ) (z : ℤ)
      → g.grants p.grant_ref ≡ some grant
      → g.invocations p.grant_ref ≡ some used
      → r.boundary ≡ z
      → Ended r g p z (result_of r g p)
  unfolding Ended
  Ended-from grant used (negsuc k) known charged below =
      refuses r g p own fresh held grant used k known charged below
  Ended-from grant used (pos n) known charged above =
      let (receipt, done) =
        is_ok_value (result_of r g p)
          (returns r g p own fresh held grant used n known charged above) in
      (
        receipt,
        done,
        receipt_boundary r g p own fresh held n receipt above done,
        (
          (λ status.
              let (same, _, _, (current, permits, _)) =
                released-Justified r g p receipt done status in
              (same, (current, permits))),
          λ (same, (current, permits)).
              is_released r g p own fresh held receipt current done same
                ((require_active_iff g current (effect_of r p)).1 permits),
        ),
      )

-- In a world that calls have reached from a new registry, every release of an unused permit of that
-- registry uses the permit up and takes back one reservation of its grant. Where the release's
-- boundary is not below zero it returns a receipt at that boundary, marked released exactly when the
-- release repeats the permit's bindings and some grant permits the effect; a boundary below zero
-- raises the error for it.
pub release_permit_serves :
    (grant_ref : TaskGrant → String) (issuer : ℕ) (es : List Event) (i : ℕ) (p : DecisionPermit)
    (r : Release)
    → let w = run grant_ref es (new_world issuer) in
      let (res, (h, q)) = release_permit r (w.registry, p) in
      get_elem? w.permits i ≡ some p
      → (p.issuer == w.registry.permit_issuer) ≡ true
      → p.used ≡ false
      → (q ≡ record p { used = true })
        × (count_of h.outstanding p.grant_ref + 1 ≡ count_of w.registry.outstanding p.grant_ref)
        × Ended r w.registry p r.boundary res
release_permit_serves grant_ref issuer es i p r at own fresh =
    let w = run grant_ref es (new_world issuer) in
    let a = run-IsAccounted grant_ref es (new_world issuer) (new-IsAccounted issuer) p.grant_ref in
    let held = held_by_open w.registry w.permits i p at own fresh a in
    let held_key : has_key w.registry.outstanding p.grant_ref ≡ true = ground arith in
    let (grant, known) = value_of_key w.registry.grants p.grant_ref (ground arith) in
    let (used, charged) = value_of_key w.registry.invocations p.grant_ref (ground arith) in
    let finished = release_permit-IsFinished r w.registry p own fresh held in
    (
      release_permit_spends r w.registry p own fresh held,
      ground (arith, finished.outstanding),
      Ended-from r w.registry p own fresh held grant used r.boundary known charged refl,
    )
