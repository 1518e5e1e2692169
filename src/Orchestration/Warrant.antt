-- ===== src/Orchestration/Warrant.antt =====
-- What a permit that `begin` returned rests on: the router, the lab's rules and the registry.
use strongwiz.Base.{true, false, some, ◌≡◌, arith, string_eq, nat_eq, option_eq, ◌∙◌, ap, sym}
use strongwiz.Base.Result.{ok}
use strongwiz.Base.Exec.{>>=-eq-ok, lift, ◌>>=◌}
use strongwiz.Contracts.{BoundaryStatus}
use strongwiz.Authority.Grant.{TaskGrant}
use strongwiz.Authority.Permit.{DecisionPermit, Bindings, new_permit}
use strongwiz.Authority.Registry.{GrantRegistry, begin_permit, reserve_and_issue}
use strongwiz.Authority.World.Effects.{require_active-SameCounters}
use strongwiz.Authority.Release.{Effect, Permits, require_effect, require_active_iff}
use strongwiz.Routing.Evaluate.{RouterPolicy}
use strongwiz.Routing.Admission.{IsAdmissible, IsAdmissible-of}
use strongwiz.LabPolicy.Decision.{LabPolicyDecision, clears_requested_boundaries}
use strongwiz.LabPolicy.Clearance.{
  MayCross, MayRelease, evaluate_lab_rules_iff, decided, evaluate_lab_rules_lem, released_of_clears,
}
use strongwiz.Orchestration.Admission.{
  ActionExecutor, ExecutionAdmission, admission_of, validate_admission,
}
use strongwiz.Orchestration.Checked.{
  IsRouted, IsGranted, IsWriter, IsHeld, IsCurrent, IsAgreed, check_route-IsRouted,
  find_grant-IsGranted, check_lab-decided, check_grant_parts,
}
use strongwiz.Orchestration.Begin.{
  begin_under, issue, ExecutionDigests, Request, begin, check_route, find_grant, check_grant,
  bindings_of, release_review_required,
}

-- the effect that a permit's bindings stand for, at the boundary where it was asked for
abbrev pub effect_of_bindings : Bindings → Effect
effect_of_bindings b = record {
  grant_ref = b.grant_ref;
  boundary = b.boundary;
  action_name = b.action_name;
  action_ref = b.action_ref;
  executor_id = b.executor_id;
  executor_version = b.executor_version;
  executor_artifact_ref = b.executor_artifact_ref;
  scope_id = b.scope_id;
}

-- a permit that the registry returned: unused, its own, and within a grant in force
pub record IsIssued (b : Bindings) (g : GrantRegistry) (p : DecisionPermit) : Type 0 where
  pub bindings : p.bindings ≡ b
  pub issuer : p.issuer ≡ g.permit_issuer
  pub unused : p.used ≡ false
  pub grant : TaskGrant
  pub permits : Permits g grant (effect_of_bindings b)

issue_from :
    (b : Bindings) (g h : GrantRegistry) (p : DecisionPermit) (grant : TaskGrant)
    → reserve_and_issue b grant g ≡ (ok p, h)
    → (p.bindings ≡ b) × (p.issuer ≡ g.permit_issuer) × (p.used ≡ false)
unfolding reserve_and_issue new_permit
issue_from b g h p grant e = ground arith

begin_permit_parts :
    (b : Bindings) (g h : GrantRegistry) (p : DecisionPermit)
    → begin_permit b g ≡ (ok p, h)
    → (grant : TaskGrant) × ((require_effect (effect_of_bindings b) g).0 ≡ ok grant)
      × (reserve_and_issue b grant (require_effect (effect_of_bindings b) g).1 ≡ (ok p, h))
unfolding begin_permit
begin_permit_parts b g h p e = ground arith

module _ (d : ExecutionDigests) (executor : ActionExecutor) (policy : RouterPolicy) where
  open d use {router, lab}

  begin_parts :
      (q : Request) (g h : GrantRegistry) (p : DecisionPermit) (a : ExecutionAdmission)
      → begin d executor policy q g ≡ (ok (p, a), h)
      → (check_route d executor policy q ≡ ok tt)
        × ((grant : TaskGrant) × (find_grant d executor policy q.control g ≡ (ok grant, g))
            × (check_grant d executor policy grant q ≡ ok tt)
            × (begin_permit (bindings_of d executor policy grant q) g ≡ (ok p, h))
            × (a ≡ admission_of (bindings_of d executor policy grant q)))
  unfolding begin begin_under issue find_grant validate_admission
  begin_parts q g h p a done =
      let grants = find_grant d executor policy q.control in
      let (_, g1, routed, rest1) =
        >>=-eq-ok (lift (check_route d executor policy q))
          (λ _. grants >>= begin_under d executor policy q) done in
      let (grant, g2, found, rest2) = >>=-eq-ok grants (begin_under d executor policy q) rest1 in
      let (_, g3, checked, rest3) =
        >>=-eq-ok (lift (check_grant d executor policy grant q))
          (λ _. issue d executor policy grant q) rest2 in
      (ground arith, (grant, ground arith, ground arith, ground arith, ground arith))

  -- The route is the guards' and admits the proposal; the control names the grant and holds the
  -- lab's decision; that decision is of this context, grant and proposal, and clears the effect and,
  -- where it is asked for, the release; the executor is the grant's; and the registry issued the
  -- permit under a grant in force.
  pub record IsWarranted (q : Request) (g : GrantRegistry) (p : DecisionPermit)
      (a : ExecutionAdmission) : Type 0 where
    pub admissible : IsAdmissible router q.proposal q.control
    pub routed : IsRouted d executor policy q
    pub grant : TaskGrant
    pub granted : IsGranted d executor policy q.control g grant
    pub writer : IsWriter d executor policy grant
    pub held : IsHeld d executor policy q
    pub current : IsCurrent d executor policy q.proposal q.control
    pub agreed : IsAgreed d executor policy q.lab_decision.context q.proposal grant
    pub crossing : MayCross lab q.lab_decision.context q.pea_review q.crossing
    pub release :
        release_review_required d executor policy grant q.proposal ≡ true
        → MayRelease lab q.lab_decision.context q.pea_review q.seed_release
    pub issued : IsIssued (bindings_of d executor policy grant q) g p
    pub admission : a ≡ admission_of p.bindings

  released :
      (q : Request) (grant : TaskGrant) (r : LabPolicyDecision)
      → release_review_required d executor policy grant q.proposal ≡ true
      → q.lab_decision
        ≡ decided lab q.lab_decision.context q.pea_review q.crossing q.seed_release true
            (release_review_required d executor policy grant q.proposal)
      → clears_requested_boundaries q.lab_decision ≡ true
      → r ≡ q.lab_decision
      → r.release_status ≡ BoundaryStatus.clear
  released q grant r asked same clears here =
      let out =
        released_of_clears lab q.lab_decision.context q.pea_review q.crossing q.seed_release true
          (release_review_required d executor policy grant q.proposal) asked
          (ap clears_requested_boundaries (sym same) ∙ clears) in
      ap (λ (x : LabPolicyDecision). x.release_status) (here ∙ same) ∙ out

  -- A permit that `begin` returns is warranted: the route is what the guards answer for this
  -- control and proposal, and the proposal is admissible and of the control's observation, scope and
  -- goals; the control is no shadow, names a stored grant and holds the lab's decision; the context
  -- of that decision agrees with the grant in reference, task, goal, scope, destination and attention,
  -- and with the proposal in observation, digest and action, and the proposal's goal is the grant's;
  -- the rules clear the effect, with a satisfied review and an authorized crossing of this context, and the release
  -- where the grant or an output asks for it; the executor, its version and its artifact are the
  -- grant's; and the permit is unused, of this registry, bound to exactly this request, under a
  -- grant that permits the effect. The admission repeats the permit's bindings.
  pub begin-IsWarranted :
      (q : Request) (g h : GrantRegistry) (p : DecisionPermit) (a : ExecutionAdmission)
      → begin d executor policy q g ≡ (ok (p, a), h)
      → IsWarranted q g p a
  begin-IsWarranted q g h p a done =
      let (route_ok, (grant, found, grant_ok, permit_ok, same)) = begin_parts q g h p a done in
      let routed = check_route-IsRouted d executor policy q route_ok in
      let (writer, lab_ok, held, timely, agreed) =
        check_grant_parts d executor policy q grant grant_ok in
      let decision = check_lab-decided d executor policy q grant lab_ok in
      let b = bindings_of d executor policy grant q in
      let (current, in_force, reserved) = begin_permit_parts b g h p permit_ok in
      let (bindings, issuer, unused) =
        issue_from b (require_effect (effect_of_bindings b) g).1 h p current reserved in
      let c = q.lab_decision.context in
      let required = release_review_required d executor policy grant q.proposal in
      let (r, answered, effect, release) =
        evaluate_lab_rules_iff lab c q.pea_review q.crossing q.seed_release true required in
      let answer =
        evaluate_lab_rules_lem lab c q.pea_review q.crossing q.seed_release true required in
      let here : q.lab_decision ≡ r = ground arith in
      record {
        admissible =
            IsAdmissible-of router q.proposal q.control (some policy) q.route routed.evaluated
              routed.selecting;
        routed = routed;
        grant = grant;
        granted = find_grant-IsGranted d executor policy q.control g grant found;
        writer = writer;
        held = held;
        current = timely;
        agreed = agreed;
        crossing =
            (effect.0 (
              ap (λ (x : LabPolicyDecision). x.external_effect_status) (sym here) ∙ held.effect)).1;
        release = λ asked. (release.0 (released q grant r asked decision held.clears (sym here))).1;
        issued = record {
          bindings = bindings;
          issuer =
              issuer
              ∙ (require_active-SameCounters b.grant_ref b.boundary b.action_name b.action_ref
                  b.executor_id b.executor_version b.executor_artifact_ref b.scope_id
                  g).permit_issuer;
          unused = unused;
          grant = current;
          permits = (require_active_iff g current (effect_of_bindings b)).0 in_force;
        };
        admission = same ∙ ap admission_of (sym bindings);
      }
