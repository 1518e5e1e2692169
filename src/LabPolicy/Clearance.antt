-- ===== src/LabPolicy/Clearance.antt =====
-- What a clear decision rests on.
use strongwiz.Base.{
  ◌≤◌, String, Bool, true, false, not, ◌&&◌, Option, none, some, List, [], ◌∷◌, ◌==◌, all, any, ◌≡◌,
  ◌↔◌, refl, arith, is_present, string_eq, option_eq, String_discrete, is_present-append,
}
use strongwiz.Base.Result.{ok}
use strongwiz.Contracts.{BoundaryStatus, boundary_eq}
use strongwiz.LabPolicy.Reviews.{
  LabBoundaryContext, PeaReview, ConsequentialCrossing, SeedReleaseReview, ReviewStatus, review_eq,
  refused, unresolved, statuses_of, may_cross_external_boundary, releasable,
  protective_controls_satisfied, is_settled, authorization,
}
use strongwiz.LabPolicy.Decision.{
  LabDigests, LabPolicyDecision, clears_requested_boundaries, validate_decision, is_clear_or_idle,
}
use strongwiz.LabPolicy.Rules.{
  pea_gate, crossing_gate, seed_gate, gate, effect_gate, release_gate, decide, evaluate_lab_rules,
  Gate,
}

-- the same statuses, once refused or unresolved and once settled
settled_statuses :
    (xs : List ReviewStatus)
    → all is_settled xs ≡ (not (any (λ s. s == refused) xs) && not (any (λ s. s == unresolved) xs))
unfolding is_settled
settled_statuses [] = refl
settled_statuses (ReviewStatus.supplied ∷ xs) = ground (arith, settled_statuses xs)
settled_statuses (ReviewStatus.refused ∷ xs) = ground (arith, settled_statuses xs)
settled_statuses (ReviewStatus.unresolved ∷ xs) = ground (arith, settled_statuses xs)
settled_statuses (ReviewStatus.not_applicable ∷ xs) = ground (arith, settled_statuses xs)

module _ (d : LabDigests) (c : LabBoundaryContext) where
  -- a review of this grant and context whose protective controls are satisfied
  pub record IsProtected (r : PeaReview) : Type 0 where
    pub grant : r.external_grant_ref ≡ c.grant_ref
    pub context : r.boundary_context_ref ≡ d.of_context c
    pub controls : protective_controls_satisfied r ≡ true

  -- a crossing of this action and context that carries an outside authorization
  pub record IsAuthorized (x : ConsequentialCrossing) : Type 0 where
    pub subject : x.subject_ref ≡ c.action_ref
    pub context : x.boundary_context_ref ≡ d.of_context c
    pub stage : x.current_stage ≡ authorization
    pub outside : x.externally_supplied_authorization ≡ true

  -- a release review of this goal, context and output, within the budget of attention
  pub record IsReleasable (r : SeedReleaseReview) : Type 0 where
    pub goal : r.chosen_goal_id ≡ c.goal_id
    pub goal_content : r.chosen_goal_ref ≡ c.goal_ref
    pub context : r.boundary_context_ref ≡ d.of_context c
    pub output : c.release_output_ref ≡ some r.output_ref
    pub attention : r.attention_units_requested ≤ c.attention_budget
    pub review : releasable r ≡ true

  -- an effect may be cleared: a satisfied review and an authorized crossing are supplied
  abbrev pub MayCross : Option PeaReview → Option ConsequentialCrossing → Type 0
  MayCross pea crossing =
      ((r : PeaReview) × (pea ≡ some r) × IsProtected r)
      × ((x : ConsequentialCrossing) × (crossing ≡ some x) × IsAuthorized x)

  -- a release may be cleared: a satisfied review and a releasable output are supplied
  abbrev pub MayRelease : Option PeaReview → Option SeedReleaseReview → Type 0
  MayRelease pea seed =
      ((r : PeaReview) × (pea ≡ some r) × IsProtected r)
      × ((s : SeedReleaseReview) × (seed ≡ some s) × IsReleasable s)

  abbrev IsClear : Gate → Type 0
  IsClear g = (g.0 ≡ BoundaryStatus.clear)

  pea_gate_iff :
      (pea : Option PeaReview) (boundary : String)
      → (IsClear (pea_gate d c pea boundary)) ↔ ((r : PeaReview) × (pea ≡ some r) × IsProtected r)
  unfolding pea_gate protective_controls_satisfied
  pea_gate_iff none boundary = ((λ h. absurd (ground arith)), λ (r, e, _). absurd (ground arith))
  pea_gate_iff (some r) boundary = (
    (λ h. (
      r,
      refl,
      record {
        grant = ground arith;
        context = ground arith;
        controls = ground (arith, settled_statuses (statuses_of r));
      },
    )),
    λ (q, e, p). let same : r ≡ q = cc in ground (arith, p, settled_statuses (statuses_of r)),
  )

  crossing_gate_iff :
      (crossing : Option ConsequentialCrossing)
      → (IsClear (crossing_gate d c crossing))
        ↔ ((x : ConsequentialCrossing) × (crossing ≡ some x) × IsAuthorized x)
  unfolding crossing_gate may_cross_external_boundary
  crossing_gate_iff none = ((λ h. absurd (ground arith)), λ (r, e, _). absurd (ground arith))
  crossing_gate_iff (some x) = (
    (λ h. (
      x,
      refl,
      record {
        subject = ground arith;
        context = ground arith;
        stage = ground arith;
        outside = ground arith;
      },
    )),
    λ (q, e, p). let same : x ≡ q = cc in ground (arith, p),
  )

  seed_gate_iff :
      (seed : Option SeedReleaseReview)
      → (IsClear (seed_gate d c seed))
        ↔ ((s : SeedReleaseReview) × (seed ≡ some s) × IsReleasable s)
  unfolding seed_gate
  seed_gate_iff none = ((λ h. absurd (ground arith)), λ (r, e, _). absurd (ground arith))
  seed_gate_iff (some s) = (
    (λ h. (
      s,
      refl,
      record {
        goal = ground arith;
        goal_content = ground arith;
        context = ground arith;
        output = ground arith;
        attention = ground arith;
        review = ground arith;
      },
    )),
    λ (q, e, p). let same : s ≡ q = cc in ground (arith, p),
  )

  module _ (pea : Option PeaReview) (crossing : Option ConsequentialCrossing)
      (seed : Option SeedReleaseReview) (effect_requested release_requested : Bool) where
    abbrev pub decided : LabPolicyDecision
    decided = decide d c pea crossing seed effect_requested release_requested

    pub evaluate_lab_rules_lem :
        evaluate_lab_rules d c pea crossing seed effect_requested release_requested ≡ ok decided
    unfolding evaluate_lab_rules decide validate_decision String_discrete
    evaluate_lab_rules_lem = refl

    -- The decision is returned, and each boundary is clear exactly when it was requested and what
    -- it asks for is supplied: both ask for a review of this grant and context whose protective
    -- controls are satisfied, an effect also for an authorized crossing of this action, and a
    -- release also for a releasable review of this goal and output within the budget of attention.
    pub evaluate_lab_rules_iff :
        (r : LabPolicyDecision) × (evaluate_lab_rules d c pea crossing seed effect_requested
            release_requested
          ≡ ok r)
        × ((r.external_effect_status ≡ BoundaryStatus.clear)
            ↔ ((effect_requested ≡ true) × MayCross pea crossing))
        × ((r.release_status ≡ BoundaryStatus.clear)
            ↔ ((release_requested ≡ true) × MayRelease pea seed))
    unfolding decide effect_gate release_gate gate
    evaluate_lab_rules_iff =
        let (pea_left, pea_right) = pea_gate_iff pea "external_effect" in
        let (out_left, out_right) = pea_gate_iff pea "release" in
        let (cross_left, cross_right) = crossing_gate_iff crossing in
        let (seed_left, seed_right) = seed_gate_iff seed in
        (
          decided,
          evaluate_lab_rules_lem,
          (
            (λ h. (ground arith, (pea_left (ground arith), cross_left (ground arith)))),
            λ (asked, (p, x)). ground (arith, pea_right p, cross_right x),
          ),
          (
            (λ h. (ground arith, (out_left (ground arith), seed_left (ground arith)))),
            λ (asked, (p, x)). ground (arith, out_right p, seed_right x),
          ),
        )

    -- a gate that is passed blocks exactly when it does not clear
    abbrev Blocks : Gate → Type 0
    Blocks g = is_present g.1 ≡ not (g.0 == BoundaryStatus.clear)

    pea-Blocks : (boundary : String) → Blocks (pea_gate d c pea boundary)
    unfolding pea_gate
    pea-Blocks boundary = ground arith

    crossing-Blocks : Blocks (crossing_gate d c crossing)
    unfolding crossing_gate
    crossing-Blocks = ground arith

    seed-Blocks : Blocks (seed_gate d c seed)
    unfolding seed_gate
    seed-Blocks = ground arith

    gate-Blocks :
        (requested : Bool) (first second : Gate)
        → Blocks first
        → Blocks second
        → (is_present (gate requested first second).1 ≡ false)
          ↔ (requested ≡ true → IsClear first × IsClear second)
    unfolding gate
    gate-Blocks false first second h k = ((λ _ asked. absurd (ground arith)), λ _. refl)
    gate-Blocks true first second h k =
        ((λ clear asked. (ground arith, ground arith)), λ clear. ground (arith, clear refl))

    -- a boundary that is requested is never left alone
    abbrev Answers : Gate → Type 0
    Answers g = (g.0 == BoundaryStatus.not_requested) ≡ false

    pea-Answers : (boundary : String) → Answers (pea_gate d c pea boundary)
    unfolding pea_gate
    pea-Answers boundary = ground arith

    crossing-Answers : Answers (crossing_gate d c crossing)
    unfolding crossing_gate
    crossing-Answers = ground arith

    seed-Answers : Answers (seed_gate d c seed)
    unfolding seed_gate
    seed-Answers = ground arith

    gate-Answers :
        (requested : Bool) (first second : Gate)
        → Answers first
        → Answers second
        → (is_clear_or_idle (gate requested first second).0 ≡ true)
          ↔ (requested ≡ true → IsClear first × IsClear second)
    unfolding gate is_clear_or_idle
    gate-Answers false first second h k = ((λ _ asked. absurd (ground arith)), λ _. ground arith)
    gate-Answers true first second h k =
        ((λ clear asked. (ground arith, ground arith)), λ clear. ground (arith, clear refl))

    -- every boundary that was requested has what it asks for
    abbrev pub IsSupplied : Type 0
    IsSupplied =
        (effect_requested ≡ true → MayCross pea crossing)
        × (release_requested ≡ true → MayRelease pea seed)

    -- both boundaries' gates are passed where they are asked for
    abbrev IsPassed : Type 0
    IsPassed =
        (effect_requested ≡ true
          → IsClear (pea_gate d c pea "external_effect") × IsClear (crossing_gate d c crossing))
        × (release_requested ≡ true
            → IsClear (pea_gate d c pea "release") × IsClear (seed_gate d c seed))

    passed_iff : IsPassed ↔ IsSupplied
    passed_iff = (
      (λ (crosses, releases). (
        (λ asked.
            let (p, x) = crosses asked in
            ((pea_gate_iff pea "external_effect").0 p, (crossing_gate_iff crossing).0 x)),
        λ asked.
            let (p, x) = releases asked in
            ((pea_gate_iff pea "release").0 p, (seed_gate_iff seed).0 x),
      )),
      λ (crosses, releases). (
        (λ asked.
            let (p, x) = crosses asked in
            ((pea_gate_iff pea "external_effect").1 p, (crossing_gate_iff crossing).1 x)),
        λ asked.
            let (p, x) = releases asked in
            ((pea_gate_iff pea "release").1 p, (seed_gate_iff seed).1 x),
      ),
    )

    unblocked_iff : (is_present decided.blockers ≡ false) ↔ IsPassed
    unfolding decide effect_gate release_gate
    unblocked_iff =
        let (effect, effect_back) =
          gate-Blocks effect_requested (pea_gate d c pea "external_effect")
            (crossing_gate d c crossing) (pea-Blocks "external_effect") crossing-Blocks in
        let (release, release_back) =
          gate-Blocks release_requested (pea_gate d c pea "release") (seed_gate d c seed)
            (pea-Blocks "release") seed-Blocks in
        rw is_present-append (
          (λ h. (effect (ground arith), release (ground arith))),
          λ (crosses, releases). ground (arith, effect_back crosses, release_back releases),
        )

    cleared_iff : (clears_requested_boundaries decided ≡ true) ↔ IsPassed
    unfolding decide effect_gate release_gate clears_requested_boundaries
    cleared_iff =
        let (effect, effect_back) =
          gate-Answers effect_requested (pea_gate d c pea "external_effect")
            (crossing_gate d c crossing) (pea-Answers "external_effect") crossing-Answers in
        let (release, release_back) =
          gate-Answers release_requested (pea_gate d c pea "release") (seed_gate d c seed)
            (pea-Answers "release") seed-Answers in
        (
          (λ h. (effect (ground arith), release (ground arith))),
          λ (crosses, releases). ground (arith, effect_back crosses, release_back releases),
        )

    -- The decision lists no blocker exactly when every boundary that was requested has what it asks
    -- for: an effect a satisfied review and an authorized crossing, a release a satisfied review and
    -- a releasable output. The decision clears the requested boundaries in exactly the same case.
    pub blockers_iff :
        ((is_present decided.blockers ≡ false) ↔ IsSupplied)
        × ((clears_requested_boundaries decided ≡ true) ↔ IsSupplied)
    blockers_iff =
        let (supply, back) = passed_iff in
        (
          ((λ h. supply (unblocked_iff.0 h)), λ s. unblocked_iff.1 (back s)),
          ((λ h. supply (cleared_iff.0 h)), λ s. cleared_iff.1 (back s)),
        )

    pub released_of_clears :
        release_requested ≡ true
        → clears_requested_boundaries decided ≡ true
        → decided.release_status ≡ BoundaryStatus.clear
    unfolding decide release_gate gate clears_requested_boundaries is_clear_or_idle
    released_of_clears asked clears =
        let a = pea-Answers "release" in let b = seed-Answers in ground arith
