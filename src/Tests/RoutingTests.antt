-- ===== src/Tests/RoutingTests.antt =====
-- The router on a small example: a proposal inside the aperture, and one that reopens an account.
use strongwiz.Base.{
  true, false, none, some, [], ◌∷◌, ◌≡◌, refl, ◌↔◌, if◌then◌else◌, has_text, string_eq,
  String_discrete,
}
use mathlib.Core.List.{Memᴰ}
use strongwiz.Base.Result.{ok}
use strongwiz.Canonical.Json.{dict, end}
use strongwiz.Contracts.{
  DecisionEffect, ActionSpec, Distinction, CandidateProposal, ControlSnapshot, RouteDecision,
  no_costs, nonselecting,
}
use strongwiz.Routing.Guards.{Digests}
use strongwiz.Routing.Evaluate.{evaluate_proposal}
use strongwiz.Routing.Admission.{IsAdmissible, evaluate_proposal_iff}
use strongwiz.Routing.Select.{select_route}
use strongwiz.Routing.Selection.{IsBest, select_route-IsBest}

abbrev action : ActionSpec
action = record { name = "move"; parameters = dict end }

abbrev distinction : Distinction
distinction = record {
  distinction_id = "d";
  statement = "s";
  scope_id = "scope";
  parent_goal_id = "goal";
  governing_goal_id = "goal";
  candidate_resolutions = "a" ∷ "b" ∷ [];
  competing_predictions = "x" ∷ "y" ∷ [];
  decision_effects = DecisionEffect.plan ∷ [];
  decision_that_could_change = "next";
  relevance_summary = "r";
  smallest_discriminating_test = none;
  reopening_condition = "never";
  parked = false;
}

abbrev pub first : CandidateProposal
first = record {
  schema_id = "strongwiz.contract.v1";
  proposal_id = "p1";
  model_driver_id = "driver";
  observation_id = "obs";
  observation_ref = "obs-ref";
  scope_id = "scope";
  goal_id = "goal";
  goal_ref = "goal-ref";
  action = action;
  meaningful_distinction = distinction;
  prediction = record {
    prediction_id = "q";
    hypothesis_refs = [];
    expected_consequences = "x" ∷ [];
    falsified_by = "y" ∷ [];
    alternatives = [];
  };
  decision_effects = DecisionEffect.plan ∷ [];
  evidence_refs = "e1" ∷ [];
  trace_refs = [];
  residual_refs = [];
  material_delta_refs = [];
  prior_account_ref = none;
  concise_rationale = "why";
  reversible = true;
  expected_progress_rank = 1;
  information_gain_rank = 2;
  risk_rank = 0;
  costs = record no_costs { environment_actions = 1 };
}

-- it asks to reopen an account on an accepted delta
abbrev second : CandidateProposal
second = record first {
  proposal_id = "p2";
  prior_account_ref = some "acct";
  material_delta_refs = "m1" ∷ [];
}

abbrev pub control : ControlSnapshot
control = record {
  schema_id = "strongwiz.contract.v1";
  account_id = "account";
  account_version = 3;
  observation_id = "obs";
  observation_ref = "obs-ref";
  scope_id = "scope";
  active_goal_ids = "goal" ∷ [];
  active_goal_refs = "goal-ref" ∷ [];
  available_evidence_refs = "e1" ∷ "e2" ∷ [];
  available_trace_refs = [];
  available_residual_refs = [];
  available_account_refs = "acct" ∷ [];
  accepted_material_delta_refs = "m1" ∷ [];
  allowed_action_names = "move" ∷ [];
  allowed_action_refs = [];
  remaining_budget = record no_costs { environment_actions = 2 };
  lab_boundary = none;
  execution_grant_ref = none;
  serial_token = "serial";
  shadow_only = true;
}

abbrev pub digests : Digests
digests = record {
  of_proposal = λ p. p.proposal_id;
  of_action = λ a. a.name;
  of_control = λ c. c.serial_token;
}

control_is_bound : has_text (digests.of_control control) ≡ true
unfolding has_text
control_is_bound = refl

evaluate_proposal_iff_example :
    (r : RouteDecision) × (evaluate_proposal digests second control none ≡ ok r)
    × ((nonselecting r.disposition ≡ false) ↔ IsAdmissible digests second control)
    × (r.selected_proposal_id ≡ (if nonselecting r.disposition then none else some "p2"))
    × (r.selected_proposal_ref ≡ (if nonselecting r.disposition then none else some "p2"))
evaluate_proposal_iff_example = evaluate_proposal_iff digests second control none control_is_bound

select_route-IsBest_example :
    (q : CandidateProposal) × Memᴰ q (first ∷ second ∷ [])
    × (select_route digests control none true (first ∷ second ∷ [])
        ≡ evaluate_proposal digests q control none)
    × IsBest digests control none control_is_bound true (first ∷ second ∷ []) q
unfolding String_discrete
select_route-IsBest_example =
    select_route-IsBest digests control none control_is_bound true first (second ∷ []) refl
