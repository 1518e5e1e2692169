-- ===== src/Tests/AuthorityTests.antt =====
-- The registry of authority.py on a small example: one grant, one permit.
use strongwiz.Base.{
  pos, ◌+◌, ◌≤◌, String, true, false, none, some, List, [], ◌∷◌, ◌≡◌, refl, ◌==◌, ◌⊎◌, tally,
  is_unique, string_eq, nat_eq, option_eq, String_discrete, ℕ_discrete, Option_discrete,
  Pair_discrete, is_nonempty, get_elem?, ◌↔◌,
}
use strongwiz.Base.Result.{ok, err, is_ok}
use strongwiz.Authority.Grant.{TaskGrant, human, active, TaskGrant-discrete, GrantStatus-discrete}
use strongwiz.Authority.Permit.{
  Bindings, DecisionPermit, ReleaseReceipt, released, permit_used, revalidated,
}
use strongwiz.Authority.Registry.{
  GrantRegistry, activate, Release, release_permit, begin_permit, require_active, reserve_and_issue,
  finish_reservation,
}
use strongwiz.Authority.Release.{result_of, Justified, released-Justified, release_permit_once}
use strongwiz.Authority.World.{Event, activate_grant, begin, new_world, run, is_for, is_open}
use strongwiz.Authority.World.Effects.{count_of}
use strongwiz.Authority.World.Budget.{issued-le-maximum}
use strongwiz.Authority.World.Serve.{release_permit_serves, Ended}
use strongwiz.Authority.World.Active.{active_grant_unique, activate_replaces, IsActivated}
use strongwiz.Authority.World.Tokens.{serial_tokens_unique, tokens}

abbrev pub grant : TaskGrant
grant = record {
  schema_id = "strongwiz.task-grant.v1";
  root_ref = "root";
  source = human;
  task_id = "task";
  goal_id = "goal";
  goal_ref = "goal-ref";
  scope_id = "scope";
  generation = 0;
  issued_boundary = 0;
  not_before_boundary = 1;
  expires_boundary = 9;
  maximum_invocations = 1;
  allowed_action_names = "move" ∷ [];
  allowed_action_refs = [];
  executor_id = "writer";
  executor_version = "1";
  executor_artifact_ref = "artifact";
  output_destination_ref = "out";
  release_review_required = false;
  maximum_attention_units = 0;
  replaces_grant_ref = none;
}

abbrev pub digest : TaskGrant → String
digest g = g.task_id

abbrev bindings : Bindings
bindings = record {
  token = "t1";
  grant_ref = "task";
  invocation_id = "i1";
  proposal_ref = "p";
  action_ref = "a";
  action_name = "move";
  executor_id = "writer";
  executor_version = "1";
  executor_artifact_ref = "artifact";
  observation_id = "o";
  observation_ref = "or";
  scope_id = "scope";
  route_ref = "r";
  control_ref = "c";
  lab_decision_ref = "l";
  boundary = 2;
}

abbrev request : Release
request = record {
  proposal_ref = "p";
  action_ref = "a";
  candidate_ref = "p";
  boundary = pos 3;
  action_name = "move";
  executor_id = "writer";
}

abbrev begun : List Event
begun = activate_grant grant ∷ begin bindings ∷ []

abbrev permit : DecisionPermit
permit = record { bindings = bindings; issuer = 7; used = false }

abbrev registry : GrantRegistry
registry = (run digest begun (new_world 7)).registry

abbrev receipt : ReleaseReceipt
receipt = record {
  bindings = bindings;
  candidate_ref = some "p";
  status = released;
  reason = revalidated;
  release_boundary = 3;
  output_destination_ref = some "out";
}

permits_after : (run digest begun (new_world 7)).permits ≡ permit ∷ []
unfolding run activate begin_permit require_active reserve_and_issue String_discrete ℕ_discrete
    Option_discrete Pair_discrete TaskGrant-discrete GrantStatus-discrete is_nonempty
permits_after = refl

request_released : result_of request registry permit ≡ ok receipt
unfolding run activate begin_permit require_active reserve_and_issue release_permit
    finish_reservation String_discrete ℕ_discrete Option_discrete Pair_discrete TaskGrant-discrete
    GrantStatus-discrete
request_released = refl

released-Justified_example : Justified request registry permit receipt
released-Justified_example =
    released-Justified request registry permit receipt request_released refl

release_permit_once_example :
    let (_, (_, q)) = release_permit request (registry, permit) in
    release_permit request (registry, q) ≡ (err permit_used, (registry, q))
release_permit_once_example =
    release_permit_once request request registry registry permit receipt request_released refl

known_grant : registry.grants "task" ≡ some grant
unfolding run activate begin_permit require_active reserve_and_issue String_discrete ℕ_discrete
    Option_discrete Pair_discrete TaskGrant-discrete GrantStatus-discrete
known_grant = refl

status_active : registry.statuses "task" ≡ some active
unfolding run activate begin_permit require_active reserve_and_issue String_discrete ℕ_discrete
    Option_discrete Pair_discrete TaskGrant-discrete GrantStatus-discrete
status_active = refl

issuer_kept : (7 == registry.permit_issuer) ≡ true
unfolding run activate begin_permit require_active reserve_and_issue String_discrete ℕ_discrete
    Option_discrete Pair_discrete TaskGrant-discrete GrantStatus-discrete
issuer_kept = refl

issued-le-maximum_example :
    (tally (is_for registry.permit_issuer "task") (run digest begun (new_world 7)).permits
      ≤ count_of registry.invocations "task")
    × (count_of registry.invocations "task" ≤ 1)
    × (tally (is_open registry.permit_issuer "task") (run digest begun (new_world 7)).permits
        ≤ count_of registry.outstanding "task")
issued-le-maximum_example = issued-le-maximum digest 7 begun "task" grant known_grant

permit_at : get_elem? (run digest begun (new_world 7)).permits 0 ≡ some permit
permit_at = rw permits_after

release_permit_serves_example :
    let (res, (h, q)) = release_permit request (registry, permit) in
    (q ≡ record permit { used = true })
    × (count_of h.outstanding "task" + 1 ≡ count_of registry.outstanding "task")
    × Ended request registry permit (pos 3) res
release_permit_serves_example =
    release_permit_serves digest 7 begun 0 permit request permit_at issuer_kept refl

active_grant_unique_example : ◌≡◌ {A = String} "task" "task" × (registry.active_ref ≡ some "task")
active_grant_unique_example =
    active_grant_unique digest 7 begun "task" "task" status_active status_active

abbrev second : TaskGrant
second = record grant { task_id = "second"; replaces_grant_ref = some "task" }

activate_replaces_example :
    let g = (run digest begun (new_world 7)).registry in
    let (res, h) = activate digest second g in
    ((is_ok res ≡ true) ↔ (
      ((g.grants "second" ≡ none) ⊎ (g.grants "second" ≡ some second))
      × (some "task" ≡ g.active_ref)))
    × (((is_ok res ≡ false) × (h ≡ g))
        ⊎ ((res ≡ ok "second")
            × IsActivated "second" second g h
            × ((s : String) → (h.statuses s ≡ some active) ↔ (s ≡ "second"))))
activate_replaces_example = activate_replaces digest 7 begun second

serial_tokens_unique_example :
    is_unique (tokens registry.permit_issuer (run digest begun (new_world 7)).permits) ≡ true
serial_tokens_unique_example = serial_tokens_unique digest 7 begun
