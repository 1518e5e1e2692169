-- ===== src/Tests/GoalTests.antt =====
-- A governing goal with two subgoals, one of which is parked by a new surface.
use strongwiz.Base.{String, true, none, some, List, [], ◌∷◌, ◌≡◌, ◌↔◌, refl, ◌⊎◌}
use mathlib.Core.List.{Memᴰ}
use strongwiz.Base.Result.{ok}
use strongwiz.Contracts.{Goal, GoalStatus}
use strongwiz.Base.Map.{insert, empty}
use strongwiz.Contracts.{GoalStatus-discrete, validate_goal}
use strongwiz.Base.{
  Option_discrete, String_discrete, sorted_set, insert_text, has_text, is_space, is_nonempty,
  text_lt, string_eq,
}
use strongwiz.Goals.Graph.{
  is_declared, copy_with, transition_of, write, transition, park, park_all, new_surface,
  active_among, add_subgoal, knows, GoalGraph, ScopeTransition, new_graph, active_goals, is_active,
}
use strongwiz.Goals.Rooted.{IsRooted}
use strongwiz.Goals.Calls.{Call, add, surface, calls, calls-IsRooted}
use strongwiz.Goals.Active.{active_goals_iff}

abbrev whole : Goal
whole = record {
  goal_id = "whole";
  statement = "s";
  scope_id = "scope";
  parent_goal_id = none;
  governing_goal_id = none;
  motivating_uncertainty = none;
  decision_that_could_change = none;
  smallest_sufficient_test = none;
  success_condition = "done";
  abandonment_condition = none;
  reopening_condition = none;
  status = GoalStatus.active;
}

abbrev part : Goal
part = record whole {
  goal_id = "part";
  parent_goal_id = some "whole";
  governing_goal_id = some "whole";
  motivating_uncertainty = some "u";
  decision_that_could_change = some "d";
  smallest_sufficient_test = some "t";
  reopening_condition = some "r";
}

abbrev detail : Goal
detail = record part { goal_id = "detail"; parent_goal_id = some "part" }

abbrev next_scope : ScopeTransition
next_scope = record {
  old_scope_id = "scope";
  old_epoch = 0;
  new_scope_id = "other";
  new_epoch = 1;
  observation_ref = "o";
  attentional_closure = true;
  retained_fact_refs = [];
  reopening_condition = "r";
}

abbrev digest : Goal → String
digest g = g.goal_id

abbrev script : List Call
script = add part ∷ add detail ∷ surface next_scope ("part" ∷ []) ∷ []

abbrev started : GoalGraph
started = record {
  governing_id = "whole";
  current = insert "whole" whole empty;
  goal_ids = "whole" ∷ [];
  versions = insert "whole" (whole ∷ []) empty;
  transitions = [];
  scope_transitions = [];
}

whole_governs : new_graph whole ≡ ok started
unfolding new_graph String_discrete Option_discrete GoalStatus-discrete
whole_governs = refl

calls-IsRooted_example : IsRooted (calls digest script started)
calls-IsRooted_example = calls-IsRooted digest script whole started whole_governs

detail_left : active_goals (calls digest script started) ≡ detail ∷ whole ∷ []
unfolding calls active_goals is_declared copy_with transition_of write transition park park_all
    new_surface is_active active_among add_subgoal knows sorted_set insert_text String_discrete
    Option_discrete GoalStatus-discrete validate_goal has_text is_space is_nonempty text_lt
detail_left = refl

active_goals_iff_example : Memᴰ detail (active_goals (calls digest script started)) ↔ (
    ((calls digest script started).current "detail" ≡ some detail)
    × ((detail.status ≡ GoalStatus.active) ⊎ (detail.status ≡ GoalStatus.reopened)))
active_goals_iff_example =
    active_goals_iff (calls digest script started) detail
      (calls-IsRooted digest script whole started whole_governs)
