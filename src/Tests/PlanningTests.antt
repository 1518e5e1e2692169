-- ===== src/Tests/PlanningTests.antt =====
-- The search on a graph with three states, where the direct edge is the dearer one.
use strongwiz.Base.{
  take, String, true, false, some, List, [], ◌∷◌, ◌≡◌, refl, ◌⊎◌, Bool, nat_eq, arith,
}
use strongwiz.Base.Result.{ok, err}
use strongwiz.Base.{pos}
use strongwiz.Planning.Problem.{SearchEdge, SearchProblem, SearchResult, SearchError, found}
use strongwiz.Base.{String_discrete, ℕ_discrete, Option_discrete, text_lt}
use strongwiz.Planning.Search.{
  bounded_astar, loop, round, visit, expand, pop_min, relax_all, relax, ordered_edges, insert_edge,
  edge_lt, entry_lt, is_no_better, improve, finish, give_up, initial, reconstruct, states_of,
  trace_back,
}
use strongwiz.Planning.Rounds.{IsRefused}
use strongwiz.Planning.Loop.{IsAnswer}
use strongwiz.Planning.Answer.{bounded_astar-IsAnswer}

data Place : Type 0 where
  home river hill : Place

abbrev name : Place → String
name home = "home"
name river = "river"
name hill = "hill"

abbrev ways : Place → List (SearchEdge Place String)
ways home =
    record { action = "climb"; state = hill; cost = 5; positive = refl }
    ∷ record { action = "walk"; state = river; cost = 1; positive = refl }
    ∷ []
ways river = record { action = "cross"; state = hill; cost = 2; positive = refl } ∷ []
ways hill = []

abbrev is_hill : Place → Bool
is_hill home = false
is_hill river = false
is_hill hill = true

abbrev problem : SearchProblem Place String
problem = record {
  state_key = name;
  is_goal = is_hill;
  neighbors = ways;
  heuristic = λ _. pos 0;
  action_key = λ a. a;
}

abbrev by_the_river : SearchResult Place String
by_the_river = record {
  disposition = found;
  states = home ∷ river ∷ hill ∷ [];
  actions = "walk" ∷ "cross" ∷ [];
  total_cost = some 3;
  expanded = 2;
  frontier_size = 1;
  reason = "goal predicate reached";
}

cheapest_way : bounded_astar problem 4 3 home ≡ ok by_the_river
unfolding bounded_astar loop round visit expand take pop_min relax_all relax ordered_edges
    insert_edge edge_lt entry_lt is_no_better improve finish give_up initial reconstruct states_of
    trace_back String_discrete ℕ_discrete Option_discrete text_lt
cheapest_way = refl

bounded_astar-IsAnswer_example :
    ((r : SearchResult Place String) × (bounded_astar problem 4 3 home ≡ ok r)
      × IsAnswer problem "home" 4 3 r)
    ⊎ ((e : SearchError) × (bounded_astar problem 4 3 home ≡ err e) × IsRefused problem e)
bounded_astar-IsAnswer_example = bounded_astar-IsAnswer problem home 4 3 (omega arith) (omega arith)
