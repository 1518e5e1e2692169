-- ===== src/Goals/Calls.antt =====
-- Sequences of calls on one goal graph, raised ones among them.
use strongwiz.Base.{String, List, [], ◌∷◌, ◌≡◌, ◌⊎◌, inl, inr, arith, string_eq, option_eq}
use strongwiz.Base.Result.{Result, ok, err}
use strongwiz.Base.Exec.{◌>>◌, Exec}
use strongwiz.Contracts.{Goal, GoalStatus, goal_status_eq}
use strongwiz.Goals.Graph.{
  GoalGraph, GoalError, ScopeTransition, new_graph, add_subgoal, transition, park, park_all,
  new_surface, append_scope,
}
use strongwiz.Goals.Rooted.{IsRooted, new_graph-IsRooted, add_subgoal-IsRooted, transition-IsRooted}

-- a call of a method that writes
pub data Call : Type 0 where
  add : Goal → Call
  change : String → GoalStatus → String → List String → Call
  surface : ScopeTransition → List String → Call

module _ (digest : Goal → String) where
  -- the graph that a call leaves, whether it returned or raised
  unfoldable pub step : Call → GoalGraph → GoalGraph
  step (add g) graph = (add_subgoal g graph).1
  step (change k status reason refs) graph = (transition digest k status reason refs graph).1
  step (surface t ks) graph = (new_surface digest t ks graph).1

  unfoldable pub calls : List Call → GoalGraph → GoalGraph
  unfolding step
  calls [] graph = graph
  calls (c ∷ cs) graph = calls cs (step c graph)

  park_cases :
      (o k : String) (graph : GoalGraph)
      → ((park digest o k graph).1 ≡ graph)
        ⊎ ((park digest o k graph).1
            ≡ (transition digest k GoalStatus.parked
                "attention moved to a materially changed surface"
                (o ∷ [])
                graph).1)
  unfolding park
  park_cases o k graph = ground arith

  park-IsRooted :
      (o k : String) (graph : GoalGraph) → IsRooted graph → IsRooted (park digest o k graph).1
  park-IsRooted o k graph rooted = elim (park_cases o k graph) [
    | inl same ↦ rw same rooted
    | inr moved ↦ rw moved (transition-IsRooted digest k _ _ _ graph rooted)
  ]

  then-IsRooted :
      (r : Result GoalError (Unit {0}) × GoalGraph) (rest : Exec GoalGraph GoalError (Unit {0}))
      (graph : GoalGraph)
      → IsRooted r.1
      → ((next : GoalGraph) → IsRooted next → IsRooted (rest next).1)
      → IsRooted (((λ _. r) >> rest) graph).1
  then-IsRooted (ok _, next) rest graph h keeps = keeps next h
  then-IsRooted (err _, next) rest graph h keeps = h

  park_all-IsRooted :
      (o : String) (ks : List String) (graph : GoalGraph)
      → IsRooted graph
      → IsRooted (park_all digest o ks graph).1
  unfolding park_all
  park_all-IsRooted o [] graph rooted = rooted
  park_all-IsRooted o (k ∷ ks) graph rooted =
      then-IsRooted (park digest o k graph) (park_all digest o ks) graph
        (park-IsRooted o k graph rooted) (λ next h. park_all-IsRooted o ks next h)

  step-IsRooted : (c : Call) (graph : GoalGraph) → IsRooted graph → IsRooted (step c graph)
  unfolding step new_surface
  step-IsRooted (add g) graph rooted = add_subgoal-IsRooted g graph rooted
  step-IsRooted (change k status reason refs) graph rooted =
      transition-IsRooted digest k status reason refs graph rooted
  step-IsRooted (surface t ks) graph rooted =
      then-IsRooted (park_all digest t.observation_ref ks graph) (append_scope digest t) graph
        (park_all-IsRooted t.observation_ref ks graph rooted)
        (λ next h. record {
          root = h.root;
          keyed = h.keyed;
          descends = h.descends;
          versioned = h.versioned;
          listed = h.listed;
        })

  -- After any calls on a new graph, raised ones among them, each goal is stored under its own
  -- identity and with its versions, the keys are the listed ones, and from each goal the parents
  -- lead in finitely many steps to the governing goal, which every goal on the way names as its
  -- own.
  pub calls-IsRooted :
      (cs : List Call) (g : Goal) (graph : GoalGraph)
      → new_graph g ≡ ok graph
      → IsRooted (calls cs graph)
  unfolding calls
  calls-IsRooted cs g graph done = go cs graph (new_graph-IsRooted g graph done)
    where
      go : (cs : List Call) (graph : GoalGraph) → IsRooted graph → IsRooted (calls cs graph)
      go [] graph rooted = rooted
      go (c ∷ cs) graph rooted = go cs (step c graph) (step-IsRooted c graph rooted)
