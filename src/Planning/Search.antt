-- ===== src/Planning/Search.antt =====
-- `bounded_astar` and `_reconstruct` of planning.py.
use strongwiz.Base.{
  take, ℕ, zero, suc, ◌+◌, ◌*◌, String, Bool, not, ◌&&◌, ◌||◌, Option, none, some, List, [], ◌∷◌,
  ◌==◌, ltb, leb, length, text_lt, string_eq, nat_eq, option_eq, if◌then◌else◌,
}
use strongwiz.Base.Map.{Map, empty, insert, get_or}
use strongwiz.Base.Result.{Result, ok, err, ◌>>=◌}
use strongwiz.Base.{pos, negsuc}
use strongwiz.Planning.Problem.{
  SearchDisposition, found, exhausted, budget_exhausted, SearchError, nonpositive_budget,
  negative_heuristic, missing_key, out_of_fuel, SearchEdge, SearchProblem, SearchResult,
}

-- `child_cost >= best_cost.get(child_key, child_cost + 1)`
unfoldable pub is_no_better : ℕ → Option ℕ → Bool
is_no_better cost best = leb (get_or best (suc cost)) cost

module _ (S A : Type 0) where
  -- a tuple on the heap; no two have one `serial`
  pub record Entry : Type 0 where
    pub estimate : ℕ
    pub cost : ℕ
    pub key : String
    pub serial : ℕ
    pub state : S

  -- the order of the tuples, decided by `serial` at the latest
  unfoldable pub entry_lt : Entry → Entry → Bool
  entry_lt a b =
      ltb a.estimate b.estimate
      || (a.estimate == b.estimate
          && (ltb a.cost b.cost
              || (a.cost == b.cost
                  && (text_lt a.key b.key || (a.key == b.key && ltb a.serial b.serial)))))

  -- `heapq.heappop` of a heap with these tuples: a least one and the others
  unfoldable pub pop_min : Entry → List Entry → Entry × List Entry
  pop_min x [] = (x, [])
  pop_min x (y ∷ ys) =
      let (m, rest) = pop_min y ys in if entry_lt m x then (m, x ∷ rest) else (x, y ∷ ys)

  -- the variables of the search
  pub record Search : Type 0 where
    pub frontier : List Entry
    pub best_cost : Map String ℕ
    pub state_by_key : Map String S
    pub parent : Map String (String × A)
    pub next_serial : ℕ
    pub expanded : ℕ

module _ {S A : Type 0} (problem : SearchProblem S A) where
  open problem use {state_key, is_goal, neighbors, heuristic, action_key}

  -- the sort key of an edge: the child's key, the action's key and the cost
  unfoldable pub edge_lt : SearchEdge S A → SearchEdge S A → Bool
  edge_lt a b =
      text_lt (state_key a.state) (state_key b.state)
      || (state_key a.state == state_key b.state
          && (text_lt (action_key a.action) (action_key b.action)
              || (action_key a.action == action_key b.action && ltb a.cost b.cost)))

  -- `sorted` is stable
  unfoldable pub insert_edge : SearchEdge S A → List (SearchEdge S A) → List (SearchEdge S A)
  insert_edge e [] = e ∷ []
  insert_edge e (x ∷ xs) =
      let rest = insert_edge e xs in if edge_lt x e then x ∷ rest else e ∷ x ∷ xs

  unfoldable pub ordered_edges : List (SearchEdge S A) → List (SearchEdge S A)
  unfolding insert_edge
  ordered_edges [] = []
  ordered_edges (e ∷ es) = insert_edge e (ordered_edges es)

  -- what an edge to a child with a better cost writes
  unfoldable pub improve : Entry S A → SearchEdge S A → ℕ → Search S A → Search S A
  improve from e h st =
      let child = state_key e.state in
      let cost = from.cost + e.cost in
      record st {
        best_cost = insert child cost st.best_cost;
        state_by_key = insert child e.state st.state_by_key;
        parent = insert child (from.key, e.action) st.parent;
        frontier =
            record {
              estimate = cost + h;
              cost = cost;
              key = child;
              serial = st.next_serial;
              state = e.state;
            }
            ∷ st.frontier;
        next_serial = suc st.next_serial;
      }

  -- the body of the loop over `ordered_edges`
  unfoldable pub relax : Entry S A → SearchEdge S A → Search S A → Result SearchError (Search S A)
  relax from e st =
      if is_no_better (from.cost + e.cost) (st.best_cost (state_key e.state))
      then ok st
      else elim (heuristic e.state) [
        | negsuc _ ↦ err negative_heuristic
        | pos h ↦ ok (improve from e h st)
      ]

  unfoldable pub relax_all :
      Entry S A → List (SearchEdge S A) → Search S A → Result SearchError (Search S A)
  relax_all from [] st = ok st
  relax_all from (e ∷ es) st = relax from e st >>= λ st'. relax_all from es st'

  -- the loop of `_reconstruct`. The source appends and reverses at the end; here the lists grow at
  -- the front.
  unfoldable pub trace_back :
      ℕ
      → Map String (String × A)
      → String
      → List String
      → List A
      → Result SearchError (List String × List A)
  trace_back zero parent current keys actions = err out_of_fuel
  trace_back (suc fuel) parent current keys actions = elim (parent current) [
    | none ↦ ok (keys, actions)
    | some (previous, action) ↦ trace_back fuel parent previous (previous ∷ keys) (action ∷ actions)
  ]

  -- `tuple(state_by_key[key] for key in keys)`
  unfoldable pub states_of : Map String S → List String → Result SearchError (List S)
  states_of m [] = ok []
  states_of m (k ∷ ks) =
      let rest = states_of m ks in
      elim (m k) [ none ↦ err missing_key | some s ↦ rest >>= λ ss. ok (s ∷ ss) ]

  -- `_reconstruct`; a chain of parents is no longer than the goal's cost
  unfoldable pub reconstruct : Entry S A → Search S A → Result SearchError (List S × List A)
  reconstruct goal st = do
    (keys, actions) ← trace_back (suc goal.cost) st.parent goal.key (goal.key ∷ []) []
    states ← states_of st.state_by_key keys
    ok (states, actions)

  -- a search that ends without a path
  unfoldable pub give_up : SearchDisposition → ℕ → ℕ → String → SearchResult S A
  give_up disposition expanded frontier_size reason = record {
    disposition = disposition;
    states = [];
    actions = [];
    total_cost = none;
    expanded = expanded;
    frontier_size = frontier_size;
    reason = reason;
  }

  -- the branch of the loop for a goal
  unfoldable pub finish : Entry S A → Search S A → Result SearchError (SearchResult S A)
  finish goal st = do
    (states, actions) ← reconstruct goal st
    ok (record {
      disposition = found;
      states = states;
      actions = actions;
      total_cost = some goal.cost;
      expanded = st.expanded;
      frontier_size = length st.frontier;
      reason = "goal predicate reached";
    })

  module _ (max_expansions max_neighbors : ℕ) where
    -- how one round of the loop ends
    pub data Round : Type 0 where
      next : Search S A → Round
      done : Result SearchError (SearchResult S A) → Round

    abbrev pub continue : Result SearchError (Search S A) → Round
    continue (ok st) = next st
    continue (err e) = done (err e)

    -- the expansion of a state that is no goal
    unfoldable pub expand : Entry S A → Search S A → Round
    expand from st =
        if leb max_expansions st.expanded
        then done (
            ok (
              give_up budget_exhausted st.expanded (suc (length st.frontier))
                "expansion ceiling reached before a goal"))
        else (let edges = take (suc max_neighbors) (neighbors from.state) in
            if ltb max_neighbors (length edges)
            then done (
                ok (
                  give_up budget_exhausted (suc st.expanded) (length st.frontier)
                    "neighbor ceiling reached during one expansion"))
            else continue
                (relax_all from (ordered_edges edges) (record st { expanded = suc st.expanded })))

    -- the body of the loop for a popped tuple
    unfoldable pub visit : Entry S A → Search S A → Round
    visit from st =
        if not (st.best_cost from.key == some from.cost)
        then next st
        else if is_goal from.state
        then done (finish from st)
        else expand from st

    unfoldable pub round : Search S A → Round
    round st = elim st.frontier [
      | [] ↦
          done
            (ok (give_up exhausted st.expanded 0 "reachable state graph exhausted without a goal"))
      | x ∷ xs ↦ (let (m, rest) = pop_min S A x xs in visit m (record st { frontier = rest }))
    ]

    unfoldable pub loop : ℕ → Search S A → Result SearchError (SearchResult S A)
    loop zero st = err out_of_fuel
    loop (suc fuel) st = elim (round st) [ done r ↦ r | next st' ↦ loop fuel st' ]

    unfoldable pub initial : S → ℕ → Search S A
    initial start h = record {
      frontier =
          record { estimate = h; cost = 0; key = state_key start; serial = 0; state = start } ∷ [];
      best_cost = insert (state_key start) 0 empty;
      state_by_key = insert (state_key start) start empty;
      parent = empty;
      next_serial = 1;
      expanded = 0;
    }

    -- a round pops a tuple, and an expansion pushes at most `max_neighbors`
    unfoldable pub bounded_astar : S → Result SearchError (SearchResult S A)
    unfolding initial
    bounded_astar start =
        if leb max_expansions 0 || leb max_neighbors 0
        then err nonpositive_budget
        else elim (heuristic start) [
          | negsuc _ ↦ err negative_heuristic
          | pos h ↦ loop (3 + max_expansions * max_neighbors) (initial start h)
        ]
