-- ===== src/Goals/Graph.antt =====
-- `GoalGraph` of goals.py, its records and its methods.
use strongwiz.Base.{
  ℕ, String, Bool, true, false, not, ◌&&◌, ◌||◌, Option, none, some, List, [], ◌∷◌, ◌++◌, ◌==◌, leb,
  all, is_nonempty, is_present, sorted_set, string_eq, option_eq, if◌then◌else◌,
}
use strongwiz.Base.Map.{Map, empty, insert, has_key}
use strongwiz.Base.Result.{Result, ok, err}
use strongwiz.Base.Exec.{Exec, pure, gets, lift, or_raise, raise_if, modify, ◌>>=◌, ◌>>◌}
use strongwiz.Contracts.{Goal, GoalStatus, Invalid, validate_goal, goal_status_eq}

pub record GoalTransition : Type 0 where
  pub goal_id : String
  pub prior_ref : String
  pub next_ref : String
  pub prior_status : GoalStatus
  pub next_status : GoalStatus
  pub reason : String
  pub evidence_refs : List String

pub record ScopeTransition : Type 0 where
  pub old_scope_id : String
  pub old_epoch : ℕ
  pub new_scope_id : String
  pub new_epoch : ℕ
  pub observation_ref : String
  pub attentional_closure : Bool
  pub retained_fact_refs : List String
  pub reopening_condition : String

-- The messages of `GoalError`, the validators' errors, and the `KeyError` of a subscript.
pub data GoalError : Type 0 where
  parented_governing inactive_governing duplicate_goal unknown_parent : GoalError
  foreign_governing incomplete_transition unknown_goal same_status : GoalError
  not_reopenable unknown_stage_goal stale_epoch missing_scope unreopenable_scope : GoalError
  missing_key : GoalError
  invalid_goal : Invalid → GoalError

unfoldable pub validate_scope : ScopeTransition → Result GoalError ScopeTransition
validate_scope t =
    if leb t.new_epoch t.old_epoch
    then err stale_epoch
    else if not (all is_nonempty (t.old_scope_id ∷ t.new_scope_id ∷ t.observation_ref ∷ []))
    then err missing_scope
    else if not (is_nonempty t.reopening_condition)
    then err unreopenable_scope
    else ok t

-- `_current` and `_versions`, with the keys of `_current` as they were added
pub record GoalGraph : Type 0 where
  pub governing_id : String
  pub current : Map String Goal
  pub goal_ids : List String
  pub versions : Map String (List Goal)
  pub transitions : List GoalTransition
  pub scope_transitions : List ScopeTransition

unfoldable pub new_graph : Goal → Result GoalError GoalGraph
new_graph g =
    if not (g.parent_goal_id == none)
    then err parented_governing
    else if not (g.status == GoalStatus.active)
    then err inactive_governing
    else ok (record {
      governing_id = g.goal_id;
      current = insert g.goal_id g empty;
      goal_ids = g.goal_id ∷ [];
      versions = insert g.goal_id (g ∷ []) empty;
      transitions = [];
      scope_transitions = [];
    })

-- a subscript of `_current`
unfoldable pub current : String → GoalGraph → Result GoalError Goal
current k graph = elim (graph.current k) [ none ↦ err unknown_goal | some g ↦ ok g ]

-- `goal_id in self._current`, where `None` is no key
unfoldable pub knows : GoalGraph → Option String → Bool
knows graph none = false
knows graph (some k) = has_key graph.current k

abbrev pub Action : Type 0 → Type 0
Action = Exec GoalGraph GoalError

unfoldable pub add_subgoal : Goal → Action (Unit {0})
unfolding knows
add_subgoal goal = do
  known ← gets (λ graph. knows graph (some goal.goal_id))
  raise_if known duplicate_goal
  parented ← gets (λ graph. knows graph goal.parent_goal_id)
  raise_if (not parented) unknown_parent
  linked ← gets (λ graph. goal.governing_goal_id == some graph.governing_id)
  raise_if (not linked) foreign_governing
  modify (λ graph. record graph {
    current = insert goal.goal_id goal graph.current;
    goal_ids = graph.goal_ids ++ goal.goal_id ∷ [];
    versions = insert goal.goal_id (goal ∷ []) graph.versions;
  })

-- a text that is there and not empty
unfoldable pub is_declared : Option String → Bool
is_declared none = false
is_declared (some s) = is_nonempty s

-- `model_copy(update={"status": status})`, which validates the copy
unfoldable pub copy_with : GoalStatus → Goal → Result GoalError Goal
copy_with status prior = elim (validate_goal (record prior { status = status })) [
  | ok g ↦ ok g
  | err e ↦ err (invalid_goal e)
]

-- `digest` is the content digest of goals
module _ (digest : Goal → String) where
  unfoldable pub transition_of :
      String → Goal → Goal → GoalStatus → String → List String → GoalTransition
  transition_of k prior next status reason evidence_refs = record {
    goal_id = k;
    prior_ref = digest prior;
    next_ref = digest next;
    prior_status = prior.status;
    next_status = status;
    reason = reason;
    evidence_refs = evidence_refs;
  }

  -- the writes of a transition
  unfoldable pub write : String → Goal → GoalTransition → Action GoalTransition
  write k next t = do
    modify (λ graph. record graph { current = insert k next graph.current })
    found ← gets (λ graph. graph.versions k)
    versions ← or_raise found missing_key
    modify (λ graph. record graph {
      versions = insert k (versions ++ next ∷ []) graph.versions;
      transitions = graph.transitions ++ t ∷ [];
    })
    pure t

  unfoldable pub transition : String → GoalStatus → String → List String → Action GoalTransition
  transition k status reason evidence_refs = do
    raise_if (not (is_nonempty reason) || not (is_present evidence_refs)) incomplete_transition
    found ← gets (λ graph. graph.current k)
    prior ← or_raise found unknown_goal
    raise_if (prior.status == status) same_status
    raise_if (status == GoalStatus.reopened && not (is_declared prior.reopening_condition))
        not_reopenable
    next ← lift (copy_with status prior)
    write k next (transition_of k prior next status reason evidence_refs)

  -- the body of the loop over the goals to park
  unfoldable pub park : String → String → Action (Unit {0})
  park observation_ref k = do
    found ← gets (λ graph. graph.current k)
    goal ← or_raise found unknown_stage_goal
    elim (goal.status == GoalStatus.active) [
      | false ↦ pure tt
      | true ↦
          transition k GoalStatus.parked "attention moved to a materially changed surface"
            (observation_ref ∷ [])
          >>= λ _. pure tt
    ]

  unfoldable pub park_all : String → List String → Action (Unit {0})
  park_all observation_ref [] = pure tt
  park_all observation_ref (k ∷ ks) = park observation_ref k >> park_all observation_ref ks

  abbrev pub append_scope : ScopeTransition → Action (Unit {0})
  append_scope t =
      modify (λ graph. record graph { scope_transitions = graph.scope_transitions ++ t ∷ [] })

  unfoldable pub new_surface : ScopeTransition → List String → Action (Unit {0})
  new_surface t park_goal_ids = park_all t.observation_ref park_goal_ids >> append_scope t

-- `status in {ACTIVE, REOPENED}`
unfoldable pub is_active : Goal → Bool
is_active g = g.status == GoalStatus.active || g.status == GoalStatus.reopened

-- the goals of these keys that are active
unfoldable pub active_among : GoalGraph → List String → List Goal
active_among graph [] = []
active_among graph (k ∷ ks) =
    let rest = active_among graph ks in
    elim (graph.current k) [ none ↦ rest | some g ↦ if is_active g then g ∷ rest else rest ]

unfoldable pub active_goals : GoalGraph → List Goal
active_goals graph = active_among graph (sorted_set graph.goal_ids)
