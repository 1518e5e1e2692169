-- ===== src/Goals/Rooted.antt =====
-- Every goal of a graph leads by its parents to the governing goal, whatever is called.
use strongwiz.Base.{
  String, true, false, none, some, List, [], ◌∷◌, ◌++◌, ◌==◌, ◌≡◌, ◌⊎◌, inl, inr, refl, arith,
  contains, string_eq, option_eq, Bool-cases, ◌∙◌, contains-append, Option-cases,
}
use strongwiz.Base.Map.{Map, insert, has_key}
use strongwiz.Base.Result.{ok, err, Result-cases}
use strongwiz.Contracts.{Goal, GoalStatus, validate_goal, goal_status_eq}
use strongwiz.Goals.Graph.{
  GoalGraph, GoalError, new_graph, add_subgoal, transition, write, knows, copy_with, transition_of,
  GoalTransition, missing_key,
}

-- the parents of a key lead to the governing goal, and each links to it
pub data Descends (governing : String) (current : Map String Goal) : String → Type 0 where
  top : Descends governing current governing
  below :
      {p : String} (k : String) (g : Goal)
      → current k ≡ some g
      → g.parent_goal_id ≡ some p
      → g.governing_goal_id ≡ some governing
      → Descends governing current p
      → Descends governing current k

pub record IsRooted (graph : GoalGraph) : Type 0 where
  pub root : has_key graph.current graph.governing_id ≡ true
  pub keyed : (k : String) (g : Goal) → graph.current k ≡ some g → g.goal_id ≡ k
  pub descends :
      (k : String) (g : Goal)
      → graph.current k ≡ some g
      → Descends graph.governing_id graph.current k
  pub versioned :
      (k : String) (g : Goal)
      → graph.current k ≡ some g
      → (vs : List Goal) × (graph.versions k ≡ some vs)
  pub listed : (k : String) → contains graph.goal_ids k ≡ has_key graph.current k

-- Chains of parents stay where the links of the goals on them stay.
Descends-kept :
    {governing : String} {old new : Map String Goal} {k : String}
    → ((j : String) (g : Goal)
        → old j ≡ some g
        → (h : Goal) × (new j ≡ some h)
          × (h.parent_goal_id ≡ g.parent_goal_id)
          × (h.governing_goal_id ≡ g.governing_goal_id))
    → Descends governing old k
    → Descends governing new k
Descends-kept keep top = top
Descends-kept keep (below k g at parent governing rest) =
    let (h, here, parents, links) = keep k g at in
    below k h here (parents ∙ parent) (links ∙ governing) (Descends-kept keep rest)

pub new_graph-IsRooted : (g : Goal) (graph : GoalGraph) → new_graph g ≡ ok graph → IsRooted graph
unfolding new_graph
new_graph-IsRooted g graph done = record {
  root = ground arith;
  keyed = λ k x at. ground arith;
  descends = λ k x at. let same : k ≡ graph.governing_id = ground arith in rw same top;
  versioned = λ k x at. (g ∷ [], ground arith);
  listed = λ k. ground arith;
}

-- a known parent of this key
abbrev Parent : GoalGraph → Goal → String → Type 0
Parent graph g p =
    (g.parent_goal_id ≡ some p)
    × (has_key graph.current p ≡ true)
    × (g.governing_goal_id ≡ some graph.governing_id)
    × (has_key graph.current g.goal_id ≡ false)

abbrev added : Goal → GoalGraph → GoalGraph
added g graph = record graph {
  current = insert g.goal_id g graph.current;
  goal_ids = graph.goal_ids ++ g.goal_id ∷ [];
  versions = insert g.goal_id (g ∷ []) graph.versions;
}

add_subgoal_cases :
    (g : Goal) (graph : GoalGraph)
    → ((add_subgoal g graph).1 ≡ graph)
      ⊎ ((p : String) × Parent graph g p × ((add_subgoal g graph).1 ≡ added g graph))
unfolding add_subgoal knows
add_subgoal_cases g graph = ground arith

added-IsRooted :
    (g : Goal) (graph : GoalGraph) (p : String)
    → IsRooted graph
    → Parent graph g p
    → IsRooted (added g graph)
added-IsRooted g graph p rooted (parent, known, governing, new) =
    let kept : (k : String)
        → Descends graph.governing_id graph.current k
        → Descends graph.governing_id (added g graph).current k =
      λ k. Descends-kept (λ j x at. (x, ground arith, refl, refl)) in
    record {
      root = ground (arith, rooted.root);
      keyed = λ k x at. elim (Bool-cases (k == g.goal_id)) [
        | inl this ↦ ground arith
        | inr other ↦ rooted.keyed k x (ground arith)
      ];
      descends = λ k x at. elim (Bool-cases (k == g.goal_id)) [
        | inl this ↦
            let same : k ≡ g.goal_id = ground arith in
            let (q, here) : (q : Goal) × (graph.current p ≡ some q) = ground arith in
            rw same (
              below g.goal_id g (ground arith) parent governing (kept p (rooted.descends p q here)))
        | inr other ↦ kept k (rooted.descends k x (ground arith))
      ];
      versioned = λ k x at. elim (Bool-cases (k == g.goal_id)) [
        | inl this ↦ (g ∷ [], ground arith)
        | inr other ↦ let (vs, here) = rooted.versioned k x (ground arith) in (vs, ground arith)
      ];
      listed =
          λ k. ground (arith, rooted.listed k, contains-append graph.goal_ids (g.goal_id ∷ []) k);
    }

validate_goal_lem : (g h : Goal) → validate_goal g ≡ ok h → h ≡ g
unfolding validate_goal
validate_goal_lem g h done = ground arith

copy_with_lem :
    (status : GoalStatus) (g h : Goal)
    → copy_with status g ≡ ok h
    → h ≡ record g { status = status }
unfolding copy_with
copy_with_lem status g h done = elim (Result-cases (validate_goal (record g { status = status }))) [
  | inl (x, good) ↦
      let same : h ≡ x = ground arith in
      same ∙ validate_goal_lem (record g { status = status }) x good
  | inr (e, bad) ↦ absurd (ground arith)
]

-- the goal gets another status
abbrev moved : String → Goal → List Goal → GoalTransition → GoalGraph → GoalGraph
moved k next vs t graph = record graph {
  current = insert k next graph.current;
  versions = insert k (vs ++ next ∷ []) graph.versions;
  transitions = graph.transitions ++ t ∷ [];
}

moved-IsRooted :
    (graph : GoalGraph) (k : String) (prior next : Goal) (vs : List Goal) (t : GoalTransition)
    → IsRooted graph
    → graph.current k ≡ some prior
    → next ≡ record prior { status = next.status }
    → IsRooted (moved k next vs t graph)
moved-IsRooted graph k prior next vs t rooted here same =
    let kept : (j : String)
        → Descends graph.governing_id graph.current j
        → Descends graph.governing_id (moved k next vs t graph).current j =
      λ j. Descends-kept (λ i g at. elim (Bool-cases (i == k)) [
        | inl this ↦ (next, ground arith, ground arith, ground arith)
        | inr other ↦ (g, ground arith, refl, refl)
      ]) in
    record {
      root = ground (arith, rooted.root);
      keyed = λ j x at. elim (Bool-cases (j == k)) [
        | inl this ↦ ground (arith, rooted.keyed k prior here)
        | inr other ↦ rooted.keyed j x (ground arith)
      ];
      descends = λ j x at. elim (Bool-cases (j == k)) [
        | inl this ↦
            let same : j ≡ k = ground arith in rw same (kept k (rooted.descends k prior here))
        | inr other ↦ kept j (rooted.descends j x (ground arith))
      ];
      versioned = λ j x at. elim (Bool-cases (j == k)) [
        | inl this ↦ (vs ++ next ∷ [], ground arith)
        | inr other ↦ let (ws, there) = rooted.versioned j x (ground arith) in (ws, ground arith)
      ];
      listed = λ j. ground (arith, rooted.listed j, rooted.listed k);
    }

pub add_subgoal-IsRooted :
    (g : Goal) (graph : GoalGraph) → IsRooted graph → IsRooted (add_subgoal g graph).1
add_subgoal-IsRooted g graph rooted = elim (add_subgoal_cases g graph) [
  | inl same ↦ rw same rooted
  | inr (p, parent, done) ↦ rw done (added-IsRooted g graph p rooted parent)
]

copy_with-status :
    (status : GoalStatus) (g h : Goal)
    → copy_with status g ≡ ok h
    → h ≡ record g { status = h.status }
copy_with-status status g h done = let same = copy_with_lem status g h done in ground arith

write_lem :
    (digest : Goal → String) (k : String) (next : Goal) (t : GoalTransition) (vs : List Goal)
    (graph : GoalGraph)
    → graph.versions k ≡ some vs
    → write digest k next t graph ≡ (ok t, moved k next vs t graph)
unfolding write
write_lem digest k next t vs graph versions = ground arith

module _ (digest : Goal → String) (k : String) (status : GoalStatus) (reason : String)
    (refs : List String) where
  -- the state that a transition leaves, raised or not
  abbrev after_transition : GoalGraph → GoalGraph
  after_transition graph = (transition digest k status reason refs graph).1

  transition_goes :
      (graph : GoalGraph) (prior next : Goal)
      → graph.current k ≡ some prior
      → copy_with status prior ≡ ok next
      → let t = transition_of digest k prior next status reason refs in
        (after_transition graph ≡ graph)
        ⊎ (after_transition graph ≡ (write digest k next t graph).1)
  unfolding transition
  transition_goes graph prior next here copied = ground arith

  transition_stays :
      (graph : GoalGraph) (e : GoalError)
      → ((graph.current k ≡ none)
          ⊎ ((prior : Goal) × (graph.current k ≡ some prior) × (copy_with status prior ≡ err e)))
      → after_transition graph ≡ graph
  unfolding transition
  transition_stays graph e h = ground arith

  pub transition-IsRooted : (graph : GoalGraph) → IsRooted graph → IsRooted (after_transition graph)
  unfolding write
  transition-IsRooted graph rooted = elim (Option-cases (graph.current k)) [
    | inl unknown ↦ rw (transition_stays graph missing_key (inl unknown)) rooted
    | inr (prior, here) ↦ elim (Result-cases (copy_with status prior)) [
      | inr (e, bad) ↦ rw (transition_stays graph e (inr (prior, here, bad))) rooted
      | inl (next, copied) ↦ elim (transition_goes graph prior next here copied) [
        | inl same ↦ rw same rooted
        | inr wrote ↦
            let (vs, versions) = rooted.versioned k prior here in
            let t = transition_of digest k prior next status reason refs in
            rw (wrote, write_lem digest k next t vs graph versions)
              (moved-IsRooted graph k prior next vs t rooted here
                (copy_with-status status prior next copied))
      ]
    ]
  ]
