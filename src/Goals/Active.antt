-- ===== src/Goals/Active.antt =====
-- The goals that `active_goals` lists.
use strongwiz.Base.{
  String, true, some, List, [], ◌∷◌, ◌==◌, ◌≡◌, ◌↔◌, inl, inr, refl, arith, contains, sorted_set,
  contains-sorted_set, string_eq, Bool-cases, Option-cases, ap, ◌∙◌, ◌⊎◌,
}
use mathlib.Core.List.{Memᴰ}
use strongwiz.Contracts.{Goal, GoalStatus}
use strongwiz.Goals.Graph.{GoalGraph, active_among, active_goals, is_active}
use strongwiz.Goals.Rooted.{IsRooted}

is_active_iff :
    (g : Goal)
    → (is_active g ≡ true) ↔ ((g.status ≡ GoalStatus.active) ⊎ (g.status ≡ GoalStatus.reopened))
unfolding is_active
is_active_iff g = (λ h. ground arith, λ h. ground arith)

module _ (graph : GoalGraph) where
  mem_of_active_among :
      (g : Goal) (ks : List String)
      → Memᴰ g (active_among graph ks)
      → (k : String) × (graph.current k ≡ some g) × (is_active g ≡ true)
  unfolding active_among
  mem_of_active_among g [] m = elim m [ ]
  mem_of_active_among g (k ∷ ks) m = elim (Option-cases (graph.current k)) [
    | inl absent ↦ mem_of_active_among g ks (rw (active_among, absent) at m)
    | inr (h, here) ↦ elim (Bool-cases (is_active h)) [
      | inr idle ↦ mem_of_active_among g ks (rw (active_among, here, idle) at m)
      | inl active ↦
          found k h here active (mem_of_active_among g ks) (rw (active_among, here, active) at m)
    ]
  ]
    where
      found :
          (k : String) (h : Goal)
          → graph.current k ≡ some h
          → is_active h ≡ true
          → (Memᴰ g (active_among graph ks)
              → (j : String) × (graph.current j ≡ some g) × (is_active g ≡ true))
          → Memᴰ g (h ∷ active_among graph ks)
          → (j : String) × (graph.current j ≡ some g) × (is_active g ≡ true)
      found k h here active rest (Memᴰ.head e) = (k, ground arith, ground arith)
      found k h here active rest (Memᴰ.tail n) = rest n

  mem-active_among :
      (g : Goal) (k : String) (ks : List String)
      → contains ks k ≡ true
      → graph.current k ≡ some g
      → is_active g ≡ true
      → Memᴰ g (active_among graph ks)
  unfolding active_among
  mem-active_among g k [] listed here active = absurd (ground arith)
  mem-active_among g k (j ∷ js) listed here active = elim (Bool-cases (k == j)) [
    | inl this ↦
        let there : graph.current j ≡ some g = ground arith in
        rw (active_among, there, active) (Memᴰ.head refl)
    | inr other ↦
        let rest = mem-active_among g k js (ground arith) here active in
        elim (Option-cases (graph.current j)) [
          | inl absent ↦ rw (active_among, absent) rest
          | inr (h, there) ↦ elim (Bool-cases (is_active h)) [
            | inl awake ↦ rw (active_among, there, awake) (Memᴰ.tail rest)
            | inr idle ↦ rw (active_among, there, idle) rest
          ]
        ]
  ]

  -- In a rooted graph a goal is listed as active exactly when it is the current goal under its
  -- identity and its status is active or reopened.
  pub active_goals_iff :
      (g : Goal)
      → IsRooted graph
      → Memᴰ g (active_goals graph) ↔ (
          (graph.current g.goal_id ≡ some g)
          × ((g.status ≡ GoalStatus.active) ⊎ (g.status ≡ GoalStatus.reopened)))
  unfolding active_goals
  active_goals_iff g rooted = (
    (λ m.
        let (k, here, active) = mem_of_active_among g (sorted_set graph.goal_ids) m in
        (ap graph.current (rooted.keyed k g here) ∙ here, (is_active_iff g).0 active)),
    λ (here, active).
        mem-active_among g g.goal_id (sorted_set graph.goal_ids)
          (ground (arith, contains-sorted_set graph.goal_ids g.goal_id, rooted.listed g.goal_id))
          here ((is_active_iff g).1 active),
  )
