-- ===== src/Contracts/Goals.antt =====
-- `Goal` and `Distinction`, the goal-linked relevance chain.
use strongwiz.Base.{
  String, Bool, false, not, Option, none, some, List, [], ◌∷◌, Eq, has_text, length, ltb, all,
  is_present, String_discrete, ◌||◌,
}
use strongwiz.Base.Result.{Result, ok, ◌>>◌, raise_if}
use strongwiz.Contracts.Enums.{
  GoalStatus, GoalStatus-discrete, DecisionEffect, Invalid, missing_identity, incomplete_subgoal,
  incomplete_relevance_chain, too_few_alternatives, missing_decision_effect,
}

pub record Goal : Type 0 where
  pub goal_id : String
  pub statement : String
  pub scope_id : String
  pub parent_goal_id : Option String
  pub governing_goal_id : Option String
  pub motivating_uncertainty : Option String
  pub decision_that_could_change : Option String
  pub smallest_sufficient_test : Option String
  pub success_condition : String
  pub abandonment_condition : Option String
  pub reopening_condition : Option String
  pub status : GoalStatus

-- `value is not None and value.strip()`
has_some_text : Option String → Bool
has_some_text none = false
has_some_text (some s) = has_text s

unfoldable pub validate_goal : Goal → Result Invalid Goal
unfolding has_some_text
validate_goal g = do
  raise_if (not (all has_text (g.goal_id ∷ g.statement ∷ g.scope_id ∷ g.success_condition ∷ [])))
      missing_identity
  elim g.parent_goal_id [
    | none ↦ ok g
    | some _ ↦
        raise_if
          (not (
            all has_some_text (
              g.governing_goal_id ∷ g.motivating_uncertainty ∷ g.decision_that_could_change
              ∷ g.smallest_sufficient_test ∷ g.reopening_condition ∷ [])))
          incomplete_subgoal
        >> ok g
  ]

unfoldable pub Goal-discrete : Discrete Goal
Goal-discrete = hlevel (String_discrete, GoalStatus-discrete)

instance abbrev pub goal_eq : Eq Goal
goal_eq = record { dec_eq = Goal-discrete }

pub record Distinction : Type 0 where
  pub distinction_id : String
  pub statement : String
  pub scope_id : String
  pub parent_goal_id : String
  pub governing_goal_id : String
  pub candidate_resolutions : List String
  pub competing_predictions : List String
  pub decision_effects : List DecisionEffect
  pub decision_that_could_change : String
  pub relevance_summary : String
  pub smallest_discriminating_test : Option String
  pub reopening_condition : String
  pub parked : Bool

unfoldable pub validate_relevance_chain : Distinction → Result Invalid Distinction
validate_relevance_chain d = do
  raise_if
      (not (
        all has_text (
          d.distinction_id ∷ d.statement ∷ d.scope_id ∷ d.parent_goal_id ∷ d.governing_goal_id
          ∷ d.decision_that_could_change ∷ d.relevance_summary ∷ d.reopening_condition ∷ [])))
      incomplete_relevance_chain
  raise_if (ltb (length d.candidate_resolutions) 2 || ltb (length d.competing_predictions) 2)
      too_few_alternatives
  raise_if (not (is_present d.decision_effects)) missing_decision_effect
  ok d
