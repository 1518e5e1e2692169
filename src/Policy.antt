-- ===== src/Policy.antt =====
-- policy.py: fast or deep reasoning, and the order of proposals within a mode.
use strongwiz.Base.{
  ℕ, ◌+◌, String, Bool, true, false, not, ◌&&◌, ◌||◌, List, [], ◌∷◌, ◌==◌, leb, is_present, nat_eq,
  if◌then◌else◌,
}
use strongwiz.Base.Result.{Result, ok, err, ◌>>◌, raise_if}
use strongwiz.Contracts.{CandidateProposal, DeliberationMode}
pub mod Cadence

pub data ReasoningDepth : Type 0 where
  fast deep : ReasoningDepth

pub data DeepTrigger : Type 0 where
  startup_uncertainty structural_novelty meaningful_contradiction reopening : DeepTrigger
  invalid_plan high_goal_uncertainty repeated_no_progress max_fast_streak : DeepTrigger

pub record CadenceSignals : Type 0 where
  pub startup_uncertainty : Bool
  pub structural_novelty : Bool
  pub meaningful_contradiction : Bool
  pub reopening : Bool
  pub invalid_plan : Bool
  pub high_goal_uncertainty : Bool
  pub repeated_no_progress : Bool
  pub fast_streak : ℕ

pub record CadenceSelection : Type 0 where
  pub depth : ReasoningDepth
  pub triggers : List DeepTrigger
  pub fast_streak_after : ℕ

pub record CadencePolicy : Type 0 where
  pub max_fast_streak : ℕ

pub data PolicyError : Type 0 where
  not_positive : PolicyError

unfoldable pub validate_policy : CadencePolicy → Result PolicyError CadencePolicy
validate_policy p = raise_if (p.max_fast_streak == 0) not_positive >> ok p

-- the triggers whose signal is set, in the order of the table
unfoldable pub raised : List (Bool × DeepTrigger) → List DeepTrigger
raised [] = []
raised ((b, t) ∷ rest) = let others = raised rest in if b then t ∷ others else others

unfoldable pub triggers_of : CadencePolicy → CadenceSignals → List DeepTrigger
unfolding raised
triggers_of p s = raised (
    (s.startup_uncertainty, DeepTrigger.startup_uncertainty)
    ∷ (s.structural_novelty, DeepTrigger.structural_novelty)
    ∷ (s.meaningful_contradiction, DeepTrigger.meaningful_contradiction)
    ∷ (s.reopening, DeepTrigger.reopening)
    ∷ (s.invalid_plan, DeepTrigger.invalid_plan)
    ∷ (s.high_goal_uncertainty, DeepTrigger.high_goal_uncertainty)
    ∷ (s.repeated_no_progress, DeepTrigger.repeated_no_progress)
    ∷ (leb p.max_fast_streak s.fast_streak, DeepTrigger.max_fast_streak)
    ∷ [])

unfoldable pub select : CadencePolicy → CadenceSignals → CadenceSelection
unfolding triggers_of
select p s =
    let triggers = triggers_of p s in
    if is_present triggers
    then record { depth = deep; triggers = triggers; fast_streak_after = 0 }
    else record { depth = fast; triggers = []; fast_streak_after = s.fast_streak + 1 }

unfoldable pub action_mode : Bool → Bool → DeliberationMode
action_mode credible_plan_supported uncertainty_blocks_progress =
    if credible_plan_supported && not uncertainty_blocks_progress
    then DeliberationMode.execute
    else DeliberationMode.investigate

-- the tuple, with the proposal's identity last
unfoldable pub proposal_order_key : CandidateProposal → DeliberationMode → List ℕ × String
proposal_order_key p DeliberationMode.execute = (
  p.expected_progress_rank
      ∷ p.risk_rank
      ∷ p.costs.environment_actions
      ∷ (if p.reversible then 0 else 1)
      ∷ p.information_gain_rank
      ∷ [],
  p.proposal_id,
)
proposal_order_key p DeliberationMode.investigate = (
  p.information_gain_rank
      ∷ (if p.reversible then 0 else 1)
      ∷ p.risk_rank
      ∷ p.costs.environment_actions
      ∷ p.expected_progress_rank
      ∷ [],
  p.proposal_id,
)
