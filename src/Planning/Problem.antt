-- ===== src/Planning/Problem.antt =====
-- The interface and the records of planning.py.
use strongwiz.Base.{ℕ, String, Bool, true, Option, List, ltb, ◌≡◌, ℤ}

pub data SearchDisposition : Type 0 where
  found exhausted budget_exhausted : SearchDisposition

-- The `ValueError`s, the `KeyError` of a subscript, and the model's fuel running out.
pub data SearchError : Type 0 where
  nonpositive_cost nonpositive_budget negative_heuristic missing_key out_of_fuel : SearchError

module _ (S A : Type 0) where
  -- `__post_init__` lets no edge through whose cost is not positive
  pub record SearchEdge : Type 0 where
    pub action : A
    pub state : S
    pub cost : ℕ
    pub positive : ltb 0 cost ≡ true

  -- `neighbors` lists the edges that its iterable yields.
  pub record SearchProblem : Type 0 where
    pub state_key : S → String
    pub is_goal : S → Bool
    pub neighbors : S → List SearchEdge
    pub heuristic : S → ℤ
    pub action_key : A → String

  pub record SearchResult : Type 0 where
    pub disposition : SearchDisposition
    pub states : List S
    pub actions : List A
    pub total_cost : Option ℕ
    pub expanded : ℕ
    pub frontier_size : ℕ
    pub reason : String
