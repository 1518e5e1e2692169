-- ===== src/Planning/Answer.antt =====
-- `bounded_astar` as a whole: it ends, and what it returns is right.
use strongwiz.Base.{
  ℕ, ◌+◌, ◌*◌, ◌<◌, false, ◌≡◌, ◌⊎◌, inl, inr, refl, arith, string_eq, nat_eq, leb, ◌||◌,
}
use strongwiz.Base.Result.{ok, err, Result-cases}
use strongwiz.Planning.Problem.{SearchProblem, SearchError, SearchResult}
use strongwiz.Planning.Search.{bounded_astar, initial}
use strongwiz.Planning.Invariant.{IsSound}
use mathlib.Core.Path.{subst}
use strongwiz.Planning.Rounds.{IsRefused, ℤ-cases}
use strongwiz.Planning.Loop.{IsAnswer, Answers, loop-Answers}

module _ {S A : Type 0} (problem : SearchProblem S A) where
  open problem use {state_key, heuristic}

  module _ (start : S) (max_expansions max_neighbors : ℕ) where
    initial-IsSound :
        (h : ℕ)
        → IsSound problem (state_key start) (initial problem max_expansions max_neighbors start h)
    unfolding initial
    initial-IsSound h = record {
      root = ground arith;
      no_parent = refl;
      stored = λ k n best. (start, ground arith, ground arith);
      linked = λ k n best. inl (ground arith);
      entries = (
        record {
          key = refl;
          best = 0;
          known = ground arith;
          above = omega arith;
          latest = λ _. ground arith;
        },
        tt,
      );
    }

    search-Answers :
        0 < max_expansions
        → 0 < max_neighbors
        → Answers problem
            (state_key start)
            max_expansions
            max_neighbors
            (bounded_astar problem max_expansions max_neighbors start)
    unfolding bounded_astar initial
    search-Answers expansions neighbors =
        let positive : (leb max_expansions 0 || leb max_neighbors 0) ≡ false = ground arith in
        elim (ℤ-cases (heuristic start)) [
          | inr (n, negative) ↦
              rw (bounded_astar, positive, negative)
                (record { error = refl; state = start; below = n; negative = negative })
          | inl (h, estimate) ↦
              rw (bounded_astar, positive, estimate)
                (loop-Answers problem (state_key start) max_expansions max_neighbors
                  (3 + max_expansions * max_neighbors)
                  (initial problem max_expansions max_neighbors start h)
                  (record {
                    sound = initial-IsSound h;
                    left = max_expansions;
                    budget = omega arith;
                    enough = omega arith;
                  }))
        ]

    -- If both budgets are positive, the search ends: its fuel is enough, and every subscript finds
    -- its key. It raises only where the heuristic is negative at some state, and otherwise returns
    -- a result that expanded no more states than allowed. Either the result is found, with states
    -- and actions that follow edges from the start's key to a goal and cost together no more than
    -- the total cost that is returned, or it is given up without a path.
    pub bounded_astar-IsAnswer :
        0 < max_expansions
        → 0 < max_neighbors
        → ((r : SearchResult S A) × (bounded_astar problem max_expansions max_neighbors start
              ≡ ok r)
            × IsAnswer problem (state_key start) max_expansions max_neighbors r)
          ⊎ ((e : SearchError) × (bounded_astar problem max_expansions max_neighbors start ≡ err e)
              × IsRefused problem e)
    bounded_astar-IsAnswer expansions neighbors =
        let answers = search-Answers expansions neighbors in
        elim (Result-cases (bounded_astar problem max_expansions max_neighbors start)) [
          | inl (r, done) ↦ inl (
            r,
            done,
            subst (Answers problem (state_key start) max_expansions max_neighbors) done answers,
          )
          | inr (e, raised) ↦ inr (
            e,
            raised,
            subst (Answers problem (state_key start) max_expansions max_neighbors) raised answers,
          )
        ]
