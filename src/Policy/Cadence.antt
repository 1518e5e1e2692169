-- ===== src/Policy/Cadence.antt =====
-- The streak of fast selections that `CadencePolicy.select` allows.
use strongwiz.Base.{ℕ, ◌+◌, ◌≤◌, Bool, true, false, ◌&&◌, List, [], ◌∷◌, ◌≡◌, arith, length}
use strongwiz.Policy.{
  CadenceSignals, CadencePolicy, ReasoningDepth, fast, deep, select, raised, triggers_of,
}

abbrev is_fast : ReasoningDepth → Bool
is_fast fast = true
is_fast deep = false

module _ (p : CadencePolicy) where
  -- each selection reads the streak that the one before it returned, and all of them are fast
  unfoldable pub all_fast : ℕ → List CadenceSignals → Bool
  all_fast streak [] = true
  all_fast streak (s ∷ rest) =
      let r = select p (record s { fast_streak = streak }) in
      let others = all_fast r.fast_streak_after rest in is_fast r.depth && others

  fast_streak :
      (s : CadenceSignals)
      → is_fast (select p s).depth ≡ true
      → ((select p s).fast_streak_after ≡ s.fast_streak + 1)
        × (s.fast_streak + 1 ≤ p.max_fast_streak)
  unfolding select raised triggers_of
  fast_streak s h = ground arith

  -- If selections are fed with the streak that the one before returned, and all are fast, then
  -- there are no more of them than what the streak had left below the policy's maximum.
  pub all_fast-le :
      (streak : ℕ) (signals : List CadenceSignals)
      → streak ≤ p.max_fast_streak
      → all_fast streak signals ≡ true
      → streak + length signals ≤ p.max_fast_streak
  unfolding all_fast
  all_fast-le streak [] h k = ground arith
  all_fast-le streak (s ∷ rest) h k =
      let (after, below) = fast_streak (record s { fast_streak = streak }) (ground arith) in
      ground
        (arith, all_fast-le (select p (record s { fast_streak = streak })).fast_streak_after rest)
