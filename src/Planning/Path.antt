-- ===== src/Planning/Path.antt =====
-- The chain of parents that `_reconstruct` follows is a path from the start to the goal.
use strongwiz.Base.{
  ℕ, zero, suc, ◌+◌, ◌≤◌, ◌<◌, String, some, List, [], ◌∷◌, ◌≡◌, inl, inr, refl, sym, arith,
  string_eq, nat_eq, option_eq, Option, none, ◌∙◌, map,
}
use strongwiz.Base.Result.{Result, ok}
use strongwiz.Planning.Problem.{SearchProblem, SearchError}
use strongwiz.Planning.Search.{Entry, Search, trace_back, states_of, reconstruct}
use strongwiz.Planning.Invariant.{Every, IsEdge, IsSound}

-- the last element of a list
unfoldable pub last {ℓ} : {X : Type ℓ} → List X → Option X
last [] = none
last (x ∷ []) = some x
last (x ∷ y ∷ ys) = last (y ∷ ys)

module _ {S A : Type 0} (problem : SearchProblem S A) where
  open problem use {state_key}

  -- Edges lead from a key over these keys by these actions to the goal's key, at this cost.
  pub data Leads (goal : String) : String → List String → List A → ℕ → Type 0 where
    arrived : Leads goal goal [] [] 0
    onward :
        {from to : String} {ks : List String} {actions : List A} {n : ℕ} (action : A) (cost : ℕ)
        → IsEdge problem from action cost to
        → Leads goal to ks actions n
        → Leads goal from (to ∷ ks) (action ∷ actions) (cost + n)

  Leads-last :
      {goal from : String} {ks : List String} {actions : List A} {n : ℕ}
      → Leads goal from ks actions n
      → last (from ∷ ks) ≡ some goal
  unfolding last
  Leads-last arrived = refl
  Leads-last (onward a c e rest) = Leads-last rest

module _ {S A : Type 0} (problem : SearchProblem S A) (start_key : String) (st : Search S A)
    (sound : IsSound problem start_key st) where
  open problem use {state_key}

  abbrev Known : String → Type 0
  Known k = (n : ℕ) × (st.best_cost k ≡ some n)

  -- the keys and actions of a path from the start
  record IsTraced (goal : String) (bound : ℕ) (r : Result SearchError (List String × List A))
      : Type 0 where
    keys : List String
    actions : List A
    total : ℕ
    returned : r ≡ ok (start_key ∷ keys, actions)
    leads : Leads problem goal start_key keys actions total
    within : total ≤ bound
    known : Every Known (start_key ∷ keys)

  trace_back-IsTraced :
      (fuel n c : ℕ) (goal current : String) (ks : List String) (actions : List A)
      → st.best_cost current ≡ some n
      → n < fuel
      → Leads problem goal current ks actions c
      → Every Known (current ∷ ks)
      → IsTraced goal (n + c) (trace_back problem fuel st.parent current (current ∷ ks) actions)
  unfolding trace_back
  trace_back-IsTraced zero n c goal current ks actions best below leads known =
      absurd (ground arith)
  trace_back-IsTraced (suc fuel) n c goal current ks actions best below leads known =
      elim (sound.linked current n best) [
        | inl root ↦
            rw (root, trace_back, sound.no_parent)
              (record {
                keys = ks;
                actions = actions;
                total = c;
                returned = rw root refl;
                leads = rw (sym root) leads;
                within = ground arith;
                known = rw (sym root) known;
              })
        | inr p ↦
            rw (trace_back, p.recorded)
              (let r =
                  trace_back-IsTraced fuel p.best (p.cost + c) goal p.from (current ∷ ks)
                    (p.action ∷ actions) p.known (omega (arith, p.positive, p.fits))
                    (onward p.action p.cost p.edge leads) ((p.best, p.known), known) in
                record {
                  keys = r.keys;
                  actions = r.actions;
                  total = r.total;
                  returned = r.returned;
                  leads = r.leads;
                  within = omega (arith, r.within, p.fits);
                  known = r.known;
                })
      ]

  -- the stored state of the last key
  abbrev at_last : List String → Option S
  at_last ks = elim (last ks) [ none ↦ none | some k ↦ st.state_by_key k ]

  at_last_lem : (k : String) (ks : List String) → last ks ≡ some k → at_last ks ≡ st.state_by_key k
  at_last_lem k ks h = rw (at_last, h) refl

  record IsStored (ks : List String) : Type 0 where
    states : List S
    returned : states_of problem st.state_by_key ks ≡ ok states
    keys : map state_key states ≡ ks
    ends : last states ≡ at_last ks

  last-onward :
      (s : S) (j : String) (js : List String) (ss : List S)
      → map state_key ss ≡ j ∷ js
      → last (s ∷ ss) ≡ last ss
  unfolding last
  last-onward s j js [] h = absurd (ground arith)
  last-onward s j js (t ∷ ts) h = refl

  states_of-IsStored : (ks : List String) → Every Known ks → IsStored ks
  unfolding states_of last
  states_of-IsStored [] h = record { states = []; returned = refl; keys = refl; ends = refl }
  states_of-IsStored (k ∷ []) ((n, best), _) =
      let (s, found, key) = sound.stored k n best in
      record {
        states = s ∷ [];
        returned = rw (states_of, found) refl;
        keys = rw key refl;
        ends = sym found;
      }
  states_of-IsStored (k ∷ j ∷ js) ((n, best), h) =
      let (s, found, key) = sound.stored k n best in
      let r = states_of-IsStored (j ∷ js) h in
      record {
        states = s ∷ r.states;
        returned = rw (states_of, found, r.returned) refl;
        keys = rw (key, r.keys) refl;
        ends = last-onward s j js r.states r.keys ∙ r.ends;
      }

  -- what `_reconstruct` returns for a goal whose key has this best cost
  pub record IsPlan (goal : Entry S A) (r : Result SearchError (List S × List A)) : Type 0 where
    pub states : List S
    pub actions : List A
    pub keys : List String
    pub total : ℕ
    pub returned : r ≡ ok (states, actions)
    pub passes : map state_key states ≡ start_key ∷ keys
    pub leads : Leads problem goal.key start_key keys actions total
    pub within : total ≤ goal.cost
    pub ends : last states ≡ some goal.state

  pub reconstruct-IsPlan :
      (goal : Entry S A)
      → st.best_cost goal.key ≡ some goal.cost
      → st.state_by_key goal.key ≡ some goal.state
      → IsPlan goal (reconstruct problem goal st)
  unfolding reconstruct
  reconstruct-IsPlan goal best stored =
      let t =
        trace_back-IsTraced (suc goal.cost) goal.cost 0 goal.key goal.key [] [] best (omega arith)
          arrived ((goal.cost, best), tt) in
      let r = states_of-IsStored (start_key ∷ t.keys) t.known in
      record {
        states = r.states;
        actions = t.actions;
        keys = t.keys;
        total = t.total;
        returned = rw (reconstruct, t.returned, r.returned) refl;
        passes = r.keys;
        leads = t.leads;
        within = omega (arith, t.within);
        ends =
            r.ends
            ∙ at_last_lem goal.key (start_key ∷ t.keys) (Leads-last problem t.leads)
            ∙ stored;
      }
