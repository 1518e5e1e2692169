-- ===== src/Planning/Invariant.antt =====
-- What the maps of the search say at every round, and that an improved child keeps it.
use strongwiz.Base.{
  ℕ, ◌+◌, ◌≤◌, ◌<◌, String, false, none, some, List, [], ◌∷◌, ◌==◌, ◌≡◌, ◌⊎◌, inl, inr, refl, arith,
  string_eq, nat_eq, option_eq, Bool-cases,
}
use mathlib.Core.List.{Memᴰ}
use strongwiz.Planning.Problem.{SearchEdge, SearchProblem}
use strongwiz.Planning.Search.{Entry, Search, improve, is_no_better}

-- the predicate holds of each element
abbrev pub Every {ℓ} : {X : Type ℓ} → (X → Type 0) → List X → Type 0
Every P [] = Unit {0}
Every P (x ∷ xs) = P x × Every P xs

pub Every-map {ℓ} :
    {X : Type ℓ} {P Q : X → Type 0} (xs : List X) → ((x : X) → P x → Q x) → Every P xs → Every Q xs
Every-map [] f h = tt
Every-map (x ∷ xs) f (p, h) = (f x p, Every-map xs f h)

module _ {S A : Type 0} (problem : SearchProblem S A) where
  open problem use {state_key, neighbors}

  -- An action leads with this cost from a state of one key to a state of another.
  pub record IsEdge (from : String) (action : A) (cost : ℕ) (to : String) : Type 0 where
    pub state : S
    pub edge : SearchEdge S A
    pub at : state_key state ≡ from
    pub listed : Memᴰ edge (neighbors state)
    pub by : edge.action ≡ action
    pub costs : edge.cost ≡ cost
    pub leads : state_key edge.state ≡ to

  -- a tuple on the heap: the key is the state's, and the best cost is not above the tuple's
  pub record IsEntry (st : Search S A) (e : Entry S A) : Type 0 where
    pub key : state_key e.state ≡ e.key
    pub best : ℕ
    pub known : st.best_cost e.key ≡ some best
    pub above : best ≤ e.cost
    pub latest : best ≡ e.cost → st.state_by_key e.key ≡ some e.state

  -- the parent of a key was reached before it, by an edge whose cost fits in between
  pub record HasParent (st : Search S A) (k : String) (n : ℕ) : Type 0 where
    pub from : String
    pub action : A
    pub cost : ℕ
    pub best : ℕ
    pub recorded : st.parent k ≡ some (from, action)
    pub known : st.best_cost from ≡ some best
    pub edge : IsEdge from action cost k
    pub positive : 0 < cost
    pub fits : best + cost ≤ n

module _ {S A : Type 0} (problem : SearchProblem S A) (start_key : String) where
  open problem use {state_key}

  pub record IsSound (st : Search S A) : Type 0 where
    pub root : st.best_cost start_key ≡ some 0
    pub no_parent : st.parent start_key ≡ none
    pub stored :
        (k : String) (n : ℕ)
        → st.best_cost k ≡ some n
        → (s : S) × (st.state_by_key k ≡ some s) × (state_key s ≡ k)
    pub linked :
        (k : String) (n : ℕ) → st.best_cost k ≡ some n → (k ≡ start_key) ⊎ HasParent problem st k n
    pub entries : Every (IsEntry problem st) st.frontier

  module _ (st : Search S A) (from : Entry S A) (e : SearchEdge S A) (h m : ℕ) (sound : IsSound st)
      (known : st.best_cost from.key ≡ some m) (reached : m ≤ from.cost)
      (edge : IsEdge problem from.key e.action e.cost (state_key e.state))
      (better : is_no_better (from.cost + e.cost) (st.best_cost (state_key e.state)) ≡ false) where
    abbrev child : String
    child = state_key e.state

    abbrev after : Search S A
    after = improve problem from e h st

    -- the old cost of the child, if there is one, is above the new one
    worse : (n : ℕ) → st.best_cost child ≡ some n → from.cost + e.cost < n
    unfolding is_no_better
    worse n old = ground arith

    not_start : (start_key == child) ≡ false
    not_start = ground (arith, sound.root, worse 0, e.positive)

    not_self : (from.key == child) ≡ false
    not_self = ground (arith, known, worse m, e.positive)

    parent_kept :
        (k : String) (n : ℕ)
        → (k == child) ≡ false
        → HasParent problem st k n
        → HasParent problem after k n
    unfolding improve
    parent_kept k n other p = elim (Bool-cases (p.from == child)) [
      | inl improved ↦ record {
        from = p.from;
        action = p.action;
        cost = p.cost;
        best = from.cost + e.cost;
        recorded = ground (arith, p.recorded);
        known = ground arith;
        edge = p.edge;
        positive = p.positive;
        fits = ground (arith, worse p.best, p.known, p.fits);
      }
      | inr same ↦ record {
        from = p.from;
        action = p.action;
        cost = p.cost;
        best = p.best;
        recorded = ground (arith, p.recorded);
        known = ground (arith, p.known);
        edge = p.edge;
        positive = p.positive;
        fits = p.fits;
      }
    ]

    entry_kept : (x : Entry S A) → IsEntry problem st x → IsEntry problem after x
    unfolding improve
    entry_kept x q = elim (Bool-cases (x.key == child)) [
      | inl improved ↦ record {
        key = q.key;
        best = from.cost + e.cost;
        known = ground arith;
        above = ground (arith, worse q.best, q.known, q.above);
        latest = λ same. absurd (ground (arith, worse q.best, q.known, q.above));
      }
      | inr same ↦ record {
        key = q.key;
        best = q.best;
        known = ground (arith, q.known);
        above = q.above;
        latest = λ equal. ground (arith, q.latest);
      }
    ]

    improve_linked :
        (k : String) (n : ℕ)
        → after.best_cost k ≡ some n
        → (k ≡ start_key) ⊎ HasParent problem after k n
    unfolding improve
    improve_linked k n best = elim (Bool-cases (k == child)) [
      | inl this ↦ inr (record {
        from = from.key;
        action = e.action;
        cost = e.cost;
        best = m;
        recorded = ground arith;
        known = ground (arith, not_self);
        edge = let same : k ≡ child = ground arith in rw same edge;
        positive = ground (arith, e.positive);
        fits = ground arith;
      })
      | inr other ↦ elim (sound.linked k n (ground arith)) [
        | inl root ↦ inl root
        | inr p ↦ inr (parent_kept k n other p)
      ]
    ]

    pub improve-IsSound : IsSound after
    unfolding improve
    improve-IsSound = record {
      root = ground (arith, not_start, sound.root);
      no_parent = ground (arith, not_start, sound.no_parent);
      stored = λ k n best. elim (Bool-cases (k == child)) [
        | inl this ↦ (e.state, ground arith, ground arith)
        | inr other ↦ let (s, at, key) = sound.stored k n (ground arith) in (s, ground arith, key)
      ];
      linked = improve_linked;
      entries = (
        record {
          key = refl;
          best = from.cost + e.cost;
          known = ground arith;
          above = ground arith;
          latest = λ _. ground arith;
        },
        Every-map st.frontier entry_kept sound.entries,
      );
    }

    -- the tuple's own key keeps its best cost
    pub improve-known : after.best_cost from.key ≡ some m
    unfolding improve
    improve-known = ground (arith, not_self)
