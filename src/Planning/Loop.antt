-- ===== src/Planning/Loop.antt =====
-- The loop of `bounded_astar` ends, and what it returns is right.
use strongwiz.Base.{
  take, ℕ, zero, suc, ◌+◌, ◌*◌, ◌≤◌, ◌<◌, String, true, false, some, List, [], ◌∷◌, ◌==◌, ◌≡◌, ◌⊎◌,
  inl, inr, refl, arith, string_eq, nat_eq, option_eq, Bool-cases, length, none, ap, map, leb, ltb,
}
use strongwiz.Base.Result.{Result, ok, err}
use strongwiz.Planning.Problem.{
  SearchEdge, SearchProblem, SearchError, SearchResult, found, exhausted, budget_exhausted,
}
use strongwiz.Planning.Search.{
  Entry, Search, pop_min, ordered_edges, finish, give_up, Round, next, done, continue, expand,
  visit, round, loop,
}
use strongwiz.Planning.Invariant.{Every, Every-map, IsEntry, IsSound}
use mathlib.Core.Path.{subst}
use strongwiz.Planning.Rounds.{
  IsRefused, Relaxes, Leaves, relax_all-Relaxes, Every-take, Every-of_mem, Every-ordered_edges,
  length-ordered_edges, pop_min-Every, length-pop_min,
}
use strongwiz.Planning.Path.{last, Leads, reconstruct-IsPlan}

module _ {S A : Type 0} (problem : SearchProblem S A) (start_key : String) where
  open problem use {state_key, is_goal, neighbors}

  -- a path of edges from the start to a goal, whose cost is at most the one that is returned
  pub record IsFound (r : SearchResult S A) : Type 0 where
    pub disposition : r.disposition ≡ found
    pub goal : S
    pub cost : ℕ
    pub keys : List String
    pub total : ℕ
    pub passes : map state_key r.states ≡ start_key ∷ keys
    pub leads : Leads problem (state_key goal) start_key keys r.actions total
    pub total_cost : r.total_cost ≡ some cost
    pub within : total ≤ cost
    pub ends : last r.states ≡ some goal
    pub is_goal : is_goal goal ≡ true

  -- no path, and the reason for it
  pub record IsGivenUp (r : SearchResult S A) : Type 0 where
    pub disposition : (r.disposition ≡ exhausted) ⊎ (r.disposition ≡ budget_exhausted)
    pub states : r.states ≡ []
    pub actions : r.actions ≡ []
    pub total_cost : r.total_cost ≡ none

  -- the maps of a state stay what they are when a tuple is popped
  abbrev popped : List (Entry S A) → ℕ → Search S A → Search S A
  popped f n st = record st { frontier = f; expanded = n }

  popped-IsEntry :
      (f : List (Entry S A)) (n : ℕ) (st : Search S A) (x : Entry S A)
      → IsEntry problem st x
      → IsEntry problem (popped f n st) x
  popped-IsEntry f n st x q = record {
    key = q.key;
    best = q.best;
    known = q.known;
    above = q.above;
    latest = q.latest;
  }

  popped-IsSound :
      (f : List (Entry S A)) (n : ℕ) (st : Search S A)
      → IsSound problem start_key st
      → Every (IsEntry problem st) f
      → IsSound problem start_key (popped f n st)
  popped-IsSound f n st sound entries = record {
    root = sound.root;
    no_parent = sound.no_parent;
    stored = sound.stored;
    linked = λ k m best. elim (sound.linked k m best) [
      | inl root ↦ inl root
      | inr p ↦ inr (record {
        from = p.from;
        action = p.action;
        cost = p.cost;
        best = p.best;
        recorded = p.recorded;
        known = p.known;
        edge = p.edge;
        positive = p.positive;
        fits = p.fits;
      })
    ];
    entries = Every-map f (popped-IsEntry f n st) entries;
  }

  module _ (max_expansions max_neighbors : ℕ) where
    pub record IsAnswer (r : SearchResult S A) : Type 0 where
      pub expanded : r.expanded ≤ max_expansions
      pub outcome : IsFound r ⊎ IsGivenUp r

    abbrev pub Answers : Result SearchError (SearchResult S A) → Type 0
    Answers (ok r) = IsAnswer r
    Answers (err e) = IsRefused problem e

    -- the invariant, and enough fuel for the tuples to come
    pub record IsRunning (fuel : ℕ) (st : Search S A) : Type 0 where
      pub sound : IsSound problem start_key st
      pub left : ℕ
      pub budget : st.expanded + left ≡ max_expansions
      pub enough : length st.frontier + left * max_neighbors < fuel

    abbrev Rounded : ℕ → Round problem max_expansions max_neighbors → Type 0
    Rounded fuel (next st) = IsRunning fuel st
    Rounded fuel (done r) = Answers r

    give_up-Answers :
        (n size : ℕ) (reason : String)
        → n ≤ max_expansions
        → Answers (ok (give_up problem exhausted n size reason))
          × Answers (ok (give_up problem budget_exhausted n size reason))
    unfolding give_up
    give_up-Answers n size reason h = (
      record {
        expanded = h;
        outcome =
            inr
              (record { disposition = inl refl; states = refl; actions = refl; total_cost = refl });
      },
      record {
        expanded = h;
        outcome =
            inr
              (record { disposition = inr refl; states = refl; actions = refl; total_cost = refl });
      },
    )

    finish-Answers :
        (goal : Entry S A) (st : Search S A)
        → IsSound problem start_key st
        → IsEntry problem st goal
        → st.best_cost goal.key ≡ some goal.cost
        → is_goal goal.state ≡ true
        → st.expanded ≤ max_expansions
        → Answers (finish problem goal st)
    unfolding finish
    finish-Answers goal st sound entry best is_goal below =
        let p =
          reconstruct-IsPlan problem start_key st sound goal best
            (entry.latest (ground (arith, entry.known))) in
        rw (finish, p.returned)
          (record {
            expanded = below;
            outcome = inl (record {
              disposition = refl;
              goal = goal.state;
              cost = goal.cost;
              keys = p.keys;
              total = p.total;
              passes = p.passes;
              leads = rw entry.key p.leads;
              total_cost = refl;
              within = p.within;
              ends = p.ends;
              is_goal = is_goal;
            });
          })

    -- the edges that an expansion reads
    abbrev edges_of : Entry S A → List (SearchEdge S A)
    edges_of from = ordered_edges problem (take (suc max_neighbors) (neighbors from.state))

    edges_of-Leaves :
        (from : Entry S A) (st : Search S A)
        → IsEntry problem st from
        → Every (Leaves problem from) (edges_of from)
    edges_of-Leaves from st entry = Every-ordered_edges problem (Leaves problem from) _ (
        Every-take (Leaves problem from) (suc max_neighbors) (neighbors from.state) (
          Every-of_mem (neighbors from.state) (λ e member. record {
            state = from.state;
            edge = e;
            at = entry.key;
            listed = member;
            by = refl;
            costs = refl;
            leads = refl;
          })))

    continue-Rounded :
        (fuel m n l : ℕ) (from : Entry S A) (st : Search S A) (x : Result SearchError (Search S A))
        → Relaxes problem start_key from m n st x
        → n ≤ max_neighbors
        → st.expanded + l ≡ max_expansions
        → length st.frontier + max_neighbors + l * max_neighbors < fuel
        → Rounded fuel (continue problem max_expansions max_neighbors x)
    continue-Rounded fuel m n l from st (err e) h few budget enough = h
    continue-Rounded fuel m n l from st (ok after) h few budget enough = record {
      sound = h.sound;
      left = l;
      budget = rw h.expanded budget;
      enough = omega (arith, h.grows);
    }

    expand-Rounded :
        (fuel l : ℕ) (from : Entry S A) (st : Search S A)
        → IsSound problem start_key st
        → IsEntry problem st from
        → st.best_cost from.key ≡ some from.cost
        → st.expanded + l ≡ max_expansions
        → length st.frontier + l * max_neighbors < fuel
        → Rounded fuel (expand problem max_expansions max_neighbors from st)
    unfolding expand
    expand-Rounded fuel zero from st sound entry best budget enough =
        let spent : leb max_expansions st.expanded ≡ true = ground arith in
        rw (expand, spent) (give_up-Answers st.expanded _ _ (omega arith)).1
    expand-Rounded fuel (suc l) from st sound entry best budget enough =
        let room : leb max_expansions st.expanded ≡ false = ground arith in
        elim (Bool-cases
          (ltb max_neighbors (length (take (suc max_neighbors) (neighbors from.state))))) [
            | inl many ↦
                rw (expand, room, many) (give_up-Answers (suc st.expanded) _ _ (omega arith)).1
            | inr few ↦
                rw (expand, room, few)
                  (continue-Rounded fuel from.cost (length (edges_of from)) l from
                    (popped st.frontier (suc st.expanded) st) _
                    (relax_all-Relaxes problem start_key from from.cost (edges_of from)
                      (popped st.frontier (suc st.expanded) st)
                      (popped-IsSound st.frontier (suc st.expanded) st sound sound.entries) best
                      (omega arith) (edges_of-Leaves from st entry))
                    (ground (
                      arith,
                      length-ordered_edges problem
                          (take (suc max_neighbors) (neighbors from.state)),
                    ))
                    (omega arith) (omega arith))
          ]

    visit-Rounded :
        (fuel l : ℕ) (from : Entry S A) (st : Search S A)
        → IsSound problem start_key st
        → IsEntry problem st from
        → st.expanded + l ≡ max_expansions
        → length st.frontier + l * max_neighbors < fuel
        → Rounded fuel (visit problem max_expansions max_neighbors from st)
    unfolding visit
    visit-Rounded fuel l from st sound entry budget enough =
        elim (Bool-cases (st.best_cost from.key == some from.cost)) [
          | inr stale ↦
              rw (visit, stale)
                (record { sound = sound; left = l; budget = budget; enough = enough })
          | inl current ↦
              let best : st.best_cost from.key ≡ some from.cost = ground arith in
              elim (Bool-cases (is_goal from.state)) [
                | inl reached ↦
                    rw (visit, current, reached)
                      (finish-Answers from st sound entry best reached (omega arith))
                | inr other ↦
                    rw (visit, current, other)
                      (expand-Rounded fuel l from st sound entry best budget enough)
              ]
        ]

    round-Rounded :
        (fuel : ℕ) (st : Search S A) (xs : List (Entry S A))
        → st.frontier ≡ xs
        → IsRunning (suc fuel) st
        → Rounded fuel (round problem max_expansions max_neighbors st)
    unfolding round
    round-Rounded fuel st [] empty running =
        rw (round, empty) (give_up-Answers st.expanded 0 _ (omega (arith, running.budget))).0
    round-Rounded fuel st (x ∷ xs) frontier running =
        let rest = (pop_min S A x xs).1 in
        let (entry, entries) =
          pop_min-Every (IsEntry problem st) x xs
            (subst (Every (IsEntry problem st)) frontier running.sound.entries) in
        rw (round, frontier)
          (visit-Rounded fuel running.left (pop_min S A x xs).0 (popped rest st.expanded st)
            (popped-IsSound rest st.expanded st running.sound entries)
            (popped-IsEntry rest st.expanded st (pop_min S A x xs).0 entry) running.budget
            (omega (arith, running.enough, ap length frontier, length-pop_min x xs)))

    onward-Answers :
        (fuel : ℕ) (r : Round problem max_expansions max_neighbors)
        → Rounded fuel r
        → ((st : Search S A)
            → IsRunning fuel st
            → Answers (loop problem max_expansions max_neighbors fuel st))
        → Answers
            (elim r [ done x ↦ x | next st ↦ loop problem max_expansions max_neighbors fuel st ])
    onward-Answers fuel (done x) h rest = h
    onward-Answers fuel (next st) h rest = rest st h

    pub loop-Answers :
        (fuel : ℕ) (st : Search S A)
        → IsRunning fuel st
        → Answers (loop problem max_expansions max_neighbors fuel st)
    unfolding loop
    loop-Answers zero st running = absurd (omega (arith, running.enough))
    loop-Answers (suc fuel) st running =
        onward-Answers fuel (round problem max_expansions max_neighbors st)
          (round-Rounded fuel st st.frontier refl running) (λ after. loop-Answers fuel after)
