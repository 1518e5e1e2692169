-- ===== src/Planning/Rounds.antt =====
-- The invariant of the maps over an expansion, a popped tuple and a whole round.
use strongwiz.Base.{
  take, ℕ, zero, suc, ◌+◌, ◌≤◌, String, some, List, [], ◌∷◌, ◌≡◌, ◌⊎◌, inl, inr, refl, arith,
  string_eq, nat_eq, option_eq, Bool-cases, length, ◌∙◌,
}
use mathlib.Core.List.{Memᴰ}
use strongwiz.Base.Result.{Result, ok, err, ◌>>=◌}
use strongwiz.Base.{ℤ, pos, negsuc}
use strongwiz.Planning.Problem.{SearchEdge, SearchProblem, SearchError, negative_heuristic}
use strongwiz.Planning.Search.{
  Entry, Search, improve, is_no_better, relax, relax_all, insert_edge, ordered_edges, pop_min,
  edge_lt, entry_lt,
}
use strongwiz.Planning.Invariant.{Every, IsEdge, IsSound, improve-IsSound, improve-known}

pub Every-take :
    {X : Type 0} (P : X → Type 0) (n : ℕ) (xs : List X) → Every P xs → Every P (take n xs)
unfolding take
Every-take P zero xs h = tt
Every-take P (suc n) [] h = tt
Every-take P (suc n) (x ∷ xs) (p, h) = (p, Every-take P n xs h)

pub Every-of_mem :
    {X : Type 0} {P : X → Type 0} (xs : List X) → ((x : X) → Memᴰ x xs → P x) → Every P xs
Every-of_mem [] f = tt
Every-of_mem (x ∷ xs) f = (f x (Memᴰ.head refl), Every-of_mem xs (λ y m. f y (Memᴰ.tail m)))

pub ℤ-cases : (z : ℤ) → ((n : ℕ) × (z ≡ pos n)) ⊎ ((n : ℕ) × (z ≡ negsuc n))
ℤ-cases (pos n) = inl (n, refl)
ℤ-cases (negsuc n) = inr (n, refl)

module _ {S A : Type 0} where
  pub pop_min-Every :
      (P : Entry S A → Type 0) (x : Entry S A) (xs : List (Entry S A))
      → Every P (x ∷ xs)
      → Every P ((pop_min S A x xs).0 ∷ (pop_min S A x xs).1)
  unfolding pop_min
  pop_min-Every P x [] h = h
  pop_min-Every P x (y ∷ ys) (p, h) = elim (Bool-cases (entry_lt S A (pop_min S A y ys).0 x)) [
    | inl less ↦ rw less (let (q, k) = pop_min-Every P y ys h in (q, (p, k)))
    | inr other ↦ rw other (p, h)
  ]

  pub length-pop_min :
      (x : Entry S A) (xs : List (Entry S A)) → length (pop_min S A x xs).1 ≡ length xs
  unfolding pop_min
  length-pop_min x [] = refl
  length-pop_min x (y ∷ ys) = ground (arith, length-pop_min y ys)

module _ {S A : Type 0} (problem : SearchProblem S A) where
  open problem use {state_key, heuristic}

  Every-insert_edge :
      (P : SearchEdge S A → Type 0) (e : SearchEdge S A) (es : List (SearchEdge S A))
      → P e
      → Every P es
      → Every P (insert_edge problem e es)
  unfolding insert_edge
  Every-insert_edge P e [] p h = (p, tt)
  Every-insert_edge P e (x ∷ xs) p (q, h) = elim (Bool-cases (edge_lt problem x e)) [
    | inl less ↦ rw less (q, Every-insert_edge P e xs p h)
    | inr other ↦ rw other (p, (q, h))
  ]

  length-insert_edge :
      (e : SearchEdge S A) (es : List (SearchEdge S A))
      → length (insert_edge problem e es) ≡ suc (length es)
  unfolding insert_edge
  length-insert_edge e [] = refl
  length-insert_edge e (x ∷ xs) = ground (arith, length-insert_edge e xs)

  pub Every-ordered_edges :
      (P : SearchEdge S A → Type 0) (es : List (SearchEdge S A))
      → Every P es
      → Every P (ordered_edges problem es)
  unfolding ordered_edges
  Every-ordered_edges P [] h = tt
  Every-ordered_edges P (e ∷ es) (p, h) =
      Every-insert_edge P e (ordered_edges problem es) p (Every-ordered_edges P es h)

  pub length-ordered_edges :
      (es : List (SearchEdge S A)) → length (ordered_edges problem es) ≡ length es
  unfolding ordered_edges
  length-ordered_edges [] = refl
  length-ordered_edges (e ∷ es) =
      omega (arith, length-ordered_edges es, length-insert_edge e (ordered_edges problem es))

  -- the error of a search whose heuristic is negative at some state
  pub record IsRefused (e : SearchError) : Type 0 where
    pub error : e ≡ negative_heuristic
    pub state : S
    pub below : ℕ
    pub negative : heuristic state ≡ negsuc below

  -- the edge leaves the popped tuple's state
  abbrev pub Leaves : Entry S A → SearchEdge S A → Type 0
  Leaves from e = IsEdge problem from.key e.action e.cost (state_key e.state)

module _ {S A : Type 0} (problem : SearchProblem S A) (start_key : String) where
  open problem use {state_key, heuristic}

  -- what relaxing at most `n` edges of a tuple, whose key has this best cost, does
  pub record IsRelaxed (from : Entry S A) (m n : ℕ) (st after : Search S A) : Type 0 where
    pub sound : IsSound problem start_key after
    pub known : after.best_cost from.key ≡ some m
    pub grows : length after.frontier ≤ length st.frontier + n
    pub expanded : after.expanded ≡ st.expanded

  abbrev pub Relaxes : Entry S A → ℕ → ℕ → Search S A → Result SearchError (Search S A) → Type 0
  Relaxes from m n st (ok after) = IsRelaxed from m n st after
  Relaxes from m n st (err e) = IsRefused problem e

  relax-Relaxes :
      (from : Entry S A) (m : ℕ) (e : SearchEdge S A) (st : Search S A)
      → IsSound problem start_key st
      → st.best_cost from.key ≡ some m
      → m ≤ from.cost
      → Leaves problem from e
      → Relaxes from m 1 st (relax problem from e st)
  unfolding relax improve
  relax-Relaxes from m e st sound known reached edge =
      elim (Bool-cases (is_no_better (from.cost + e.cost) (st.best_cost (state_key e.state)))) [
        | inl worse ↦
            rw worse (record { sound = sound; known = known; grows = omega arith; expanded = refl })
        | inr better ↦ elim (ℤ-cases (heuristic e.state)) [
          | inr (n, negative) ↦
              rw (better, negative)
                (record { error = refl; state = e.state; below = n; negative = negative })
          | inl (h, estimate) ↦
              rw (better, estimate)
                (record {
                  sound =
                      improve-IsSound problem start_key st from e h m sound known reached edge
                        better;
                  known =
                      improve-known problem start_key st from e h m sound known reached edge better;
                  grows = ground arith;
                  expanded = refl;
                })
        ]
      ]

  Relaxes-onward :
      (from : Entry S A) (m n : ℕ) (st next : Search S A) (y : Result SearchError (Search S A))
      → IsRelaxed from m 1 st next
      → Relaxes from m n next y
      → Relaxes from m (suc n) st y
  Relaxes-onward from m n st next (err e) h k = k
  Relaxes-onward from m n st next (ok after) h k = record {
    sound = k.sound;
    known = k.known;
    grows = omega (arith, h.grows, k.grows);
    expanded = k.expanded ∙ h.expanded;
  }

  Relaxes-bind :
      (from : Entry S A) (m n : ℕ) (st : Search S A) (x : Result SearchError (Search S A))
      (rest : Search S A → Result SearchError (Search S A))
      → Relaxes from m 1 st x
      → ((next : Search S A) → IsRelaxed from m 1 st next → Relaxes from m n next (rest next))
      → Relaxes from m (suc n) st (x >>= rest)
  Relaxes-bind from m n st (err e) rest h f = h
  Relaxes-bind from m n st (ok next) rest h f =
      Relaxes-onward from m n st next (rest next) h (f next h)

  pub relax_all-Relaxes :
      (from : Entry S A) (m : ℕ) (es : List (SearchEdge S A)) (st : Search S A)
      → IsSound problem start_key st
      → st.best_cost from.key ≡ some m
      → m ≤ from.cost
      → Every (Leaves problem from) es
      → Relaxes from m (length es) st (relax_all problem from es st)
  unfolding relax_all
  relax_all-Relaxes from m [] st sound known reached _ = record {
    sound = sound;
    known = known;
    grows = omega arith;
    expanded = refl;
  }
  relax_all-Relaxes from m (e ∷ es) st sound known reached (edge, edges) =
      Relaxes-bind from m (length es) st (relax problem from e st) (relax_all problem from es)
        (relax-Relaxes from m e st sound known reached edge)
        (λ next h. relax_all-Relaxes from m es next h.sound h.known reached edges)
