-- ===== src/Routing/Selection.antt =====
-- The router's choice among several proposals.
use strongwiz.Base.{
  ◌∙◌, ℕ, Bool, true, false, Option, List, [], ◌∷◌, ◌≡◌, refl, arith, map, is_unique, has_text,
  keep, string_eq, text_lt_irreflexive, text_lt_transitive, ◌↔◌, ap,
}
use mathlib.Core.List.{Memᴰ}
use mathlib.Core.List.Memᴰ.{not-nil}
use mathlib.Core.Path.{subst, sym}
use strongwiz.Base.Map.{get_or}
use strongwiz.Base.Minimum.{min_from, min_from-Mem, min_from-le}
use strongwiz.Base.Members.{mem-keep, mem_of_keep, mem-map, mem_of_map}
use strongwiz.Base.Result.{ok}
use strongwiz.Contracts.{CandidateProposal, ControlSnapshot}
use strongwiz.Routing.Guards.{Digests}
use strongwiz.Routing.Evaluate.{RouterPolicy, default_policy, evaluate_proposal, decision}
use strongwiz.Routing.Admission.{IsAdmissible, validate_decision, decision_iff}
use strongwiz.Routing.Select.{
  RouteKey, key_lt, key_lt_from, Evaluated, is_eligible, selection_key, fallback_key, best_by,
  choose_among, choose, evaluate_all, select_route,
}

key_lt_from_irreflexive : (a : List ℕ) (last : Bool) → last ≡ false → key_lt_from a a last ≡ false
unfolding key_lt_from
key_lt_from_irreflexive [] last h = h
key_lt_from_irreflexive (x ∷ xs) last h = ground (arith, key_lt_from_irreflexive xs last h)

key_lt_irreflexive : (a : RouteKey) → key_lt a a ≡ false
unfolding key_lt
key_lt_irreflexive a = key_lt_from_irreflexive a.ranks _ (text_lt_irreflexive a.proposal_id)

key_lt_from_transitive :
    (a b c : List ℕ) (s t u : Bool)
    → (s ≡ true → t ≡ true → u ≡ true)
    → key_lt_from a b s ≡ true
    → key_lt_from b c t ≡ true
    → key_lt_from a c u ≡ true
unfolding key_lt_from
key_lt_from_transitive [] [] [] s t u h p q = h p q
key_lt_from_transitive [] [] (z ∷ c) s t u h p q = refl
key_lt_from_transitive [] (y ∷ b) [] s t u h p q = cc
key_lt_from_transitive [] (y ∷ b) (z ∷ c) s t u h p q = refl
key_lt_from_transitive (x ∷ a) [] c s t u h p q = cc
key_lt_from_transitive (x ∷ a) (y ∷ b) [] s t u h p q = cc
key_lt_from_transitive (x ∷ a) (y ∷ b) (z ∷ c) s t u h p q =
    ground (arith, key_lt_from_transitive a b c s t u h)

key_lt_transitive : (a b c : RouteKey) → key_lt a b ≡ true → key_lt b c ≡ true → key_lt a c ≡ true
unfolding key_lt
key_lt_transitive a b c =
    key_lt_from_transitive a.ranks b.ranks c.ranks _ _ _
      (text_lt_transitive a.proposal_id b.proposal_id c.proposal_id)

module _ (key : Evaluated → RouteKey) where
  -- the pair whose decision `best_by` returns
  best : Evaluated → List Evaluated → Evaluated
  best = min_from (λ a b. key_lt (key a) (key b))

  best_by_lem : (x : Evaluated) (xs : List Evaluated) → best_by key x xs ≡ (best x xs).1
  unfolding best_by best
  best_by_lem x xs = refl

  best-Mem : (x : Evaluated) (xs : List Evaluated) → Memᴰ (best x xs) (x ∷ xs)
  unfolding best
  best-Mem = min_from-Mem (λ a b. key_lt (key a) (key b))

  best-le :
      (y x : Evaluated) (xs : List Evaluated)
      → Memᴰ y (x ∷ xs)
      → key_lt (key y) (key (best x xs)) ≡ false
  unfolding best
  best-le =
      min_from-le (λ a b. key_lt (key a) (key b)) (λ a. key_lt_irreflexive (key a))
        (λ a b c. key_lt_transitive (key a) (key b) (key c))

module _ (d : Digests) (c : ControlSnapshot) (policy : Option RouterPolicy)
    (digest : has_text (d.of_control c) ≡ true) where
  -- a proposal with the decision that evaluation returns
  abbrev pub evaluated : CandidateProposal → Evaluated
  evaluated p = (p, decision d p c (get_or policy default_policy))

  evaluate_lem : (p : CandidateProposal) → evaluate_proposal d p c policy ≡ ok (evaluated p).1
  unfolding evaluate_proposal
  evaluate_lem p = validate_decision d p c (get_or policy default_policy) digest

  evaluate_all_lem :
      (ps : List CandidateProposal) → evaluate_all d c policy ps ≡ ok (map evaluated ps)
  unfolding evaluate_all
  evaluate_all_lem [] = refl
  evaluate_all_lem (p ∷ ps) = rw (evaluate_lem p, evaluate_all_lem ps) refl

  eligible_iff : (p : CandidateProposal) → (is_eligible (evaluated p) ≡ true) ↔ IsAdmissible d p c
  eligible_iff p =
      let (left, right) = decision_iff d p c (get_or policy default_policy) in
      (λ h. left (ground arith), λ a. ground (arith, right a))

  -- what the choice promises about the pair that it returns
  abbrev pub IsBest : Bool → List CandidateProposal → CandidateProposal → Type 0
  IsBest prefer ps p =
      (q : CandidateProposal)
      → Memᴰ q ps
      → IsAdmissible d q c
      → IsAdmissible d p c
        × (key_lt (selection_key prefer (evaluated q)) (selection_key prefer (evaluated p)) ≡ false)

  choose_from :
      (prefer : Bool) (p : CandidateProposal) (ps : List CandidateProposal)
      (eligible : List Evaluated)
      → keep is_eligible (map evaluated (p ∷ ps)) ≡ eligible
      → (q : CandidateProposal) × Memᴰ q (p ∷ ps)
        × (choose_among prefer (evaluated p) (map evaluated ps) eligible ≡ (evaluated q).1)
        × IsBest prefer (p ∷ ps) q
  unfolding choose_among
  choose_from prefer p ps [] none_left =
      let all_of = map evaluated (p ∷ ps) in
      let (q, at, e) =
        mem_of_map evaluated (best fallback_key (evaluated p) (map evaluated ps)) (p ∷ ps)
          (best-Mem fallback_key (evaluated p) (map evaluated ps)) in
      (
        q,
        at,
        best_by_lem fallback_key (evaluated p) (map evaluated ps) ∙ ap (λ (x : Evaluated). x.1) e,
        λ r in_ps admissible. absurd (
            not-nil (
              subst (Memᴰ (evaluated r)) none_left (
                mem-keep is_eligible (evaluated r) all_of (mem-map evaluated r (p ∷ ps) in_ps)
                  ((eligible_iff r).1 admissible)))),
      )
  choose_from prefer p ps (y ∷ ys) some_left =
      let all_of = map evaluated (p ∷ ps) in
      let chosen = best (selection_key prefer) y ys in
      let (kept, selects) =
        mem_of_keep is_eligible chosen all_of
          (subst (Memᴰ chosen) (sym some_left) (best-Mem (selection_key prefer) y ys)) in
      let (q, at, e) = mem_of_map evaluated chosen (p ∷ ps) kept in
      (
        q,
        at,
        best_by_lem (selection_key prefer) y ys ∙ ap (λ (x : Evaluated). x.1) e,
        λ r in_ps admissible. (
          (eligible_iff q).0 (subst (λ (x : Evaluated). is_eligible x ≡ true) e selects),
          subst
              (λ (x : Evaluated).
                key_lt (selection_key prefer (evaluated r)) (selection_key prefer x) ≡ false)
              e
              (best-le (selection_key prefer) (evaluated r) y ys (
                subst (Memᴰ (evaluated r)) some_left (
                  mem-keep is_eligible (evaluated r) all_of (mem-map evaluated r (p ∷ ps) in_ps)
                    ((eligible_iff r).1 admissible)))),
        ),
      )

  -- Where the control digest is not blank and the proposals, at least one, have different
  -- identities, the router returns the decision of one of them. If any proposal is admissible then
  -- the chosen one is, and no admissible proposal has a smaller key: reopening first, then the
  -- preferred rank, risk, reversibility, environment actions, compute, the other rank and the
  -- identity.
  pub select_route-IsBest :
      (prefer : Bool) (p : CandidateProposal) (ps : List CandidateProposal)
      → is_unique (map (λ (q : CandidateProposal). q.proposal_id) (p ∷ ps)) ≡ true
      → (q : CandidateProposal) × Memᴰ q (p ∷ ps)
        × (select_route d c policy prefer (p ∷ ps) ≡ evaluate_proposal d q c policy)
        × IsBest prefer (p ∷ ps) q
  unfolding select_route choose
  select_route-IsBest prefer p ps distinct =
      let (q, at, e, better) = choose_from prefer p ps _ refl in
      (q, at, rw (distinct, evaluate_all_lem (p ∷ ps), evaluate_lem q) (ap ok e), better)
