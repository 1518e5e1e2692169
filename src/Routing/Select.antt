-- ===== src/Routing/Select.antt =====
-- `select_route` of routing.py.
use strongwiz.Base.{
  ℕ, String, Bool, true, false, not, Option, none, List, [], ◌∷◌, map, is_unique, keep, text_lt,
  string_eq, if◌then◌else◌,
}
use Prim.Native.Nat.{compare, Ordering}
use strongwiz.Base.Minimum.{min_from}
use strongwiz.Base.Result.{Result, ok, ◌>>=◌, ◌>>◌, raise_if}
use strongwiz.Contracts.{
  CandidateProposal, ControlSnapshot, RouteDecision, RouteDisposition, request_witness, reopen,
  Invalid, validate_nonexecution, nonselecting, duplicate_proposals,
}
use strongwiz.Routing.Guards.{Digests}
use strongwiz.Routing.Evaluate.{RouterPolicy, evaluate_proposal}

-- A sort key: a tuple of ranks, and the proposal's identity last.
pub record RouteKey : Type 0 where
  pub ranks : List ℕ
  pub proposal_id : String

-- `a < b` on tuples of one length, then on the identities
unfoldable pub key_lt_from : List ℕ → List ℕ → Bool → Bool
key_lt_from [] [] last = last
key_lt_from [] (_ ∷ _) last = true
key_lt_from (_ ∷ _) [] last = false
key_lt_from (a ∷ as') (b ∷ bs) last = elim (compare a b) [
  | Ordering.lt ↦ true
  | Ordering.eq ↦ key_lt_from as' bs last
  | Ordering.gt ↦ false
]

unfoldable pub key_lt : RouteKey → RouteKey → Bool
key_lt a b = key_lt_from a.ranks b.ranks (text_lt a.proposal_id b.proposal_id)

-- a proposal with its decision
abbrev pub Evaluated : Type 0
Evaluated = CandidateProposal × RouteDecision

is_reopen : RouteDisposition → Bool
is_reopen reopen = true
is_reopen _ = false

-- `key` in `select_route`
unfoldable pub selection_key : Bool → Evaluated → RouteKey
unfolding is_reopen
selection_key prefer_information (p, r) = record {
  ranks =
      (if is_reopen r.disposition then 0 else 1)
      ∷ (if prefer_information then p.information_gain_rank else p.expected_progress_rank)
      ∷ p.risk_rank
      ∷ (if p.reversible then 0 else 1)
      ∷ p.costs.environment_actions
      ∷ p.costs.compute_units
      ∷ (if prefer_information then p.expected_progress_rank else p.information_gain_rank)
      ∷ [];
  proposal_id = p.proposal_id;
}

-- `precedence`, which is read only where no decision selects
precedence : RouteDisposition → ℕ
precedence request_witness = 0
precedence RouteDisposition.hold = 1
precedence _ = 2

unfoldable pub fallback_key : Evaluated → RouteKey
unfolding precedence
fallback_key (p, r) = record { ranks = precedence r.disposition ∷ []; proposal_id = p.proposal_id }

-- `min(xs, key=key)[1]` of a nonempty list
unfoldable pub best_by : (Evaluated → RouteKey) → Evaluated → List Evaluated → RouteDecision
best_by key x xs = (min_from (λ a b. key_lt (key a) (key b)) x xs).1

-- the decision where there are no proposals
no_proposals : String → RouteDecision
no_proposals control_ref = record {
  schema_id = "strongwiz.contract.v1";
  control_ref = control_ref;
  disposition = RouteDisposition.hold;
  selected_proposal_id = none;
  selected_proposal_ref = none;
  guards = [];
  missing_witness_refs = [];
  limitations = "no proposals were supplied" ∷ [];
  nonexecution_marker = true;
  authority = "NONE";
  effect = "NONE";
}

abbrev pub is_eligible : Evaluated → Bool
is_eligible (_, r) = not (nonselecting r.disposition)

-- the choice among the evaluated proposals, given those that are eligible
unfoldable pub choose_among : Bool → Evaluated → List Evaluated → List Evaluated → RouteDecision
choose_among prefer x xs [] = best_by fallback_key x xs
choose_among prefer x xs (y ∷ ys) = best_by (selection_key prefer) y ys

unfoldable pub choose : Bool → Evaluated → List Evaluated → RouteDecision
choose prefer x xs = choose_among prefer x xs (keep is_eligible (x ∷ xs))

module _ (d : Digests) (c : ControlSnapshot) (policy : Option RouterPolicy) where
  -- `[(proposal, evaluate_proposal(proposal, ...)) for proposal in proposals]`
  unfoldable pub evaluate_all : List CandidateProposal → Result Invalid (List Evaluated)
  evaluate_all [] = ok []
  evaluate_all (p ∷ ps) =
      let rest = evaluate_all ps in
      do r ← evaluate_proposal d p c policy; others ← rest; ok ((p, r) ∷ others)

  pick : Bool → List Evaluated → Result Invalid RouteDecision
  unfolding no_proposals
  pick prefer [] = validate_nonexecution (no_proposals (d.of_control c))
  pick prefer (x ∷ xs) = ok (choose prefer x xs)

  unfoldable pub select_route : Bool → List CandidateProposal → Result Invalid RouteDecision
  unfolding evaluate_all pick no_proposals
  select_route prefer [] = pick prefer []
  select_route prefer (p ∷ ps) = do
    raise_if (not (is_unique (map (λ (q : CandidateProposal). q.proposal_id) (p ∷ ps))))
        duplicate_proposals
    evaluated ← evaluate_all (p ∷ ps)
    pick prefer evaluated
