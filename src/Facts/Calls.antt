-- ===== src/Facts/Calls.antt =====
-- Every call on a `FactStore` keeps it sound.
use mathlib.Core.Path.{subst}
use strongwiz.Base.{
  ℕ, ◌≡◌, inl, inr, refl, sym, ap, arith, String, Bool, true, false, not, Option, none, some, List,
  [], ◌∷◌, string_eq, if◌then◌else◌, ◌==◌,
}
use strongwiz.Base.Map.{insert, get_or}
use strongwiz.Base.Result.{Result, ok, err}
use strongwiz.Base.Exec.{Exec, pure, lift, ◌>>=◌, ◌>>◌, modify}
use strongwiz.Contracts.{CostVector, no_costs}
use strongwiz.Facts.Records.{
  FactError, rewritten_rule, transfer_rule_eq, DerivedFact, TransferRule, FactUseReceipt,
  FactEconomics, FactInvalidation, validate_fact,
}
use strongwiz.Facts.Store.{
  FactStore, SubjectKey, one_validation, new_store, register_transfer_rule, check_issue, store_fact,
  issue_fact, find, use_of, serve, record_use, lookup,
}
use strongwiz.Facts.Mutate.{mutate_subject}
use strongwiz.Facts.Transfer.{
  Target, check_transfer, transferred, known, count_transfer, deliver, convey, transfer_under,
  transfer, record_recomputation,
}
use strongwiz.Facts.Grounded.{IsGrounded, store_fact-IsGrounded}
use strongwiz.Facts.Mutation.{mutate_cases, withdraw-IsGrounded}

pub data Call : Type 0 where
  register : TransferRule → Call
  issues : DerivedFact → Call
  looks_up : String → SubjectKey → Option CostVector → Option CostVector → Call
  mutates : String → ℕ → String → String → List String → Option CostVector → Call
  transfers : String → String → String → Target → List String → Option CostVector → Call
  recomputes : CostVector → Call

module _ (fact_ref : DerivedFact → String) where
  -- what a call leaves, also when it raises
  unfoldable pub step : Call → FactStore → FactStore
  step (register rule) s = (register_transfer_rule rule s).1
  step (issues fact) s = (issue_fact fact_ref fact s).1
  step (looks_up query key cost avoided) s = (lookup fact_ref query key cost avoided s).1
  step (mutates subject version event reason evidence cost) s =
      (mutate_subject subject version event reason evidence cost s).1
  step (transfers ref rule operation target evidence cost) s =
      (transfer fact_ref ref rule operation target evidence cost s).1
  step (recomputes cost) s = record_recomputation cost s

  unfoldable pub calls : List Call → FactStore → FactStore
  calls [] s = s
  calls (c ∷ cs) s = calls cs (step c s)

  Keeps : {A : Type 0} → Exec FactStore FactError A → Type 0
  Keeps m = (s : FactStore) → IsGrounded fact_ref s → IsGrounded fact_ref (m s).1

  Keeps-bind :
      {A B : Type 0} (m : Exec FactStore FactError A) (f : A → Exec FactStore FactError B)
      → Keeps m
      → ((a : A) → Keeps (f a))
      → Keeps (m >>= f)
  unfolding Keeps
  Keeps-bind {A} {B} m f first second s was = go (m s).0 (m s).1 (first s was)
    where
      go :
          (r : Result FactError A) (t : FactStore)
          → IsGrounded fact_ref t
          → IsGrounded fact_ref (((λ _. (r, t)) >>= f) s).1
      go (ok a) t sound = second a t sound
      go (err e) t sound = sound

  Keeps-read : {A : Type 0} (f : FactStore → Result FactError A) → Keeps (λ s. (f s, s))
  unfolding Keeps
  Keeps-read f s was = was

  regrounded :
      (s : FactStore) (r : String → Option TransferRule) (u : List FactUseReceipt)
      (e : FactEconomics)
      → IsGrounded fact_ref s
      → IsGrounded fact_ref (record s { rules = r; uses = u; economics = e })
  regrounded s r u e was = record {
    stored = was.stored;
    named = was.named;
    listed = was.listed;
    filed = was.filed;
    resting = was.resting;
    current = was.current;
  }

  issue_fact-Keeps : (fact : DerivedFact) → Keeps (issue_fact fact_ref fact)
  unfolding Keeps issue_fact
  issue_fact-Keeps fact s was = go (check_issue fact_ref s fact) refl
    where
      go :
          (r : Result FactError (Unit {0}))
          → check_issue fact_ref s fact ≡ r
          → IsGrounded fact_ref
              (((λ t. (r, t)) >> (modify (store_fact fact_ref fact) >> pure (fact_ref fact))) s).1
      go (ok tt) e = store_fact-IsGrounded fact_ref s fact was e
      go (err x) e = was

  mutate-Keeps :
      (subject : String) (version : ℕ) (event reason : String) (evidence : List String)
      (cost : Option CostVector)
      → Keeps (mutate_subject subject version event reason evidence cost)
  unfolding Keeps
  mutate-Keeps subject version event reason evidence cost s was =
      elim (mutate_cases fact_ref s subject was version event reason evidence cost) [
        | inl (later, _, run) ↦
            subst (IsGrounded fact_ref)
              (sym (ap (λ (p : Result FactError FactInvalidation × FactStore). p.1) run))
              (withdraw-IsGrounded fact_ref s subject was version event reason evidence cost later)
        | inr (_, (e, run)) ↦
            subst (IsGrounded fact_ref)
              (sym (ap (λ (p : Result FactError FactInvalidation × FactStore). p.1) run)) was
      ]

  count_transfer-Keeps :
      (rule : TransferRule) (moved : DerivedFact)
      → Keeps (modify (count_transfer rule) >> pure moved)
  unfolding Keeps count_transfer
  count_transfer-Keeps rule moved s was =
      regrounded s s.rules s.uses (count_transfer rule s).economics was

  deliver-Keeps : (rule : TransferRule) (moved : DerivedFact) → Keeps (deliver fact_ref rule moved)
  unfolding deliver
  deliver-Keeps rule moved =
      Keeps-bind (issue_fact fact_ref moved) (λ _. modify (count_transfer rule) >> pure moved)
        (issue_fact-Keeps moved) (λ _. count_transfer-Keeps rule moved)

  module _ (ref rule_id operation : String) (target : Target) (evidence : List String)
      (cost : Option CostVector) where
    convey-Keeps :
        (fact : DerivedFact) (rule : TransferRule)
        → Keeps (convey fact_ref ref rule_id operation target evidence cost fact rule)
    unfolding convey
    convey-Keeps fact rule =
        let valid = validate_fact (transferred target ref evidence cost fact rule) in
        Keeps-bind (λ s. (check_transfer s ref rule_id operation evidence fact rule, s))
          (λ _. lift valid >>= deliver fact_ref rule)
          (Keeps-read (λ s. check_transfer s ref rule_id operation evidence fact rule))
          (λ _.
            Keeps-bind (lift valid) (deliver fact_ref rule) (Keeps-read (λ _. valid))
              (deliver-Keeps rule))

    transfer_under-Keeps :
        (fact : DerivedFact)
        → Keeps (transfer_under fact_ref ref rule_id operation target evidence cost fact)
    unfolding transfer_under
    transfer_under-Keeps fact =
        Keeps-bind (λ s. (known (s.rules rule_id), s))
          (convey fact_ref ref rule_id operation target evidence cost fact)
          (Keeps-read (λ s. known (s.rules rule_id))) (convey-Keeps fact)

    transfer-Keeps : Keeps (transfer fact_ref ref rule_id operation target evidence cost)
    unfolding transfer
    transfer-Keeps =
        Keeps-bind (λ s. (known (s.facts ref), s))
          (transfer_under fact_ref ref rule_id operation target evidence cost)
          (Keeps-read (λ s. known (s.facts ref))) transfer_under-Keeps

  lookup-Keeps :
      (query : String) (key : SubjectKey) (cost avoided : Option CostVector)
      → Keeps (lookup fact_ref query key cost avoided)
  unfolding lookup serve record_use Keeps
  lookup-Keeps query key cost avoided s was = go (find s key)
    where
      answer : Option DerivedFact → Exec FactStore FactError (Option DerivedFact × FactUseReceipt)
      answer = serve fact_ref query key (get_or cost one_validation) (get_or avoided no_costs)

      go :
          (r : Result FactError (Option DerivedFact))
          → IsGrounded fact_ref (((λ t. (r, t)) >>= answer) s).1
      go (ok found) =
          let receipt =
            use_of fact_ref s query key (get_or cost one_validation) (get_or avoided no_costs)
              found in
          regrounded s s.rules (record_use receipt s).uses (record_use receipt s).economics was
      go (err e) = was

  register-Keeps : (rule : TransferRule) → Keeps (register_transfer_rule rule)
  unfolding register_transfer_rule Keeps
  register-Keeps rule s was = go (elim (s.rules rule.rule_id) as (λ _. Bool) [
    | none ↦ false
    | some current ↦ not (current == rule)
  ])
    where
      registered : Bool → Result FactError (Unit {0}) × FactStore
      registered b =
          if b
          then (err rewritten_rule, s)
          else (ok tt, record s { rules = insert rule.rule_id rule s.rules })

      go : (b : Bool) → IsGrounded fact_ref (registered b).1
      go true = was
      go false = regrounded s (insert rule.rule_id rule s.rules) s.uses s.economics was

  -- every call, whether it raises or returns
  step-IsGrounded :
      (c : Call) (s : FactStore) → IsGrounded fact_ref s → IsGrounded fact_ref (step c s)
  unfolding step register_transfer_rule lookup record_use record_recomputation Keeps
  step-IsGrounded (register rule) s was = register-Keeps rule s was
  step-IsGrounded (issues fact) s was = issue_fact-Keeps fact s was
  step-IsGrounded (looks_up query key cost avoided) s was =
      lookup-Keeps query key cost avoided s was
  step-IsGrounded (mutates subject version event reason evidence cost) s was =
      mutate-Keeps subject version event reason evidence cost s was
  step-IsGrounded (transfers ref rule operation target evidence cost) s was =
      transfer-Keeps ref rule operation target evidence cost s was
  step-IsGrounded (recomputes cost) s was =
      regrounded s s.rules s.uses (record_recomputation cost s).economics was

  run-IsGrounded :
      (cs : List Call) (s : FactStore) → IsGrounded fact_ref s → IsGrounded fact_ref (calls cs s)
  unfolding calls
  run-IsGrounded [] s was = was
  run-IsGrounded (c ∷ cs) s was = run-IsGrounded cs (step c s) (step-IsGrounded c s was)

  new_store-IsGrounded : IsGrounded fact_ref new_store
  new_store-IsGrounded = record {
    stored = λ r m. cc;
    named = λ r f h. cc;
    listed = λ r f a. absurd (ground (arith, a.0));
    filed = tt;
    resting = λ r f a. absurd (ground (arith, a.0));
    current = λ r f a. absurd (ground (arith, a.0));
  }

  -- After any calls on a new store every active reference is that of a stored fact, which is listed
  -- under its subject, version and predicate, is no later than its subject, and rests on active facts
  -- only.
  pub calls-IsGrounded : (cs : List Call) → IsGrounded fact_ref (calls cs new_store)
  calls-IsGrounded cs = run-IsGrounded cs new_store new_store-IsGrounded
