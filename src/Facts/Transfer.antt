-- ===== src/Facts/Transfer.antt =====
-- `transfer` and the smaller methods of `FactStore`.
use strongwiz.Base.{
  ℕ, ◌+◌, String, Bool, not, ◌&&◌, ◌||◌, Option, none, some, List, [], ◌∷◌, ◌++◌, ◌==◌, contains,
  is_present, sorted_set, string_eq, if◌then◌else◌,
}
use strongwiz.Base.Map.{get_or}
use strongwiz.Base.Result.{Result, ok, err}
use strongwiz.Base.Exec.{Exec, pure, ◌>>=◌, ◌>>◌, raise_if, modify, lift, gets, or_raise}
use strongwiz.Contracts.{CostVector, no_costs, add_costs}
use strongwiz.Facts.Records.{
  FactError, unknown_transfer, invalidated_transfer, undeclared_transfer, illegal_status,
  negative_transfer, missing_validation, unknown_fact, inactive_fact, fact_status_eq,
  exact_negative, DerivedFact, validate_fact, TransferRule,
}
use strongwiz.Facts.Store.{FactStore, issue_fact}

unfoldable pub check_transfer :
    FactStore
    → String
    → String
    → String
    → List String
    → DerivedFact
    → TransferRule
    → Result FactError (Unit {0})
check_transfer s fact_ref rule_id operation validation_refs fact rule =
    if not (contains s.active fact_ref)
    then err invalidated_transfer
    else if not (operation == rule.operation) || not (contains fact.transfer_rule_ids rule_id)
    then err undeclared_transfer
    else if not (contains rule.allowed_statuses fact.status)
    then err illegal_status
    else if fact.status == exact_negative && not rule.preserves_negative
    then err negative_transfer
    else if rule.requires_validation && not (is_present validation_refs)
    then err missing_validation
    else ok tt

-- where a fact goes
pub record Target : Type 0 where
  pub subject_ref : String
  pub version : ℕ
  pub scope_id : String

unfoldable pub transferred :
    Target → String → List String → Option CostVector → DerivedFact → TransferRule → DerivedFact
transferred target fact_ref validation_refs transfer_cost fact rule = record fact {
  schema_id = "strongwiz.derived-fact.v1";
  subject_ref = target.subject_ref;
  subject_version = target.version;
  scope_id = target.scope_id;
  producer_ref = rule.rule_id;
  evidence_refs = sorted_set (fact.evidence_refs ++ validation_refs);
  dependency_fact_refs = sorted_set (fact.dependency_fact_refs ++ fact_ref ∷ []);
  parent_fact_ref = some fact_ref;
  acquisition_cost =
      get_or transfer_cost (record no_costs { validation_units = 1; transport_units = 1 });
}

unfoldable pub record_recomputation : CostVector → FactStore → FactStore
record_recomputation cost s = record s {
  economics = record s.economics {
    recomputations = s.economics.recomputations + 1;
    charged = add_costs s.economics.charged cost;
  };
}

unfoldable pub require_fact : String → Bool → Exec FactStore FactError DerivedFact
require_fact fact_ref active = gets (λ s. s.facts fact_ref) >>= λ found.
    or_raise found unknown_fact >>= λ fact.
    gets (λ s. active && not (contains s.active fact_ref)) >>= λ withdrawn.
    raise_if withdrawn inactive_fact >> pure fact

unfoldable pub active_fact_refs : FactStore → List String
active_fact_refs s = sorted_set s.active

unfoldable pub count_transfer : TransferRule → FactStore → FactStore
count_transfer rule s = record s {
  economics = record s.economics {
    transfers = s.economics.transfers + 1;
    validations = s.economics.validations + (if rule.requires_validation then 1 else 0);
  };
}

-- a lookup whose `KeyError` is raised anew
abbrev pub known : {A : Type 0} → Option A → Result FactError A
known none = err unknown_transfer
known (some a) = ok a

module _ (ref_of : DerivedFact → String) where
  -- what follows the choice of a fact and a rule, in three parts
  unfoldable pub deliver : TransferRule → DerivedFact → Exec FactStore FactError DerivedFact
  deliver rule moved = issue_fact ref_of moved >>= λ _. modify (count_transfer rule) >> pure moved

  module _ (fact_ref rule_id operation : String) (target : Target) (validation_refs : List String)
      (transfer_cost : Option CostVector) where
    unfoldable pub convey : DerivedFact → TransferRule → Exec FactStore FactError DerivedFact
    convey fact rule =
        (λ s. (check_transfer s fact_ref rule_id operation validation_refs fact rule, s))
        >> (lift
              (validate_fact (transferred target fact_ref validation_refs transfer_cost fact rule))
            >>= deliver rule)

    unfoldable pub transfer_under : DerivedFact → Exec FactStore FactError DerivedFact
    transfer_under fact = (λ s. (known (s.rules rule_id), s)) >>= convey fact

    unfoldable pub transfer : Exec FactStore FactError DerivedFact
    transfer = (λ s. (known (s.facts fact_ref), s)) >>= transfer_under
