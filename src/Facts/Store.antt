-- ===== src/Facts/Store.antt =====
-- `FactStore` of facts.py: what it keeps, and its methods as actions.
use strongwiz.Base.{
  ℕ, ◌+◌, ℕ_discrete, String, String_discrete, Bool, true, false, not, Option, none, some, List, [],
  ◌∷◌, ◌++◌, ◌==◌, all, keep, contains, is_present, ltb, Eq, string_eq, nat_eq, option_eq,
  if◌then◌else◌,
}
use strongwiz.Base.Map.{Map, empty, insert, has_key, get_or}
use strongwiz.Base.Result.{Result, ok, err}
use strongwiz.Base.Exec.{Exec, pure, ◌>>=◌, ◌>>◌, modify, gets}
use strongwiz.Contracts.{CostVector, no_costs, add_costs}
use strongwiz.Facts.Records.{
  transfer_rule_eq, FactError, rewritten_rule, stale_version, missing_dependency, ref_collision,
  missing_key, FactUseKind, hit, miss, invalid, DerivedFact, same_fact, TransferRule, LookupReason,
  exact_match, invalidated, no_fact, FactUseReceipt, FactEconomics,
}

-- the key of `_by_key`
pub record SubjectKey : Type 0 where
  pub subject : String
  pub version : ℕ
  pub about : String

unfoldable pub SubjectKey-discrete : Discrete SubjectKey
SubjectKey-discrete = hlevel (String_discrete, ℕ_discrete)

instance abbrev pub subject_key_eq : Eq SubjectKey
subject_key_eq = record { dec_eq = SubjectKey-discrete }

-- `_by_key`, in the order in which its keys came
abbrev pub KeyIndex : Type 0
KeyIndex = List (SubjectKey × List String)

-- `_active` is a set: a list without repetitions, whose order no result shows.
pub record FactStore : Type 0 where
  pub facts : Map String DerivedFact
  pub active : List String
  pub by_key : KeyIndex
  pub versions : Map String ℕ
  pub rules : Map String TransferRule
  pub uses : List FactUseReceipt
  pub economics : FactEconomics

abbrev pub new_store : FactStore
new_store = record {
  facts = empty;
  active = [];
  by_key = [];
  versions = empty;
  rules = empty;
  uses = [];
  economics = record {
    acquisitions = 0;
    lookups = 0;
    hits = 0;
    misses = 0;
    validations = 0;
    transfers = 0;
    invalidations = 0;
    recomputations = 0;
    charged = no_costs;
    avoided = no_costs;
  };
}

-- `CostVector(validation_units=1)`
abbrev pub one_validation : CostVector
one_validation = record no_costs { validation_units = 1 }

-- `set.add`
abbrev pub add : String → List String → List String
add x xs = if contains xs x then xs else xs ++ x ∷ []

abbrev pub key_of : DerivedFact → SubjectKey
key_of f = record { subject = f.subject_ref; version = f.subject_version; about = f.predicate }

-- `_by_key.get(key, [])`
unfoldable pub refs_at : KeyIndex → SubjectKey → List String
refs_at [] key = []
refs_at ((k, refs) ∷ rest) key = if key == k then refs else refs_at rest key

-- `_by_key.setdefault(key, [])`, and the append where the reference is new
unfoldable pub enlist : SubjectKey → String → KeyIndex → KeyIndex
enlist key ref [] = (key, ref ∷ []) ∷ []
enlist key ref ((k, refs) ∷ rest) =
    let others = enlist key ref rest in
    if key == k then (k, add ref refs) ∷ rest else (k, refs) ∷ others

unfoldable pub register_transfer_rule : TransferRule → Exec FactStore FactError (Unit {0})
register_transfer_rule rule s =
    if elim (s.rules rule.rule_id) [ none ↦ false | some current ↦ not (current == rule) ]
    then (err rewritten_rule, s)
    else (ok tt, record s { rules = insert rule.rule_id rule s.rules })

-- what `lookup` found, and why it found nothing
unfoldable pub latest : List String → Option String
latest [] = none
latest (x ∷ xs) = let rest = latest xs in elim rest [ none ↦ some x | some y ↦ some y ]

unfoldable pub is_stale_version : FactStore → String → ℕ → Bool
is_stale_version s subject version = elim (s.versions subject) [
  | none ↦ false
  | some v ↦ not (v == version)
]

unfoldable pub missed : FactStore → SubjectKey → FactUseKind × LookupReason
missed s key =
    if is_stale_version s key.subject key.version
    then (invalid, LookupReason.stale)
    else if is_present (refs_at s.by_key key)
    then (invalid, invalidated)
    else (miss, no_fact)

-- the counters of a lookup
unfoldable pub record_use : FactUseReceipt → FactStore → FactStore
record_use receipt s =
    let found : Bool = elim receipt.fact_ref [ none ↦ false | some _ ↦ true ] in
    record s {
      uses = s.uses ++ receipt ∷ [];
      economics = record s.economics {
        lookups = s.economics.lookups + 1;
        hits = s.economics.hits + (if found then 1 else 0);
        misses = s.economics.misses + (if found then 0 else 1);
        charged = add_costs s.economics.charged receipt.charged_cost;
        avoided = add_costs s.economics.avoided receipt.avoided_cost;
      };
    }

-- `candidates[-1]`; the list reads `_facts` at each active reference of the key
unfoldable pub find : FactStore → SubjectKey → Result FactError (Option DerivedFact)
find s key =
    let refs = keep (contains s.active) (refs_at s.by_key key) in
    if all (has_key s.facts) refs
    then ok (elim (latest refs) [ none ↦ none | some ref ↦ s.facts ref ])
    else err missing_key

module _ (fact_ref : DerivedFact → String) where
  unfoldable pub check_issue : FactStore → DerivedFact → Result FactError (Unit {0})
  check_issue s fact =
      if elim (s.versions fact.subject_ref) [ none ↦ false | some v ↦ ltb fact.subject_version v ]
      then err stale_version
      else if not (all (contains s.active) fact.dependency_fact_refs)
      then err missing_dependency
      else if elim (s.facts (fact_ref fact)) [
        | none ↦ false
        | some current ↦ not (same_fact current fact)
      ]
      then err ref_collision
      else ok tt

  unfoldable pub store_fact : DerivedFact → FactStore → FactStore
  store_fact fact s = record s {
    facts = insert (fact_ref fact) fact s.facts;
    active = add (fact_ref fact) s.active;
    by_key = enlist (key_of fact) (fact_ref fact) s.by_key;
    versions =
        insert fact.subject_ref
          (let known = get_or (s.versions fact.subject_ref) 0 in
            if ltb fact.subject_version known then known else fact.subject_version)
          s.versions;
    economics = record s.economics {
      acquisitions = s.economics.acquisitions + 1;
      charged = add_costs s.economics.charged fact.acquisition_cost;
    };
  }

  unfoldable pub issue_fact : DerivedFact → Exec FactStore FactError String
  issue_fact fact =
      (λ s. (check_issue s fact, s)) >> (modify (store_fact fact) >> pure (fact_ref fact))

  -- the receipt of a lookup
  unfoldable pub use_of :
      FactStore
      → String
      → SubjectKey
      → CostVector
      → CostVector
      → Option DerivedFact
      → FactUseReceipt
  use_of s query_ref key charged avoided none = record {
    schema_id = "strongwiz.fact-use.v1";
    query_ref = query_ref;
    kind = (missed s key).0;
    subject_ref = key.subject;
    subject_version = key.version;
    predicate = key.about;
    fact_ref = none;
    reason = (missed s key).1;
    charged_cost = charged;
    avoided_cost = no_costs;
  }
  use_of s query_ref key charged avoided (some fact) = record {
    schema_id = "strongwiz.fact-use.v1";
    query_ref = query_ref;
    kind = hit;
    subject_ref = key.subject;
    subject_version = key.version;
    predicate = key.about;
    fact_ref = some (fact_ref fact);
    reason = exact_match;
    charged_cost = charged;
    avoided_cost = avoided;
  }

  unfoldable pub serve :
      String
      → SubjectKey
      → CostVector
      → CostVector
      → Option DerivedFact
      → Exec FactStore FactError (Option DerivedFact × FactUseReceipt)
  serve query_ref key charged avoided fact =
      gets (λ s. use_of s query_ref key charged avoided fact) >>= λ receipt.
      modify (record_use receipt) >> pure (fact, receipt)

  unfoldable pub lookup :
      String
      → SubjectKey
      → Option CostVector
      → Option CostVector
      → Exec FactStore FactError (Option DerivedFact × FactUseReceipt)
  lookup query_ref key lookup_cost avoided_cost =
      (λ s. (find s key, s))
      >>= serve query_ref key (get_or lookup_cost one_validation) (get_or avoided_cost no_costs)
