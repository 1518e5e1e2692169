-- ===== src/Facts/Mutate.antt =====
-- `mutate_subject` of facts.py: the facts of a subject are withdrawn, with all that rests on them.
use strongwiz.Base.{
  ℕ, zero, suc, ◌+◌, String, Bool, true, false, Option, none, some, List, [], ◌∷◌, ◌++◌, ◌==◌, all,
  any, keep, contains, difference, sorted_set, length, string_eq, nat_eq, if◌then◌else◌,
}
use strongwiz.Base.Map.{Map, insert, has_key, get_or}
use strongwiz.Base.Result.{Result, ok, err}
use strongwiz.Base.Exec.{Exec, pure, ◌>>=◌, ◌>>◌, modify, lift, gets}
use strongwiz.Contracts.{CostVector, no_costs, add_costs}
use strongwiz.Facts.Records.{
  FactError, missing_key, DerivedFact, FactInvalidation, validate_invalidation,
}
use strongwiz.Facts.Store.{FactStore, KeyIndex, add}

-- `set.update`
unfoldable pub add_all : List String → List String → List String
add_all [] xs = xs
add_all (y ∷ ys) xs = add_all ys (add y xs)

-- `directly_implicated`
unfoldable pub implicated : List String → String → KeyIndex → List String
implicated active subject [] = []
implicated active subject ((k, refs) ∷ rest) =
    let others = implicated active subject rest in
    if k.subject == subject then add_all (keep (contains active) refs) others else others

-- `_facts[ref].dependency_fact_refs`
unfoldable pub dependencies : Map String DerivedFact → String → List String
dependencies facts ref = elim (facts ref) [ none ↦ [] | some f ↦ f.dependency_fact_refs ]

-- one `for` over `_active - candidates`, with the value of `changed` at its end
unfoldable pub sweep :
    (String → List String) → List String → List String → Bool → List String × Bool
sweep deps [] candidates changed = (candidates, changed)
sweep deps (ref ∷ rest) candidates changed = elim (any (contains candidates) (deps ref)) [
  | true ↦ sweep deps rest (candidates ++ ref ∷ []) true
  | false ↦ sweep deps rest candidates changed
]

-- the `while`, on as much fuel as there are active facts
unfoldable pub close : (String → List String) → List String → ℕ → List String → List String
close deps active zero candidates = candidates
close deps active (suc fuel) candidates =
    let (next, changed) = sweep deps (difference active candidates) candidates false in
    elim changed [ true ↦ close deps active fuel next | false ↦ next ]

-- The first sweep reads `_facts` at every active reference that is no candidate yet.
unfoldable pub candidates_of : FactStore → String → Result FactError (List String)
candidates_of s subject =
    let start = implicated s.active subject s.by_key in
    if all (has_key s.facts) (difference s.active start)
    then ok (close (dependencies s.facts) s.active (length s.active) start)
    else err missing_key

-- `max(1, n)`
abbrev at_least_one : ℕ → ℕ
at_least_one zero = 1
at_least_one (suc n) = suc n

unfoldable pub withdraw : String → ℕ → List String → Option CostVector → FactStore → FactStore
withdraw subject version candidates cost s = record s {
  active = difference s.active candidates;
  versions = insert subject version s.versions;
  economics = record s.economics {
    invalidations = s.economics.invalidations + 1;
    charged =
        add_costs s.economics.charged
          (get_or cost (record no_costs { invalidation_units = at_least_one (length candidates) }));
  };
}

-- the receipt, and what follows where it is valid
unfoldable pub invalidate :
    String
    → ℕ
    → String
    → String
    → List String
    → Option CostVector
    → List String
    → Exec FactStore FactError FactInvalidation
invalidate subject_ref new_version event_kind reason evidence_refs cost candidates =
    gets (λ s. get_or (s.versions subject_ref) 0) >>= λ old_version.
    lift (
      validate_invalidation (record {
        schema_id = "strongwiz.fact-invalidation.v1";
        subject_ref = subject_ref;
        old_version = old_version;
        new_version = new_version;
        event_kind = event_kind;
        reason = reason;
        evidence_refs = evidence_refs;
        invalidated_fact_refs = sorted_set candidates;
      }))
    >>= λ receipt. modify (withdraw subject_ref new_version candidates cost) >> pure receipt

unfoldable pub mutate_subject :
    String
    → ℕ
    → String
    → String
    → List String
    → Option CostVector
    → Exec FactStore FactError FactInvalidation
mutate_subject subject_ref new_version event_kind reason evidence_refs invalidation_cost =
    (λ s. (candidates_of s subject_ref, s))
    >>= invalidate subject_ref new_version event_kind reason evidence_refs invalidation_cost
