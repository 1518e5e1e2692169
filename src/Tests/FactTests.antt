-- ===== src/Tests/FactTests.antt =====
-- A store of two facts, one resting on the other, and a change of the first one's subject.
use strongwiz.Base.{
  string_eq, nat_eq, String_discrete, ◌≡◌, refl, ℕ_discrete, String, true, false, none, some, List,
  [], ◌∷◌, contains,
}
use strongwiz.Base.Result.{ok}
use strongwiz.Canonical.Json.{null, bool, int}
use strongwiz.Canonical.Equal.{json_eq}
use strongwiz.Contracts.{no_costs}
use strongwiz.Facts.Records.{FactStatus, DerivedFact, validate_fact}
use strongwiz.Facts.Store.{
  FactStore, SubjectKey, new_store, check_issue, store_fact, issue_fact, enlist, refs_at, latest,
  find, serve, lookup, use_of, record_use,
}
use strongwiz.Facts.Mutate.{
  mutate_subject, implicated, add_all, dependencies, sweep, close, candidates_of,
}
use strongwiz.Facts.Grounded.{IsGrounded}
use strongwiz.Facts.Mutation.{Withdrawn, is_explained, mutate_subject-Withdrawn}
use strongwiz.Facts.Calls.{Call, issues, mutates, step, calls, calls-IsGrounded}
use strongwiz.Facts.Lookup.{Served, lookup-Served}

-- a digest that tells facts apart by what they are about
abbrev ref_of : DerivedFact → String
ref_of f = f.predicate

abbrev shape : DerivedFact
shape = record {
  schema_id = "strongwiz.derived-fact.v1";
  subject_ref = "door";
  subject_version = 1;
  scope_id = "house";
  predicate = "shape";
  value = bool true;
  status = FactStatus.exact;
  producer_ref = "camera";
  evidence_refs = "e1" ∷ [];
  dependency_fact_refs = [];
  parent_fact_ref = none;
  validity_tags = [];
  transfer_rule_ids = [];
  invalidated_by_events = [];
  residual = null;
  continuation_token = null;
  acquisition_cost = no_costs;
}

-- about another subject, and resting on the first
abbrev way : DerivedFact
way = record shape { subject_ref = "room"; predicate = "way"; dependency_fact_refs = "shape" ∷ [] }

abbrev history : List Call
history = issues shape ∷ issues way ∷ []

abbrev store : FactStore
store = calls ref_of history new_store

store-IsGrounded : IsGrounded ref_of store
store-IsGrounded = calls-IsGrounded ref_of history

calls-IsGrounded_example : IsGrounded ref_of (
    calls ref_of
      (issues shape ∷ issues way ∷ mutates "door" 2 "moved" "seen" ("e2" ∷ []) none ∷ [])
      new_store)
calls-IsGrounded_example =
    calls-IsGrounded ref_of
      (issues shape ∷ issues way ∷ mutates "door" 2 "moved" "seen" ("e2" ∷ []) none ∷ [])

store_active : store.active ≡ "shape" ∷ "way" ∷ []
unfolding calls step issue_fact check_issue store_fact enlist String_discrete
store_active = refl

-- the fact about the room falls with that about the door
door_candidates : candidates_of store "door" ≡ ok ("shape" ∷ "way" ∷ [])
unfolding calls step issue_fact check_issue store_fact enlist candidates_of implicated add_all
    dependencies sweep close String_discrete strongwiz.Facts.Store.SubjectKey-discrete
door_candidates = refl

mutate_subject-Withdrawn_example :
    Withdrawn store "door" 2
      (is_explained "moved" "seen" ("e2" ∷ []))
      (mutate_subject "door" 2 "moved" "seen" ("e2" ∷ []) none store)
mutate_subject-Withdrawn_example =
    mutate_subject-Withdrawn ref_of store "door" store-IsGrounded 2 "moved" "seen" ("e2" ∷ []) none

abbrev door_shape : SubjectKey
door_shape = record { subject = "door"; version = 1; about = "shape" }

door_version : store.versions "door" ≡ some 1
unfolding calls step issue_fact check_issue store_fact String_discrete
door_version = refl

lookup-Served_example :
    Served ref_of store "q" door_shape (lookup ref_of "q" door_shape none none store)
lookup-Served_example =
    lookup-Served ref_of store door_shape store-IsGrounded "q" none none door_version

-- A later version of the subject can come with another fact, without `mutate_subject`; the fact of the
-- earlier version is still served.
stale_fact_served :
    find
      (calls ref_of
        (issues shape ∷ issues (record shape { subject_version = 2; predicate = "colour" }) ∷ [])
        new_store)
      door_shape
    ≡ ok (some shape)
unfolding calls step issue_fact check_issue store_fact enlist refs_at latest find String_discrete
    ℕ_discrete strongwiz.Facts.Store.SubjectKey-discrete
stale_fact_served = refl

-- 0 is `False` for `in`, so an exact-negative fact may carry it.
zero_is_negative :
    validate_fact (record shape { value = int true 0; status = FactStatus.exact_negative })
    ≡ ok (record shape { value = int true 0; status = FactStatus.exact_negative })
unfolding validate_fact json_eq strongwiz.Base.has_text strongwiz.Facts.Records.FactStatus-discrete
    ℕ_discrete String_discrete
zero_is_negative = refl
