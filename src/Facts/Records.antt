-- ===== src/Facts/Records.antt =====
-- The records of facts.py with their validators.
use strongwiz.Base.{
  ℕ, String, Bool, true, false, not, ◌&&◌, ◌||◌, Option, List, [], ◌∷◌, String_discrete, ◌==◌, all,
  is_nonempty, is_present, has_text, is_unique, leb, contains, Eq, string_eq, nat_eq, option_eq,
  list_eq,
}
use strongwiz.Base.Result.{Result, ok, ◌>>◌, raise_if}
use strongwiz.Canonical.Json.{Json, null, bool}
use strongwiz.Canonical.Equal.{json_eq}
use strongwiz.Contracts.{CostVector, fits_within}

-- The messages of `FactError`, the `ValueError`s of the validators, and the `KeyError` of a
-- reference that is not stored.
pub data FactError : Type 0 where
  unsupported_schema : FactError
  rewritten_rule stale_version missing_dependency ref_collision : FactError
  unknown_transfer invalidated_transfer undeclared_transfer illegal_status : FactError
  negative_transfer missing_validation unknown_fact inactive_fact missing_key : FactError
  incomplete_fact missing_evidence missing_residual terminal_token : FactError
  negative_value repeated_evidence : FactError
  incomplete_rule missing_status unpreserved_negative : FactError
  stalled_version incomplete_invalidation : FactError

pub data FactStatus : Type 0 where
  lower_bound exact exact_negative : FactStatus

pub data FactUseKind : Type 0 where
  hit miss invalid transfer recompute : FactUseKind

unfoldable pub FactStatus-discrete : Discrete FactStatus
FactStatus-discrete = hlevel

instance abbrev pub fact_status_eq : Eq FactStatus
fact_status_eq = record { dec_eq = FactStatus-discrete }

-- `==` on costs
unfoldable pub same_costs : CostVector → CostVector → Bool
same_costs c d = fits_within c d && fits_within d c

-- A JSON `None` is `null`.
pub record DerivedFact : Type 0 where
  pub schema_id : String
  pub subject_ref : String
  pub subject_version : ℕ
  pub scope_id : String
  pub predicate : String
  pub value : Json
  pub status : FactStatus
  pub producer_ref : String
  pub evidence_refs : List String
  pub dependency_fact_refs : List String
  pub parent_fact_ref : Option String
  pub validity_tags : List String
  pub transfer_rule_ids : List String
  pub invalidated_by_events : List String
  pub residual : Json
  pub continuation_token : Json
  pub acquisition_cost : CostVector

abbrev is_null : Json → Bool
is_null null = true
is_null _ = false

unfoldable pub validate_fact : DerivedFact → Result FactError DerivedFact
validate_fact f =
    raise_if (not (f.schema_id == "strongwiz.derived-fact.v1")) unsupported_schema
    >> (raise_if
          (not (all has_text (f.subject_ref ∷ f.scope_id ∷ f.predicate ∷ f.producer_ref ∷ [])))
          incomplete_fact
        >> (raise_if (not (is_present f.evidence_refs)) missing_evidence
            >> (raise_if
                  (f.status == lower_bound && (is_null f.residual && is_null f.continuation_token))
                  missing_residual
                >> (raise_if (not (f.status == lower_bound) && not (is_null f.continuation_token))
                      terminal_token
                    >> (raise_if
                          (f.status == exact_negative
                            && not (json_eq f.value (bool false) || is_null f.value))
                          negative_value
                        >> (raise_if (not (is_unique f.evidence_refs)) repeated_evidence
                            >> ok f))))))

-- `==` on facts
unfoldable pub same_fact : DerivedFact → DerivedFact → Bool
same_fact f g =
    f.schema_id == g.schema_id
    && f.subject_ref == g.subject_ref
    && f.subject_version == g.subject_version
    && f.scope_id == g.scope_id
    && f.predicate == g.predicate
    && json_eq f.value g.value
    && f.status == g.status
    && f.producer_ref == g.producer_ref
    && f.evidence_refs == g.evidence_refs
    && f.dependency_fact_refs == g.dependency_fact_refs
    && f.parent_fact_ref == g.parent_fact_ref
    && f.validity_tags == g.validity_tags
    && f.transfer_rule_ids == g.transfer_rule_ids
    && f.invalidated_by_events == g.invalidated_by_events
    && json_eq f.residual g.residual
    && json_eq f.continuation_token g.continuation_token
    && same_costs f.acquisition_cost g.acquisition_cost

pub record TransferRule : Type 0 where
  pub schema_id : String
  pub rule_id : String
  pub operation : String
  pub allowed_statuses : List FactStatus
  pub preserves_predicate : Bool
  pub preserves_negative : Bool
  pub requires_validation : Bool
  pub declared_scope : String

unfoldable pub validate_rule : TransferRule → Result FactError TransferRule
validate_rule r =
    raise_if (not (all is_nonempty (r.rule_id ∷ r.operation ∷ r.declared_scope ∷ [])))
      incomplete_rule
    >> (raise_if (not (is_present r.allowed_statuses)) missing_status
        >> (raise_if (contains r.allowed_statuses exact_negative && not r.preserves_negative)
              unpreserved_negative
            >> ok r))

unfoldable pub TransferRule-discrete : Discrete TransferRule
TransferRule-discrete = hlevel (String_discrete, FactStatus-discrete)

instance abbrev pub transfer_rule_eq : Eq TransferRule
transfer_rule_eq = record { dec_eq = TransferRule-discrete }

pub record FactInvalidation : Type 0 where
  pub schema_id : String
  pub subject_ref : String
  pub old_version : ℕ
  pub new_version : ℕ
  pub event_kind : String
  pub reason : String
  pub evidence_refs : List String
  pub invalidated_fact_refs : List String

unfoldable pub validate_invalidation : FactInvalidation → Result FactError FactInvalidation
validate_invalidation i =
    raise_if (leb i.new_version i.old_version) stalled_version
    >> (raise_if
          (not (is_nonempty i.event_kind && (is_nonempty i.reason && is_present i.evidence_refs)))
          incomplete_invalidation
        >> ok i)

pub data LookupReason : Type 0 where
  exact_match stale invalidated no_fact : LookupReason

pub record FactUseReceipt : Type 0 where
  pub schema_id : String
  pub query_ref : String
  pub kind : FactUseKind
  pub subject_ref : String
  pub subject_version : ℕ
  pub predicate : String
  pub fact_ref : Option String
  pub reason : LookupReason
  pub charged_cost : CostVector
  pub avoided_cost : CostVector

pub record FactEconomics : Type 0 where
  pub acquisitions : ℕ
  pub lookups : ℕ
  pub hits : ℕ
  pub misses : ℕ
  pub validations : ℕ
  pub transfers : ℕ
  pub invalidations : ℕ
  pub recomputations : ℕ
  pub charged : CostVector
  pub avoided : CostVector
