-- ===== src/Accounts/Records.antt =====
-- The records of accounts.py with their validators.
use strongwiz.Base.{
  ℕ, String, Bool, false, not, ◌&&◌, ◌||◌, Option, none, some, List, [], ◌∷◌, Eq, ◌==◌, all, any,
  is_nonempty, is_present, string_eq, nat_eq, option_eq, String_discrete, ℕ_discrete,
}
use strongwiz.Base.Result.{Result, ok, ◌>>◌, raise_if}

pub data AccountKind : Type 0 where
  root child successor version : AccountKind

pub data ResidualStatus : Type 0 where
  active split discharged reopened superseded : ResidualStatus

unfoldable pub AccountKind-discrete : Discrete AccountKind
AccountKind-discrete = hlevel

unfoldable pub ResidualStatus-discrete : Discrete ResidualStatus
ResidualStatus-discrete = hlevel

instance abbrev pub residual_status_eq : Eq ResidualStatus
residual_status_eq = record { dec_eq = ResidualStatus-discrete }

-- The messages of `AccountError`, and the `ValueError`s of the validators.
pub data AccountError : Type 0 where
  rewritten_version occupied_step unknown_version rewritten_residual : AccountError
  missing_parents unknown_residual : AccountError
  incomplete_account missing_witness inheriting_root unparented_child : AccountError
  unpreceded_successor missing_prior_version missing_delta : AccountError
  incomplete_residual missing_source missing_reason : AccountError

pub record AccountHeader : Type 0 where
  pub account_id : String
  pub origin_id : String
  pub kind : AccountKind
  pub version : ℕ
  pub scope_id : String
  pub cut_ref : String
  pub parent_account_id : Option String
  pub parent_account_ref : Option String
  pub predecessor_account_id : Option String
  pub predecessor_account_ref : Option String
  pub prior_version_ref : Option String
  pub witness_refs : List String
  pub material_delta_refs : List String

unfoldable pub AccountHeader-discrete : Discrete AccountHeader
AccountHeader-discrete = hlevel (String_discrete, ℕ_discrete, AccountKind-discrete)

instance abbrev pub header_eq : Eq AccountHeader
header_eq = record { dec_eq = AccountHeader-discrete }

-- the tests of the validator that depend on the kind
unfoldable pub validate_kind : AccountHeader → Result AccountError (Unit {0})
validate_kind h = elim h.kind [
  | AccountKind.root ↦
      raise_if
        (not (h.version == 0)
          || any (λ x. not (x == none))
              (h.parent_account_id ∷ h.parent_account_ref ∷ h.predecessor_account_id
                ∷ h.predecessor_account_ref ∷ h.prior_version_ref ∷ []))
        inheriting_root
  | AccountKind.child ↦
      raise_if (h.parent_account_id == none || h.parent_account_ref == none || not (h.version == 0))
        unparented_child
  | AccountKind.successor ↦
      raise_if
        (h.predecessor_account_id == none
          || h.predecessor_account_ref == none
          || not (h.version == 0))
        unpreceded_successor
  | AccountKind.version ↦
      raise_if (h.prior_version_ref == none || h.version == 0) missing_prior_version
      >> raise_if (not (is_present h.material_delta_refs)) missing_delta
]

unfoldable pub validate_header : AccountHeader → Result AccountError AccountHeader
unfolding validate_kind
validate_header h = do
  raise_if (not (all is_nonempty (h.account_id ∷ h.origin_id ∷ h.scope_id ∷ h.cut_ref ∷ [])))
      incomplete_account
  raise_if (not (is_present h.witness_refs)) missing_witness
  validate_kind h
  ok h

pub record ResidualRecord : Type 0 where
  pub residual_id : String
  pub account_id : String
  pub account_version : ℕ
  pub statement : String
  pub status : ResidualStatus
  pub source_refs : List String
  pub parent_residual_ids : List String
  pub transition_reason : Option String

unfoldable pub ResidualRecord-discrete : Discrete ResidualRecord
ResidualRecord-discrete = hlevel (String_discrete, ℕ_discrete, ResidualStatus-discrete)

instance abbrev pub residual_eq : Eq ResidualRecord
residual_eq = record { dec_eq = ResidualRecord-discrete }

-- a text that is there and not empty
unfoldable pub is_given : Option String → Bool
is_given none = false
is_given (some s) = is_nonempty s

unfoldable pub validate_residual : ResidualRecord → Result AccountError ResidualRecord
unfolding is_given
validate_residual r = do
  raise_if (not (all is_nonempty (r.residual_id ∷ r.account_id ∷ r.statement ∷ [])))
      incomplete_residual
  raise_if (not (is_present r.source_refs)) missing_source
  raise_if (is_present r.parent_residual_ids && not (is_given r.transition_reason)) missing_reason
  ok r
