-- ===== src/Accounts/Book.antt =====
-- `AccountBook` of accounts.py.
use strongwiz.Base.{
  ℕ, String, Bool, false, not, ◌||◌, Option, none, some, List, [], ◌==◌, ◌+◌, is_present, all,
  string_eq, nat_eq, option_eq, pair_eq,
}
use strongwiz.Base.Map.{Map, empty, insert, has_key}
use strongwiz.Base.Exec.{Exec, pure, gets, lift, or_raise, raise_if, modify, ◌>>=◌, ◌>>◌}
use strongwiz.Accounts.Records.{
  AccountKind, ResidualStatus, residual_status_eq, AccountError, AccountHeader, header_eq,
  ResidualRecord, residual_eq, validate_header, validate_residual, rewritten_version, occupied_step,
  unknown_version, rewritten_residual, missing_parents, unknown_residual,
}

-- The content hashes of headers and of the dictionaries that identify accounts and residuals:
-- `opening` of kind, scope, cut, parent and predecessor; `noting` of account, version, sources and
-- statement; `changing` of the account's digest, parents, reason, sources, statement and status.
pub record AccountDigests : Type 0 where
  pub of_header : AccountHeader → String
  pub opening : AccountKind → String → String → Option String → Option String → String
  pub noting : String → ℕ → List String → String → String
  pub changing : String → List String → String → List String → String → ResidualStatus → String

pub record AccountBook : Type 0 where
  pub headers : Map (String × ℕ) AccountHeader
  pub residuals : Map String ResidualRecord

unfoldable pub new_book : AccountBook
new_book = record { headers = empty; residuals = empty }

abbrev pub Action : Type 0 → Type 0
Action = Exec AccountBook AccountError

-- a value that is there and differs
abbrev pub differs_header : Option AccountHeader → AccountHeader → Bool
differs_header none h = false
differs_header (some g) h = not (g == h)

abbrev pub differs_residual : Option ResidualRecord → ResidualRecord → Bool
differs_residual none r = false
differs_residual (some q) r = not (q == r)

abbrev pub key_of : AccountHeader → String × ℕ
key_of h = (h.account_id, h.version)

-- `_record`
unfoldable pub record_header : AccountHeader → Action AccountHeader
record_header h = do
  current ← gets (λ b. b.headers (key_of h))
  raise_if (differs_header current h) rewritten_version
  modify (λ b. record b { headers = insert (key_of h) h b.headers })
  pure h

-- a header is built, which validates it, and recorded
unfoldable pub enter : AccountHeader → Action AccountHeader
enter h = lift (validate_header h) >>= record_header

unfoldable pub require : String → ℕ → Action AccountHeader
require account_id version = do
  found ← gets (λ b. b.headers (account_id, version))
  or_raise found unknown_version

-- the loop over the parents of a residual
unfoldable pub require_residuals : List String → Action (Unit {0})
require_residuals ids = do
  known ← gets (λ b. all (has_key b.residuals) ids)
  raise_if (not known) unknown_residual

-- `self._residuals[residual_id] = record`
unfoldable pub store_residual : ResidualRecord → Action ResidualRecord
store_residual r = do
  modify (λ b. record b { residuals = insert r.residual_id r b.residuals })
  pure r

-- a residual that is there must be the same
unfoldable pub keep_residual : ResidualRecord → Action ResidualRecord
keep_residual r = do
  current ← gets (λ b. b.residuals r.residual_id)
  raise_if (differs_residual current r) rewritten_residual
  store_residual r

module _ (d : AccountDigests) where
  open d use {of_header, opening, noting, changing}

  unfoldable pub root_of : String → String → List String → AccountHeader
  root_of scope_id cut_ref witness_refs = record {
    account_id = opening AccountKind.root scope_id cut_ref none none;
    origin_id = opening AccountKind.root scope_id cut_ref none none;
    kind = AccountKind.root;
    version = 0;
    scope_id = scope_id;
    cut_ref = cut_ref;
    parent_account_id = none;
    parent_account_ref = none;
    predecessor_account_id = none;
    predecessor_account_ref = none;
    prior_version_ref = none;
    witness_refs = witness_refs;
    material_delta_refs = [];
  }

  unfoldable pub open_root : String → String → List String → Action AccountHeader
  open_root scope_id cut_ref witness_refs = enter (root_of scope_id cut_ref witness_refs)

  unfoldable pub child_of : AccountHeader → String → String → List String → AccountHeader
  child_of parent scope_id cut_ref witness_refs =
      let account_id = opening AccountKind.child scope_id cut_ref (some (of_header parent)) none in
      record {
        account_id = account_id;
        origin_id = account_id;
        kind = AccountKind.child;
        version = 0;
        scope_id = scope_id;
        cut_ref = cut_ref;
        parent_account_id = some parent.account_id;
        parent_account_ref = some (of_header parent);
        predecessor_account_id = none;
        predecessor_account_ref = none;
        prior_version_ref = none;
        witness_refs = witness_refs;
        material_delta_refs = [];
      }

  unfoldable pub open_child : AccountHeader → String → String → List String → Action AccountHeader
  open_child parent scope_id cut_ref witness_refs =
      require parent.account_id parent.version >>= λ _.
      enter (child_of parent scope_id cut_ref witness_refs)

  unfoldable pub successor_of : AccountHeader → String → String → List String → AccountHeader
  successor_of predecessor scope_id cut_ref witness_refs =
      let account_id =
        opening AccountKind.successor scope_id cut_ref none (some (of_header predecessor)) in
      record {
        account_id = account_id;
        origin_id = account_id;
        kind = AccountKind.successor;
        version = 0;
        scope_id = scope_id;
        cut_ref = cut_ref;
        parent_account_id = none;
        parent_account_ref = none;
        predecessor_account_id = some predecessor.account_id;
        predecessor_account_ref = some (of_header predecessor);
        prior_version_ref = none;
        witness_refs = witness_refs;
        material_delta_refs = [];
      }

  unfoldable pub open_successor :
      AccountHeader → String → String → List String → Action AccountHeader
  open_successor predecessor scope_id cut_ref witness_refs =
      require predecessor.account_id predecessor.version >>= λ _.
      enter (successor_of predecessor scope_id cut_ref witness_refs)

  unfoldable pub version_of : AccountHeader → String → List String → List String → AccountHeader
  version_of previous cut_ref witness_refs material_delta_refs = record {
    account_id = previous.account_id;
    origin_id = previous.origin_id;
    kind = AccountKind.version;
    version = previous.version + 1;
    scope_id = previous.scope_id;
    cut_ref = cut_ref;
    parent_account_id = none;
    parent_account_ref = none;
    predecessor_account_id = none;
    predecessor_account_ref = none;
    prior_version_ref = some (of_header previous);
    witness_refs = witness_refs;
    material_delta_refs = material_delta_refs;
  }

  -- the end of `open_version`, for a candidate that is valid
  unfoldable pub occupy : AccountHeader → Action AccountHeader
  occupy candidate = do
    found ← gets (λ b. b.headers (key_of candidate))
    elim found [
      | none ↦ record_header candidate
      | some existing ↦ raise_if (not (existing == candidate)) occupied_step >> pure existing
    ]

  unfoldable pub open_version :
      AccountHeader → String → List String → List String → Action AccountHeader
  open_version previous cut_ref witness_refs material_delta_refs = do
    _ ← require previous.account_id previous.version
    candidate ←
        lift (validate_header (version_of previous cut_ref witness_refs material_delta_refs))
    occupy candidate

  unfoldable pub residual_of : AccountHeader → String → List String → ResidualRecord
  residual_of account statement source_refs = record {
    residual_id = noting account.account_id account.version source_refs statement;
    account_id = account.account_id;
    account_version = account.version;
    statement = statement;
    status = ResidualStatus.active;
    source_refs = source_refs;
    parent_residual_ids = [];
    transition_reason = none;
  }

  unfoldable pub register_residual : AccountHeader → String → List String → Action ResidualRecord
  register_residual account statement source_refs = do
    _ ← require account.account_id account.version
    r ← lift (validate_residual (residual_of account statement source_refs))
    keep_residual r

  unfoldable pub changed_of :
      List String → AccountHeader → String → ResidualStatus → List String → String → ResidualRecord
  changed_of prior_ids account statement status source_refs reason = record {
    residual_id = changing (of_header account) prior_ids reason source_refs statement status;
    account_id = account.account_id;
    account_version = account.version;
    statement = statement;
    status = status;
    source_refs = source_refs;
    parent_residual_ids = prior_ids;
    transition_reason = some reason;
  }

  unfoldable pub transition_residual :
      List String
      → AccountHeader
      → String
      → ResidualStatus
      → List String
      → String
      → Action ResidualRecord
  transition_residual prior_ids account statement status source_refs reason = do
    raise_if (not (is_present prior_ids) || status == ResidualStatus.active) missing_parents
    _ ← require account.account_id account.version
    require_residuals prior_ids
    r ← lift (validate_residual (changed_of prior_ids account statement status source_refs reason))
    store_residual r
