-- ===== src/Authority/Registry.antt =====
-- `GrantRegistry` of authority.py, method by method.
use strongwiz.Base.{
  ℕ, ◌+◌, ◌-◌, String, Bool, false, not, ◌&&◌, ◌||◌, Option, none, some, List, [], ◌∷◌, ◌==◌, ltb,
  leb, contains, is_present, string_eq, nat_eq, option_eq, pair_eq, if◌then◌else◌, ℤ, pos, negsuc,
}
use strongwiz.Base.Result.{Result, ok, err}
use strongwiz.Base.Exec.{Exec, pure, raise, gets, lift, or_raise, ◌>>=◌, ◌>>◌, raise_if, modify}
use strongwiz.Base.Map.{Map, empty, insert, set_default, get_or}
use strongwiz.Authority.Grant.{
  TaskGrant, GrantStatus, active, revoked, superseded, expired, exhausted, grant_eq,
  grant_status_eq,
}
use strongwiz.Authority.Permit.{
  AuthorityError, rewritten_grant, inexact_replacement, absent_replacement, not_revocable,
  unknown_grant, not_active, not_yet_active, grant_expired, action_outside, action_ref_outside,
  executor_outside, executor_version_outside, scope_outside, serial_token_reused, invocation_reused,
  budget_exhausted, no_reservation, missing_key, permit_foreign, permit_used, Bindings,
  DecisionPermit, new_permit, consume, issued_by, ReleaseReceipt, released, quarantined,
  ReleaseReason, bindings_differ, control_changed, revalidated, ReleaseStatus, negative_boundary,
}

pub record GrantRegistry : Type 0 where
  pub grants : Map String TaskGrant
  pub statuses : Map String GrantStatus
  pub active_ref : Option String
  pub invocations : Map String ℕ
  pub outstanding : Map String ℕ
  pub invocation_ids : List (String × String)
  pub serial_tokens : List String
  pub permit_issuer : ℕ

-- `GrantRegistry.__init__`: the issuer is a fresh object
abbrev pub new_registry : ℕ → GrantRegistry
new_registry issuer = record {
  grants = empty;
  statuses = empty;
  active_ref = none;
  invocations = empty;
  outstanding = empty;
  invocation_ids = [];
  serial_tokens = [];
  permit_issuer = issuer;
}

abbrev pub Action : Type 0 → Type 0
Action = Exec GrantRegistry AuthorityError

abbrev set_status : String → GrantStatus → Action (Unit {0})
set_status r s = modify (λ g. record g { statuses = insert r s g.statuses })

-- `current is not None and current != grant`
rewrites : Option TaskGrant → TaskGrant → Bool
rewrites none grant = false
rewrites (some current) grant = not (current == grant)

-- the branch on `self._active_ref` in `activate`
replace_active : TaskGrant → Option String → Action (Unit {0})
replace_active grant (some r) = do
  raise_if (not (grant.replaces_grant_ref == some r)) inexact_replacement
  set_status r superseded
replace_active grant none = raise_if (not (grant.replaces_grant_ref == none)) absent_replacement

-- `grant_ref` is the content digest of a grant.
module _ (grant_ref : TaskGrant → String) where
  unfoldable pub activate : TaskGrant → Action String
  unfolding rewrites replace_active
  activate grant = do
    raise_if (rewrites (← gets (λ g. g.grants (grant_ref grant))) grant) rewritten_grant
    replace_active grant (← gets (λ g. g.active_ref))
    modify (λ g. record g {
      grants = insert (grant_ref grant) grant g.grants;
      statuses = insert (grant_ref grant) active g.statuses;
      invocations = set_default (grant_ref grant) 0 g.invocations;
      outstanding = set_default (grant_ref grant) 0 g.outstanding;
      active_ref = some (grant_ref grant);
    })
    pure (grant_ref grant)

unfoldable pub revoke : String → Action (Unit {0})
revoke r = do
  raise_if (not ((← gets (λ g. g.statuses r)) == some active)) not_revocable
  set_status r revoked
  modify (λ g. record g { active_ref = if g.active_ref == some r then none else g.active_ref })

-- the names are those of the keyword arguments of `_require_active`
unfoldable pub require_active :
    String → ℕ → String → String → String → String → String → String → Action TaskGrant
require_active r boundary action_name action_ref executor_id executor_version artifact scope_id = do
  grant ← gets (λ g. g.grants r) >>= λ found. or_raise found unknown_grant
  raise_if (← gets (λ g. not (g.active_ref == some r) || not (g.statuses r == some active)))
      not_active
  raise_if (ltb boundary grant.not_before_boundary) not_yet_active
  if ltb grant.expires_boundary boundary
      then set_status r expired >> raise grant_expired
      else pure tt
  raise_if (not (contains grant.allowed_action_names action_name)) action_outside
  raise_if
      (is_present grant.allowed_action_refs && not (contains grant.allowed_action_refs action_ref))
      action_ref_outside
  raise_if (not (executor_id == grant.executor_id)) executor_outside
  raise_if
      (not (executor_version == grant.executor_version)
        || not (artifact == grant.executor_artifact_ref))
      executor_version_outside
  raise_if (not (scope_id == grant.scope_id)) scope_outside
  pure grant

-- the five writes of `_begin_permit`
abbrev reserve : Bindings → ℕ → ℕ → Action (Unit {0})
reserve b used held = modify (λ g. record g {
  serial_tokens = b.token ∷ g.serial_tokens;
  invocation_ids = (b.grant_ref, b.invocation_id) ∷ g.invocation_ids;
  invocations = insert b.grant_ref (used + 1) g.invocations;
  outstanding = insert b.grant_ref (held + 1) g.outstanding;
})

-- `_begin_permit` after its call of `_require_active`
unfoldable pub reserve_and_issue : Bindings → TaskGrant → Action DecisionPermit
unfolding new_permit
reserve_and_issue b grant = do
  raise_if (← gets (λ g. contains g.serial_tokens b.token)) serial_token_reused
  raise_if (← gets (λ g. contains g.invocation_ids (b.grant_ref, b.invocation_id)))
      invocation_reused
  used ← gets (λ g. g.invocations b.grant_ref) >>= λ n. or_raise n missing_key
  raise_if (leb grant.maximum_invocations used) budget_exhausted
  held ← gets (λ g. g.outstanding b.grant_ref) >>= λ n. or_raise n missing_key
  reserve b used held
  issuer ← gets (λ g. g.permit_issuer)
  lift (new_permit issuer b)

unfoldable pub begin_permit : Bindings → Action DecisionPermit
begin_permit b = do
  grant ←
      require_active b.grant_ref b.boundary b.action_name b.action_ref b.executor_id
        b.executor_version b.executor_artifact_ref b.scope_id
  reserve_and_issue b grant

unfoldable pub finish_reservation : String → Action (Unit {0})
finish_reservation r = do
  held ← gets (λ g. get_or (g.outstanding r) 0)
  raise_if (leb held 0) no_reservation
  modify (λ g. record g { outstanding = insert r (held - 1) g.outstanding })
  grant ← gets (λ g. g.grants r) >>= λ found. or_raise found missing_key
  used ← gets (λ g. g.invocations r) >>= λ n. or_raise n missing_key
  spent ← gets (λ g.
      g.active_ref == some r
      && g.statuses r == some active
      && leb grant.maximum_invocations used
      && g.outstanding r == some 0)
  if spent then set_status r exhausted else pure tt

-- The arguments of `_release_permit`, besides the permit.
pub record Release : Type 0 where
  pub proposal_ref : String
  pub action_ref : String
  pub candidate_ref : String
  pub boundary : ℤ
  pub action_name : String
  pub executor_id : String

-- z >= n
unfoldable pub is_at_least : ℤ → ℕ → Bool
is_at_least (pos m) n = leb n m
is_at_least (negsuc m) n = false

-- the boundary of a release whose bindings match, which is not below zero
abbrev pub natural : ℤ → ℕ
natural (pos n) = n
natural (negsuc n) = 0

unfoldable pub bindings_match : Release → DecisionPermit → Bool
unfolding is_at_least
bindings_match r p =
    r.proposal_ref == p.proposal_ref
    && r.action_ref == p.action_ref
    && r.action_name == p.action_name
    && r.executor_id == p.executor_id
    && is_at_least r.boundary p.boundary

-- `ReleaseReceipt(...)`, which refuses a boundary below zero
unfoldable pub receipt_at :
    Release
    → Bindings
    → ReleaseStatus
    → ReleaseReason
    → Option String
    → Result AuthorityError ReleaseReceipt
receipt_at r b status why destination = elim r.boundary [
  | negsuc _ ↦ err negative_boundary
  | pos n ↦ ok (record {
    bindings = b;
    candidate_ref = some r.candidate_ref;
    status = status;
    reason = why;
    release_boundary = n;
    output_destination_ref = destination;
  })
]

-- The registry and the permit that a release writes to.
abbrev pub Releasing : Type 0 → Type 0
Releasing = Exec (GrantRegistry × DecisionPermit) AuthorityError

abbrev in_registry : {A : Type 0} → Action A → Releasing A
in_registry m (g, p) = let (r, g') = m g in (r, (g', p))

abbrev in_permit : {A : Type 0} → Exec DecisionPermit AuthorityError A → Releasing A
in_permit m (g, p) = let (r, p') = m p in (r, (g, p'))

-- `permit.consume(); self._finish_reservation(permit.grant_ref)`, and then the receipt
close : Result AuthorityError ReleaseReceipt → Releasing ReleaseReceipt
unfolding consume
close receipt = do
  in_permit consume
  r ← gets (λ s. s.1.grant_ref)
  in_registry (finish_reservation r)
  lift receipt

-- the `try` in `_release_permit`
revalidate : Release → DecisionPermit → Releasing (Result AuthorityError TaskGrant)
revalidate r p (g, q) =
    let (found, g') =
      require_active p.grant_ref (natural r.boundary) r.action_name p.action_ref p.executor_id
        p.executor_version p.executor_artifact_ref p.scope_id g in
    (ok found, (g', q))

decided :
    Release → Bindings → Result AuthorityError TaskGrant → Result AuthorityError ReleaseReceipt
decided r b (ok grant) = receipt_at r b released revalidated (some grant.output_destination_ref)
decided r b (err e) = receipt_at r b quarantined (control_changed e) none

unfoldable pub release_permit : Release → Releasing ReleaseReceipt
unfolding issued_by bindings_match receipt_at close revalidate decided
release_permit r = do
  p ← gets (λ s. s.1)
  issuer ← gets (λ s. s.0.permit_issuer)
  raise_if (not (issued_by issuer p)) permit_foreign
  raise_if p.used permit_used
  if not (bindings_match r p)
      then close (receipt_at r p.bindings quarantined bindings_differ none)
      else (revalidate r p >>= λ found. close (decided r p.bindings found))
