-- ===== src/Authority/Release.antt =====
-- What a released receipt shows, and that a permit serves once.
use strongwiz.Base.{
  ℕ, ◌≤◌, String, true, false, some, ◌≡◌, ◌⊎◌, refl, arith, contains, is_present, string_eq, nat_eq,
  option_eq, pair_eq, ◌↔◌,
}
use strongwiz.Base.Result.{Result, ok, err}
use strongwiz.Authority.Grant.{TaskGrant, active, grant_status_eq}
use strongwiz.Authority.Permit.{
  AuthorityError, permit_used, DecisionPermit, ReleaseReceipt, released,
}
use strongwiz.Authority.Registry.{
  GrantRegistry, require_active, Release, bindings_match, release_permit, natural,
}

-- One exact effect, requested at one boundary.
pub record Effect : Type 0 where
  pub grant_ref : String
  pub boundary : ℕ
  pub action_name : String
  pub action_ref : String
  pub executor_id : String
  pub executor_version : String
  pub executor_artifact_ref : String
  pub scope_id : String

abbrev pub require_effect : Effect → GrantRegistry → Result AuthorityError TaskGrant × GrantRegistry
require_effect e =
    require_active e.grant_ref e.boundary e.action_name e.action_ref e.executor_id
      e.executor_version e.executor_artifact_ref e.scope_id

-- The grant is the current one and its aperture holds the effect.
pub record Permits (g : GrantRegistry) (grant : TaskGrant) (e : Effect) : Type 0 where
  pub known : g.grants e.grant_ref ≡ some grant
  pub current : g.active_ref ≡ some e.grant_ref
  pub in_force : g.statuses e.grant_ref ≡ some active
  pub begun : grant.not_before_boundary ≤ e.boundary
  pub unexpired : e.boundary ≤ grant.expires_boundary
  pub action_allowed : contains grant.allowed_action_names e.action_name ≡ true
  pub content_allowed :
      (is_present grant.allowed_action_refs ≡ false)
      ⊎ (contains grant.allowed_action_refs e.action_ref ≡ true)
  pub executor : e.executor_id ≡ grant.executor_id
  pub executor_version : e.executor_version ≡ grant.executor_version
  pub executor_artifact : e.executor_artifact_ref ≡ grant.executor_artifact_ref
  pub scope : e.scope_id ≡ grant.scope_id

-- `_require_active` returns a grant exactly where that grant permits the effect.
pub require_active_iff :
    (g : GrantRegistry) (grant : TaskGrant) (e : Effect)
    → ((require_effect e g).0 ≡ ok grant) ↔ Permits g grant e
unfolding require_active
require_active_iff g grant e = (λ h. ground arith, λ h. ground arith)

-- The effect that a release asks for: the boundary and the action's name are the caller's.
abbrev pub effect_of : Release → DecisionPermit → Effect
effect_of r p = record {
  grant_ref = p.grant_ref;
  boundary = natural r.boundary;
  action_name = r.action_name;
  action_ref = p.action_ref;
  executor_id = p.executor_id;
  executor_version = p.executor_version;
  executor_artifact_ref = p.executor_artifact_ref;
  scope_id = p.scope_id;
}

abbrev pub result_of :
    Release → GrantRegistry → DecisionPermit → Result AuthorityError ReleaseReceipt
result_of r g p = (release_permit r (g, p)).0

-- what a receipt with the status `released` rests on
abbrev pub Justified : Release → GrantRegistry → DecisionPermit → ReleaseReceipt → Type 0
Justified r g p receipt =
    (bindings_match r p ≡ true)
    × (p.used ≡ false)
    × (receipt.bindings ≡ p.bindings)
    × ((grant : TaskGrant) × Permits g grant (effect_of r p)
        × (receipt.output_destination_ref ≡ some grant.output_destination_ref))

justify :
    (r : Release) (g : GrantRegistry) (p : DecisionPermit) (receipt : ReleaseReceipt)
    (found : Result AuthorityError TaskGrant)
    → (require_effect (effect_of r p) g).0 ≡ found
    → result_of r g p ≡ ok receipt
    → receipt.status ≡ released
    → Justified r g p receipt
unfolding release_permit
justify r g p receipt (err e) found h s = absurd (ground arith)
justify r g p receipt (ok grant) found h s = (
  ground arith,
  ground arith,
  ground arith,
  (grant, (require_active_iff g grant (effect_of r p)).0 found, ground arith),
)

-- A receipt is marked released only for an unused permit whose bindings the release repeats, and
-- only while the permit's grant is the current active grant, the boundary lies in its window, and
-- its action names, action contents, executor and scope admit the effect; the receipt then names
-- the grant's output destination.
pub released-Justified :
    (r : Release) (g : GrantRegistry) (p : DecisionPermit) (receipt : ReleaseReceipt)
    → result_of r g p ≡ ok receipt
    → receipt.status ≡ released
    → Justified r g p receipt
released-Justified r g p receipt h s = justify r g p receipt _ refl h s

-- A permit serves once: after a release that returned a receipt, released or quarantined, every
-- further release of that permit at the registry that issued it raises and changes nothing.
pub release_permit_once :
    (r s : Release) (g h : GrantRegistry) (p : DecisionPermit) (receipt : ReleaseReceipt)
    → result_of r g p ≡ ok receipt
    → h.permit_issuer ≡ g.permit_issuer
    → let (_, (_, q)) = release_permit r (g, p) in
      release_permit s (h, q) ≡ (err permit_used, (h, q))
unfolding release_permit
release_permit_once r s g h p receipt done same = ground arith
