-- ===== src/Contracts/Route.antt =====
-- `GuardResult` and `RouteDecision`, the advisory answer of the router.
use strongwiz.Base.{
  Eq, String_discrete, String, Bool, true, false, not, ◌&&◌, ◌||◌, Option, none, some, List, ◌==◌,
  has_text, string_eq,
}
use strongwiz.Base.Result.{Result, ok, ◌>>◌, raise_if}
use strongwiz.Contracts.Enums.{
  GuardStatus-discrete, RouteDisposition-discrete, RouteDisposition, admit, request_witness, reject,
  reopen, GuardStatus, Invalid, unsupported_schema, unbound_route, executing_route,
  unselected_admission, selecting_hold,
}

pub record GuardResult : Type 0 where
  pub guard : String
  pub status : GuardStatus
  pub reason : String
  pub evidence_refs : List String

pub record RouteDecision : Type 0 where
  pub schema_id : String
  pub control_ref : String
  pub disposition : RouteDisposition
  pub selected_proposal_id : Option String
  pub selected_proposal_ref : Option String
  pub guards : List GuardResult
  pub missing_witness_refs : List String
  pub limitations : List String
  pub nonexecution_marker : Bool
  pub authority : String
  pub effect : String

is_none : Option String → Bool
is_none none = true
is_none (some _) = false

-- not in `{ADMIT, REOPEN}`
unfoldable pub nonselecting : RouteDisposition → Bool
nonselecting admit = false
nonselecting reopen = false
nonselecting RouteDisposition.hold = true
nonselecting request_witness = true
nonselecting reject = true

unfoldable pub validate_nonexecution : RouteDecision → Result Invalid RouteDecision
unfolding is_none nonselecting
validate_nonexecution d = do
  raise_if (not (d.schema_id == "strongwiz.contract.v1")) unsupported_schema
  raise_if (not (has_text d.control_ref)) unbound_route
  raise_if (not d.nonexecution_marker || not (d.authority == "NONE") || not (d.effect == "NONE"))
      executing_route
  raise_if
      (not (nonselecting d.disposition)
        && (is_none d.selected_proposal_id || is_none d.selected_proposal_ref))
      unselected_admission
  raise_if
      (nonselecting d.disposition
        && not (is_none d.selected_proposal_id && is_none d.selected_proposal_ref))
      selecting_hold
  ok d

unfoldable pub GuardResult-discrete : Discrete GuardResult
GuardResult-discrete = hlevel (String_discrete, GuardStatus-discrete)

unfoldable pub RouteDecision-discrete : Discrete RouteDecision
RouteDecision-discrete = hlevel (String_discrete, RouteDisposition-discrete, GuardResult-discrete)

instance abbrev pub route_eq : Eq RouteDecision
route_eq = record { dec_eq = RouteDecision-discrete }
