-- ===== src/Authority.antt =====
-- What a step may do (agentic_bus/coordinator/runtime.py: `_declared_scopes`, `_ungranted_scopes`,
-- `_grant_for`, `_reconcile_scope_usage`, the guards at the head of a dispatch; agentic_bus/coordinator/execution/supervisor.py:
-- the scopes of the capability that execution issues). `Bindings` is the repository of the scopes
-- that an administrator bound to a capability; none is a raised exception.
mod Examples
pub mod Delegation
use agentic_bus.Common.{
  ℕ, List, [], ◌∷◌, Bool, true, false, not, ◌||◌, Option, none, some, if◌then◌else◌, Text, ◌==◌,
  keep, is_empty,
}
use agentic_bus.Scopes.{narrow, intersect, covered_by_any}
use agentic_bus.Registry.{AgentCapability, AgentRegistration, CapabilityRegistry, get}
use agentic_bus.Ibac.Capability.{IsoTime, Capability, CapabilityViolation, check}

abbrev pub Bindings : Type 0
Bindings = Text → Text → Option (List Text)

-- `scopes=narrow(ibac_claims_requested, requester_authority)` of `ExecutionSupervisor.execute`
unfoldable pub capability_scopes : List Text → List Text → List Text
capability_scopes claims authority = narrow claims authority

required_by : Text → List AgentCapability → List Text
required_by capability_id [] = []
required_by capability_id (c ∷ cs) =
    let rest = required_by capability_id cs in
    if c.capability_id == capability_id then c.required_scopes else rest

unfoldable pub declared_scopes : CapabilityRegistry → Text → Text → List Text
unfolding required_by
declared_scopes r agent_id capability_id = elim (get agent_id r) [
  | none ↦ []
  | some registration ↦ required_by capability_id registration.capabilities
]

abbrev pub not_covered : List Text → Option (List Text) → List Text
not_covered required none = required
not_covered required (some granted) = keep (λ s. not (covered_by_any granted s)) required

unfoldable pub ungranted_scopes : Bindings → Text → Text → List Text → List Text
ungranted_scopes bindings agent_id capability_id required =
    if is_empty required || is_empty capability_id
    then []
    else not_covered required (bindings agent_id capability_id)

abbrev pub bounded_by : List Text → Option (List Text) → List Text
bounded_by scopes none = []
bounded_by scopes (some bound) = if is_empty scopes then bound else intersect scopes bound

unfoldable pub grant_for : Bool → Bindings → Text → Text → List Text → List Text
grant_for enforced bindings agent_id capability_id scopes =
    if not enforced then scopes else bounded_by scopes (bindings agent_id capability_id)

-- `_reconcile_scope_usage`: of the scopes that a completion reports as used, those beyond the
-- scopes of the session's capability.
unfoldable pub exceeded_scopes : List Text → List Text → List Text
exceeded_scopes granted used =
    if is_empty granted then used else keep (λ s. not (covered_by_any granted s)) used

-- How a dispatch is refused; each is the `PermissionError` of one guard.
pub data Refusal : Type 0 where
  by_capability : CapabilityViolation → Refusal
  by_bindings : List Text → Refusal

-- The two guards of `_make_ws_executor`, before anything is sent. None lets the step go on. Without
-- enforcement missing scopes are only logged.
module _ (iso : IsoTime) where
  abbrev pub capability_guard :
      Option Capability → Text → List Text → ℕ → Option CapabilityViolation
  capability_guard none agent_id required now = none
  capability_guard (some c) agent_id required now = check iso c agent_id required now

  abbrev pub binding_guard : Bool → List Text → Option Refusal
  binding_guard enforced missing =
      if is_empty missing then none else if enforced then some (by_bindings missing) else none

  unfoldable pub dispatch_guard :
      Bool → Bindings → CapabilityRegistry → Option Capability → Text → Text → ℕ → Option Refusal
  dispatch_guard enforced bindings r capability agent_id capability_id now =
      let required = declared_scopes r agent_id capability_id in
      elim (capability_guard capability agent_id required now) [
        | some violation ↦ some (by_capability violation)
        | none ↦ binding_guard enforced (ungranted_scopes bindings agent_id capability_id required)
      ]
