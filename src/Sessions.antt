-- ===== src/Sessions.antt =====
-- The store of sessions (agentic_bus/core/session/manager.py). Of a session's state, the fields that
-- the modelled code reads; of an intent's payload (agentic_bus/core/protocol/envelope.py) as well.
pub mod Lifecycle
mod Examples
use agentic_bus.Common.{
  ℕ, ℤ, List, [], ◌∷◌, Bool, true, false, not, Option, none, some, if◌then◌else◌, Text, codes, Dict,
  Json, Fields, end, map, lookup, insert, remove, values, keep, length,
}
use agentic_bus.Ibac.Types.{IbacResult, Reason}
use agentic_bus.Ibac.Capability.{Capability}

pub data SessionPhase : Type 0 where
  created intent_received discovery negotiation awaiting_approval : SessionPhase
  execution completed dissolved : SessionPhase

abbrev pub is_dissolved : SessionPhase → Bool
is_dissolved dissolved = true
is_dissolved _ = false

pub record IntentPayload : Type 0 where
  pub intent_text : Text
  pub context : Dict Json
  pub ibac_claims_requested : List Text

pub data OfferStatus : Type 0 where
  pending accepted rejected : OfferStatus

-- Of an offer's payload (agentic_bus/core/protocol/envelope.py), what the coordinator reads.
pub record OfferPayload : Type 0 where
  pub capability_id : Text
  pub capability_description : Text
  pub constraints : Json
  pub required_scopes : List Text
  pub input_schema : Json
  pub output_schema : Json

pub record NegotiationRecord : Type 0 where
  pub agent_id : Text
  pub offer : OfferPayload
  pub status : OfferStatus
  pub rejection_reason : List Reason

-- A step of a composed plan, as `compose_offers` of
-- agentic_bus/coordinator/negotiation/engine.py lays it out.
pub record PlanStep : Type 0 where
  pub agent_id : Text
  pub capability_id : Text
  pub description : Text
  pub constraints : Json
  pub input_schema : Json
  pub inputs : Fields
  pub output_schema : Json

-- The entries of the plan that the coordinator reads back. The initial entropy is given by the
-- statuses that it was computed from; a counter that is absent is 0.
pub record CompositionPlan : Type 0 where
  pub participating_agents : List Text
  pub steps : List PlanStep
  pub viable : Bool
  pub decomposition : Fields
  pub initial_entropy : Option (List OfferStatus)
  pub round : ℕ
  pub renegotiation_round : ℕ

abbrev pub empty_plan : CompositionPlan
empty_plan = record {
  participating_agents = [];
  steps = [];
  viable = false;
  decomposition = end;
  initial_entropy = none;
  round = 0;
  renegotiation_round = 0;
}

abbrev pub step_agents : CompositionPlan → List Text
step_agents plan = map (λ (s : PlanStep). s.agent_id) plan.steps

-- A round of `AnswerValidationEngine.validate` (agentic_bus/coordinator/validation/engine.py).
pub record ValidationResult : Type 0 where
  pub approved : Bool
  pub reason : Json
  pub suggestions : Json
  pub round_num : ℕ
  pub validator_agent_id : Text

pub record SessionState : Type 0 where
  pub session_id : Text
  pub phase : SessionPhase
  pub requester_id : Text
  pub requester_oidc_subject : Text
  pub requester_authority : List Text
  pub tenant_ids : List ℤ
  pub intent : Option IntentPayload
  pub discovered_agents : List Text
  pub solicited_agents : List Text
  pub offers : List NegotiationRecord
  pub accepted_offers : List Text
  pub composition_plan : CompositionPlan
  pub ibac_decisions : List IbacResult
  pub capability : Option Capability
  pub assigned_agent_id : Text
  pub validation_rounds : ℕ
  pub max_validation_rounds : ℕ
  pub validation_history : List ValidationResult
  pub dissolved_at : Option Text

abbrev pub new_session : Text → Text → Text → SessionState
new_session fresh_id requester_id oidc_subject = record {
  session_id = fresh_id;
  phase = created;
  requester_id = requester_id;
  requester_oidc_subject = oidc_subject;
  requester_authority = [];
  tenant_ids = [];
  intent = none;
  discovered_agents = [];
  solicited_agents = [];
  offers = [];
  accepted_offers = [];
  composition_plan = empty_plan;
  ibac_decisions = [];
  capability = none;
  assigned_agent_id = [];
  validation_rounds = 0;
  max_validation_rounds = 3;
  validation_history = [];
  dissolved_at = none;
}

abbrev pub Sessions : Type 0
Sessions = Dict SessionState

-- `fresh_id` is the generated identifier.
unfoldable pub create : Text → Text → Text → Sessions → SessionState × Sessions
create fresh_id requester_id oidc_subject sessions = (
  new_session fresh_id requester_id oidc_subject,
  insert fresh_id (new_session fresh_id requester_id oidc_subject) sessions,
)

unfoldable pub get_session : Text → Sessions → Option SessionState
get_session session_id sessions = lookup session_id sessions

-- None is the `ValueError` of an unknown session.
unfoldable pub transition : Text → SessionPhase → Sessions → Option Sessions
transition session_id phase sessions = elim (lookup session_id sessions) [
  | none ↦ none
  | some session ↦ some (insert session_id (record session { phase = phase }) sessions)
]

-- `now` is the time of the call, as text.
abbrev pub end_session : Text → SessionState → SessionState
end_session now session = record session { phase = dissolved; dissolved_at = some now }

unfoldable pub dissolve : Text → Text → Sessions → Option SessionState × Sessions
dissolve now session_id sessions = elim (lookup session_id sessions) [
  | none ↦ (none, remove session_id sessions)
  | some session ↦ (some (end_session now session), remove session_id sessions)
]

unfoldable pub active_sessions : Sessions → List SessionState
active_sessions sessions = keep (λ s. not (is_dissolved s.phase)) (values sessions)

unfoldable pub session_count : Sessions → ℕ
session_count sessions = length sessions
