-- ===== src/Negotiation/Approval.antt =====
-- `_handle_accept`, `_finalize_negotiation`, `_handle_reject`, `_handle_renegotiation` and
-- `_request_offers` of agentic_bus/coordinator/runtime.py, on the session's state.
use agentic_bus.Common.{
  ℕ, ◌+◌, List, [], ◌++◌, Bool, true, false, not, ◌&&◌, Option, none, some, if◌then◌else◌, Text,
  codes, insert, is_empty, keep, ltb, Json, truthy,
}
use agentic_bus.Ibac.Types.{IntentManifest}
use agentic_bus.Sessions.{
  SessionPhase, discovery, negotiation, awaiting_approval, IntentPayload, OfferPayload, empty_plan,
  SessionState,
}
use agentic_bus.Negotiation.Convergence.{
  ignored, executes, raises, solicits, dissolves, Handled, Engine, end_with, handle_offer,
}

abbrev pub is_awaiting : SessionPhase → Bool
is_awaiting awaiting_approval = true
is_awaiting _ = false

abbrev pub max_renegotiations : ℕ
max_renegotiations = 3

abbrev pub with_hints : Json → Option IntentPayload → Option IntentPayload
with_hints hints none = none
with_hints hints (some intent) =
    if truthy hints
    then some
        (record intent { context = insert (codes "_renegotiation_hints") hints intent.context })
    else some intent

-- The session as it enters discovery again.
abbrev pub reset_for : (round_num : ℕ) → (hints : Json) → SessionState → SessionState
reset_for round_num hints session = record session {
  offers = [];
  accepted_offers = [];
  solicited_agents = [];
  composition_plan = record empty_plan { renegotiation_round = round_num };
  intent = with_hints hints session.intent;
  phase = discovery;
}

-- `discover` gives the candidates for the session, and `is_connected` tells the agents that can be
-- reached.
pub record Directory (W : Type 0) : Type 0 where
  pub discover : SessionState → W → List Text × W
  pub is_connected : Text → Bool

-- The messages about a session. An acceptance is known by whether its payload is well formed, a
-- rejection by whether a requester sent it, whether it asks to renegotiate, and its hints.
pub data Event : Type 0 where
  offers : (agent_id : Text) → OfferPayload → Option IntentManifest → Event
  accepts : (wellformed : Bool) → Event
  rejects : (by_requester renegotiate : Bool) → (hints : Json) → Event

module _ {W : Type 0} (engine : Engine W) (directory : Directory W) where
  abbrev pub finalize_if : (viable : Bool) → SessionState → W → Handled W
  finalize_if true session world = end_with engine executes session world
  finalize_if false session world = end_with engine dissolves session world

  abbrev pub finalize_negotiation : SessionState → W → Handled W
  finalize_negotiation session world = finalize_if session.composition_plan.viable session world

  unfoldable pub handle_accept : (wellformed : Bool) → SessionState → W → Handled W
  handle_accept wellformed session world =
      if not (is_awaiting session.phase)
      then end_with engine ignored session world
      else if wellformed
      then finalize_negotiation session world
      else end_with engine raises session world

  abbrev pub request_offers : SessionState → List Text → SessionState
  request_offers session candidates = record session {
    solicited_agents = session.solicited_agents ++ keep directory.is_connected candidates;
  }

  unfoldable pub handle_renegotiation : (hints : Json) → SessionState → W → Handled W
  handle_renegotiation hints session world =
      let round_num = session.composition_plan.renegotiation_round + 1 in
      let reset = reset_for round_num hints session in
      let (candidates, world') = directory.discover reset world in
      let found = record reset { discovered_agents = candidates } in
      if ltb max_renegotiations round_num
      then end_with engine dissolves session world
      else if is_empty candidates
      then end_with engine dissolves found world'
      else end_with engine solicits
          (request_offers (record found { phase = negotiation }) candidates) world'

  unfoldable pub handle_reject :
      (by_requester renegotiate : Bool) → (hints : Json) → SessionState → W → Handled W
  unfolding handle_renegotiation
  handle_reject by_requester renegotiate hints session world =
      if by_requester && renegotiate
      then handle_renegotiation hints session world
      else end_with engine dissolves session world

  abbrev pub handle : Event → SessionState → W → Handled W
  handle (offers agent_id offer manifest) session world =
      handle_offer engine agent_id offer manifest session world
  handle (accepts wellformed) session world = handle_accept wellformed session world
  handle (rejects by_requester renegotiate hints) session world =
      handle_reject by_requester renegotiate hints session world
