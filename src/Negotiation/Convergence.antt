-- ===== src/Negotiation/Convergence.antt =====
-- `_handle_offer`, `_try_converge`, `_try_propose_from_accepted` and `_propose_plan_to_requester` of
-- agentic_bus/coordinator/runtime.py, on the session's state. The messages and events that they send are
-- left out; that the session is dissolved is told by the outcome.
use agentic_bus.Common.{
  ℕ, ◌+◌, List, [], ◌∷◌, ◌++◌, Bool, true, false, not, Option, none, some, if◌then◌else◌, Text, all,
  any, elem, is_empty, map, Fields,
}
use agentic_bus.Ibac.Types.{
  EvaluationPoint, offer_eligibility, negotiation_acceptance, IbacRequest, IbacResult, is_allowed,
  IntentManifest,
}
use agentic_bus.Sessions.{
  SessionPhase, awaiting_approval, dissolved, OfferStatus, pending, accepted, rejected,
  OfferPayload, NegotiationRecord, PlanStep, SessionState,
}
use agentic_bus.Supervisor.Types.{intent_text_of}
use agentic_bus.Negotiation.Plans.{
  was_accepted, compose_offers, statuses, needs_fallback, Fallback, solidification,
  recursive_simplification,
}

-- What a handler comes to: nothing, a wait for more offers, a plan for the requester to approve, the
-- start of the execution, an exception, new solicitations, or the end of the session.
pub data HandlerOutcome : Type 0 where
  ignored waits proposes executes raises solicits dissolves : HandlerOutcome

pub record Handled (W : Type 0) : Type 0 where
  pub outcome : HandlerOutcome
  pub session : SessionState
  pub world : W

-- The given parts: the verdict of the engine, `order_steps` (none where it raises), and the engine's
-- settings. `converged` is as in `needs_fallback`.
pub record Engine (W : Type 0) : Type 0 where
  pub evaluate_with_llm : IbacRequest → W → IbacResult × W
  pub order_steps : List PlanStep → Fields → Option (List PlanStep)
  pub converged : List OfferStatus → List OfferStatus → Bool
  pub max_rounds : ℕ

abbrev pub offer_request : EvaluationPoint → SessionState → Text → OfferPayload → IbacRequest
offer_request point session agent_id offer = record {
  evaluation_point = point;
  requester_id = session.requester_id;
  requester_oidc_subject = [];
  agent_id = agent_id;
  intent_text = intent_text_of session;
  intent_context = [];
  requested_scopes = offer.required_scopes;
  proposed_capabilities = offer.capability_id ∷ [];
  negotiated_constraints = [];
  data_domains = [];
  manifest = none;
}

abbrev pub is_pending : OfferStatus → Bool
is_pending pending = true
is_pending accepted = false
is_pending rejected = false

abbrev pub is_closed : SessionPhase → Bool
is_closed awaiting_approval = true
is_closed dissolved = true
is_closed _ = false

abbrev pub responders : SessionState → List Text
responders session = map (λ (o : NegotiationRecord). o.agent_id) session.offers

abbrev pub expected_agents : SessionState → List Text
expected_agents session =
    if is_empty session.solicited_agents
    then session.discovered_agents
    else session.solicited_agents

abbrev pub all_responded : SessionState → Bool
all_responded session = all (λ a. elem a (responders session)) (expected_agents session)

-- The entropy is computed once, from the offers that are there the first time.
abbrev pub initial_statuses : SessionState → List OfferStatus
initial_statuses session = elim session.composition_plan.initial_entropy [
  | none ↦ statuses session.offers
  | some initial ↦ initial
]

abbrev pub with_entropy : SessionState → SessionState
with_entropy session = record session {
  composition_plan = record session.composition_plan {
    initial_entropy = some (initial_statuses session);
  };
}

abbrev pub next_round : SessionState → SessionState
next_round session = record session {
  composition_plan = record session.composition_plan { round = session.composition_plan.round + 1 };
}

module _ {W : Type 0} (engine : Engine W) where
  -- A pending record, judged at negotiation acceptance.
  abbrev pub judged_record : NegotiationRecord → IbacResult → NegotiationRecord
  judged_record r verdict =
      if is_allowed verdict
      then record r { status = accepted }
      else record r { status = rejected; rejection_reason = verdict.reason }

  abbrev pub joined : NegotiationRecord → IbacResult → List Text
  joined r verdict = if is_allowed verdict then r.agent_id ∷ [] else []

  pub record Judged : Type 0 where
    pub offers : List NegotiationRecord
    pub accepted_offers : List Text
    pub decisions : List IbacResult
    pub world : W

  -- The loop over the session's offers; the agents that are accepted and the decisions come in the
  -- loop's order.
  unfoldable pub judge_offers : SessionState → List NegotiationRecord → W → Judged
  judge_offers session [] world = record {
    offers = [];
    accepted_offers = [];
    decisions = [];
    world = world;
  }
  judge_offers session (r ∷ rs) world =
      let (verdict, world') =
        engine.evaluate_with_llm (offer_request negotiation_acceptance session r.agent_id r.offer)
          world in
      let judged = judge_offers session rs world' in
      let kept = judge_offers session rs world in
      if is_pending r.status
      then record {
        offers = judged_record r verdict ∷ judged.offers;
        accepted_offers = joined r verdict ++ judged.accepted_offers;
        decisions = verdict ∷ judged.decisions;
        world = judged.world;
      }
      else record kept { offers = r ∷ kept.offers }

  abbrev pub with_judged : SessionState → Judged → SessionState
  with_judged session j = record session {
    offers = j.offers;
    accepted_offers = session.accepted_offers ++ j.accepted_offers;
    ibac_decisions = session.ibac_decisions ++ j.decisions;
  }

  abbrev pub end_with : HandlerOutcome → SessionState → W → Handled W
  end_with outcome session world = record { outcome = outcome; session = session; world = world }

  abbrev pub with_plan : SessionState → List PlanStep → Bool → SessionState
  with_plan session steps viable = record session {
    composition_plan = record session.composition_plan { steps = steps; viable = viable };
  }

  -- The composed plan, with its steps in the order that was made of them.
  abbrev pub propose_ordered :
      SessionState → (viable : Bool) → W → Option (List PlanStep) → Handled W
  propose_ordered session viable world none = end_with raises session world
  propose_ordered session viable world (some ordered) =
      if viable
      then end_with proposes (record (with_plan session ordered true) { phase = awaiting_approval })
          world
      else end_with dissolves (with_plan session ordered false) world

  unfoldable pub propose_plan : SessionState → W → Handled W
  propose_plan session world =
      propose_ordered session (compose_offers session.offers).1 world (
        engine.order_steps (compose_offers session.offers).0 session.composition_plan.decomposition)

  -- `_try_propose_from_accepted`, which is also the last branch of `_try_converge`.
  unfoldable pub propose_from_accepted : SessionState → W → Handled W
  unfolding propose_plan
  propose_from_accepted session world =
      if any was_accepted session.offers
      then propose_plan session world
      else end_with dissolves session world

  abbrev pub fall_back : Option Fallback → SessionState → W → Handled W
  fall_back (some solidification) session world = end_with dissolves session world
  fall_back (some recursive_simplification) session world = propose_from_accepted session world
  fall_back none session world = propose_from_accepted session world

  -- Behind the acceptance loop.
  unfoldable pub settle : List OfferStatus → SessionState → W → Handled W
  unfolding propose_from_accepted
  settle initial session world =
      if engine.converged (statuses session.offers) initial
      then propose_plan session world
      else fall_back
          (needs_fallback engine.converged engine.max_rounds (session.composition_plan.round + 1)
            session.offers initial)
          (next_round session) world

  unfoldable pub try_converge : SessionState → W → Handled W
  unfolding judge_offers settle
  try_converge session world =
      if is_closed session.phase
      then end_with ignored session world
      else if not (all_responded session)
      then end_with waits session world
      else let j = judge_offers session session.offers world in
        settle (initial_statuses session) (with_judged (with_entropy session) j) j.world

  abbrev pub new_record : Text → OfferPayload → IbacResult → NegotiationRecord
  new_record agent_id offer verdict = record {
    agent_id = agent_id;
    offer = offer;
    status = if is_allowed verdict then pending else rejected;
    rejection_reason = if is_allowed verdict then [] else verdict.reason;
  }

  abbrev pub offer_verdict :
      (agent_id : Text) → OfferPayload → Option IntentManifest → SessionState → W → IbacResult × W
  offer_verdict agent_id offer manifest session world =
      engine.evaluate_with_llm
        (record (offer_request offer_eligibility session agent_id offer) { manifest = manifest })
        world

  abbrev pub with_offer : Text → OfferPayload → SessionState → IbacResult → SessionState
  with_offer agent_id offer session verdict = record session {
    ibac_decisions = session.ibac_decisions ++ verdict ∷ [];
    offers = session.offers ++ new_record agent_id offer verdict ∷ [];
  }

  -- `manifest` is what `_build_manifest` derives; the session is one that the manager has.
  unfoldable pub handle_offer :
      (agent_id : Text) → OfferPayload → Option IntentManifest → SessionState → W → Handled W
  unfolding try_converge
  handle_offer agent_id offer manifest session world =
      let judged = offer_verdict agent_id offer manifest session world in
      try_converge (with_offer agent_id offer session judged.0) judged.1
