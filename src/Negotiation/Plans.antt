-- ===== src/Negotiation/Plans.antt =====
-- `compose_offers` and `needs_fallback` of agentic_bus/coordinator/negotiation/engine.py.
use agentic_bus.Common.{
  ℕ, List, [], Bool, true, false, Option, none, some, if◌then◌else◌, keep, is_empty, map, Json, obj,
  end, truthy, ltb, nat_eq,
}
use agentic_bus.Sessions.{OfferStatus, accepted, NegotiationRecord, PlanStep}

abbrev pub was_accepted : NegotiationRecord → Bool
was_accepted r = elim r.status [ accepted ↦ true | _ ↦ false ]

-- getattr(o.offer, "input_schema", {}) or {}
abbrev pub or_object : Json → Json
or_object v = if truthy v then v else obj end

abbrev pub step_of_offer : NegotiationRecord → PlanStep
step_of_offer o = record {
  agent_id = o.agent_id;
  capability_id = o.offer.capability_id;
  description = o.offer.capability_description;
  constraints = o.offer.constraints;
  input_schema = or_object o.offer.input_schema;
  inputs = end;
  output_schema = o.offer.output_schema;
}

-- The steps, and whether the plan is viable.
unfoldable pub compose_offers : List NegotiationRecord → List PlanStep × Bool
compose_offers offers =
    let agreed = keep was_accepted offers in
    if is_empty agreed then ([], false) else (map step_of_offer agreed, true)

pub data Fallback : Type 0 where
  recursive_simplification solidification : Fallback

abbrev pub statuses : List NegotiationRecord → List OfferStatus
statuses offers = map (λ (o : NegotiationRecord). o.status) offers

-- `converged current initial` is `check_convergence`: whether the entropy of the offers' statuses has
-- fallen far enough below the entropy of the initial ones.
unfoldable pub needs_fallback :
    (converged : List OfferStatus → List OfferStatus → Bool) (max_rounds round_num : ℕ)
    → List NegotiationRecord
    → (initial : List OfferStatus) → Option Fallback
needs_fallback converged max_rounds round_num offers initial =
    if ltb round_num max_rounds
    then none
    else if converged (statuses offers) initial
    then none
    else if nat_eq round_num max_rounds
    then some recursive_simplification
    else some solidification
