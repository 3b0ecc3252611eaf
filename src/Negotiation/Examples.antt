-- ===== src/Negotiation/Examples.antt =====
-- A session with two agents, on concrete values.
use agentic_bus.Common.{
  ℕ, suc, ◌≤◌, List, [], ◌∷◌, ◌++◌, Bool, true, false, none, some, if◌then◌else◌, Text, codes, ◌==◌,
  In, Json, null, int, float, str, arr, obj, Items, nil, cons, Fields, end, field, ℤ, pos, ◌≡◌, ◌≢◌,
  ◌↔◌, ◌⊎◌, inl, inr, refl, ltb,
}
use agentic_bus.Ibac.Types.{IbacRequest, IbacResult, allow, deny, result}
use agentic_bus.Sessions.{
  negotiation, pending, OfferPayload, NegotiationRecord, PlanStep, SessionState, new_session,
}
use agentic_bus.Memory.{check_read, check_write, empty_memory}
use agentic_bus.Memory.Patterns.{IsLine}
use agentic_bus.Inputs.Parsing.{Answer, answered, failed, ModelReply, decoded, parse}
use agentic_bus.Negotiation.Plans.{step_of_offer, compose_offers, needs_fallback}
use agentic_bus.Negotiation.Ordering.{
  is_object_list, sub_intents, apply_order, parsed_reply, order_steps,
}
use agentic_bus.Negotiation.Permutation.{IsReordered, order_steps-IsReordered, HasSortableOrder}
use agentic_bus.Negotiation.Policies.{shared_key}
use agentic_bus.Negotiation.Access.{
  starless, InNamespace, agents_of, under, inferred_write_iff, inferred_read_iff,
}
use agentic_bus.Negotiation.Convergence.{
  proposes, Engine, Handled, handle_offer, try_converge, judge_offers, settle, propose_plan,
  propose_from_accepted,
}
use agentic_bus.Negotiation.Approval.{Directory, offers, rejects, handle}
use agentic_bus.Negotiation.Rounds.{renegotiations, renegotiations_bounded}
use agentic_bus.Negotiation.Decisions.{outcome_if, OrdersAlways, try_converge-outcome_if}
use agentic_bus.Common.{any, ◌&&◌, not, ◌+◌}
use agentic_bus.Negotiation.Plans.{was_accepted, statuses}
use agentic_bus.Negotiation.Convergence.{initial_statuses}

abbrev no_json : Text → Answer Json
no_json s = failed (codes "no JSON")

abbrev sorts_none : Items → Bool
sorts_none vs = false

abbrev crm : Text
crm = codes "crm"

abbrev mail : Text
mail = codes "mail"

abbrev offer_of : Text → OfferPayload
offer_of capability_id = record {
  capability_id = capability_id;
  capability_description = [];
  constraints = null;
  required_scopes = [];
  input_schema = null;
  output_schema = null;
}

abbrev record_of : Text → Text → NegotiationRecord
record_of agent_id capability_id = record {
  agent_id = agent_id;
  offer = offer_of capability_id;
  status = pending;
  rejection_reason = [];
}

abbrev find_step : PlanStep
find_step = step_of_offer (record_of crm (codes "find"))

abbrev send_step : PlanStep
send_step = step_of_offer (record_of mail (codes "send"))

abbrev steps : List PlanStep
steps = send_step ∷ find_step ∷ []

-- The decomposition, and an answer that swaps the two steps.
abbrev decomposition : Fields
decomposition = field (codes "sub_intents") (arr (cons (obj end) nil)) end

abbrev swap_them : List PlanStep → Fields → Answer ModelReply
swap_them s d =
    answered
      (decoded (field (codes "order") (arr (cons (int (pos 1)) (cons (int (pos 0)) nil))) end))

swapped :
    order_steps no_json sorts_none (some swap_them) steps decomposition
    ≡ some (find_step ∷ send_step ∷ [])
unfolding order_steps apply_order parse ◌==◌
swapped = refl

-- 1.0 and 0.0, which are sorted into what `range` gives, but are no indices.
abbrev swap_floats : List PlanStep → Fields → Answer ModelReply
swap_floats s d = answered (
    decoded (
      field (codes "order")
        (arr (
          cons (float (codes "1.0") (some (pos 1)))
            (cons (float (codes "0.0") (some (pos 0))) nil)))
        end))

floats_raise : order_steps no_json sorts_none (some swap_floats) steps decomposition ≡ none
unfolding order_steps apply_order parse ◌==◌
floats_raise = refl

order_steps-IsReordered_example :
    IsReordered steps (order_steps no_json sorts_none (some swap_them) steps decomposition)
unfolding ◌==◌ parse
order_steps-IsReordered_example =
    order_steps-IsReordered no_json sorts_none swap_them steps decomposition objects sortable
  where
    same : {a b : Json} → some a ≡ some b → b ≡ a
    same p = cc

    items_eq : {a b : Items} → some (arr a) ≡ some (arr b) → b ≡ a
    items_eq p = cc

    differ : {a : List ℤ} → some a ≡ none → ⊥
    differ p = cc

    objects : (subs : Json) → sub_intents decomposition ≡ some subs → is_object_list subs ≡ true
    objects subs e = rw (same e) refl

    sortable :
        HasSortableOrder no_json sorts_none
          (parsed_reply no_json sorts_none (swap_them steps decomposition))
    sortable vs e = (λ h. absurd (differ (rw (items_eq e) at h)), rw (items_eq e) refl)

abbrev broken : Fields
broken = field (codes "sub_intents") (arr (cons (str (codes "find")) nil)) end

inferred_write_iff_example :
    (check_write {V = Json}
        (codes "mail.draft")
        mail
        (under (find_step ∷ [] ++ send_step ∷ []) empty_memory)
      ≡ true)
    ↔ (IsLine (codes "mail.draft") (shared_key (codes "send"))
        ⊎ InNamespace (codes "mail.draft") mail)
unfolding ◌==◌
inferred_write_iff_example =
    inferred_write_iff (find_step ∷ []) [] send_step empty_memory (codes "mail.draft") tt refl
      (starless mail refl) (starless (codes "send") refl)

inferred_read_iff_example :
    (check_read {V = Json}
        (codes "crm.rows")
        mail
        (under (find_step ∷ [] ++ send_step ∷ []) empty_memory)
      ≡ true)
    ↔ (InNamespace (codes "crm.rows") (codes "shared")
        ⊎ ((name : Text) × In name (agents_of (find_step ∷ []))
            × (name ≢ mail)
            × InNamespace (codes "crm.rows") name))
unfolding ◌==◌
inferred_read_iff_example =
    inferred_read_iff (find_step ∷ []) [] send_step empty_memory (codes "crm.rows") tt refl
      (λ name m. elim m [ inl e ↦ rw e (starless crm refl) | inr nowhere ↦ absurd nowhere ])

-- It allows every agent but "spam".
abbrev judge : IbacRequest → ℕ → IbacResult × ℕ
judge q n =
    (result (if q.agent_id == codes "spam" then deny else allow) q.evaluation_point [], suc n)

abbrev engine : Engine ℕ
engine = record {
  evaluate_with_llm = judge;
  order_steps = λ s d. order_steps no_json sorts_none none s d;
  converged = λ current initial. false;
  max_rounds = 5;
}

abbrev directory : Directory ℕ
directory = record { discover = λ s n. (crm ∷ mail ∷ [], n); is_connected = λ a. true }

abbrev session : SessionState
session = record (new_session (codes "s1") (codes "alice") []) {
  phase = negotiation;
  discovered_agents = crm ∷ [];
  solicited_agents = crm ∷ [];
}

abbrev after_offer : Handled ℕ
after_offer = handle engine directory (offers crm (offer_of (codes "find")) none) session 0

proposed : after_offer.outcome ≡ proposes
unfolding handle_offer try_converge judge_offers settle propose_from_accepted propose_plan
    order_steps ◌==◌ needs_fallback compose_offers
proposed = refl

renegotiations_bounded_example :
    renegotiations engine directory
      ((rejects true true null, 0) ∷ (rejects true true null, 0) ∷ [])
      session
    ≤ 3
renegotiations_bounded_example =
    renegotiations_bounded engine directory
      ((rejects true true null, 0) ∷ (rejects true true null, 0) ∷ []) session refl

abbrev one_offer : SessionState
one_offer = record session { offers = record_of crm (codes "find") ∷ [] }

-- An engine that keeps the order of the offers.
abbrev in_order : Engine ℕ
in_order = record engine { order_steps = λ s d. some s }

in_order-OrdersAlways : OrdersAlways in_order
in_order-OrdersAlways s d = (s, refl)

try_converge-outcome_if_example :
    let judged = (judge_offers in_order one_offer one_offer.offers 0).offers in
    (try_converge in_order one_offer 0).outcome
    ≡ outcome_if (
        any was_accepted judged
        && not (
            ltb in_order.max_rounds (one_offer.composition_plan.round + 1)
            && not (
                in_order.converged
                  (statuses (judge_offers in_order one_offer one_offer.offers 0).offers)
                  (initial_statuses one_offer))))
unfolding ◌==◌
try_converge-outcome_if_example =
    try_converge-outcome_if in_order in_order-OrdersAlways one_offer 0 refl refl
