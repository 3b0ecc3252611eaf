-- ===== src/Negotiation/Soundness.antt =====
-- What holds of a session through the offers for its plan: agentic_bus/coordinator/runtime.py.
use mathlib.Core.Bool.{false≢true}
use agentic_bus.Common.{
  List, [], ◌∷◌, ◌++◌, Bool, true, false, Option, none, some, Bool-cases, Text, In, In-append_cases,
  In-append_left, In-keep, map, any, keep, is_empty, Fields, ◌≡◌, ◌≢◌, inl, inr, refl, sym, ap, ◌∙◌,
}
use agentic_bus.Ibac.Types.{IbacResult, is_allowed, IntentManifest}
use agentic_bus.Sessions.{
  awaiting_approval, OfferStatus, OfferPayload, NegotiationRecord, PlanStep, SessionState,
}
use agentic_bus.Negotiation.Plans.{
  was_accepted, step_of_offer, compose_offers, Fallback, solidification, recursive_simplification,
  statuses,
}
use agentic_bus.Negotiation.Convergence.{
  Engine, is_closed, judge_offers, propose_ordered, propose_plan, propose_from_accepted, next_round,
  offer_verdict, with_offer, fall_back, settle, try_converge, new_record, handle_offer, with_judged,
  with_entropy, initial_statuses, all_responded,
}
use agentic_bus.Negotiation.Gates.{AllGated, judge_offers-AllGated}

-- The step stands for an accepted offer.
abbrev pub IsOffered : List NegotiationRecord → PlanStep → Type 0
IsOffered offers step =
    (r : NegotiationRecord) × In r offers × (was_accepted r ≡ true) × (step ≡ step_of_offer r)

-- A plan that waits for approval is viable, and each of its steps stands for an accepted offer.
abbrev pub IsPlanned : SessionState → Type 0
IsPlanned session =
    session.phase ≡ awaiting_approval
    → (session.composition_plan.viable ≡ true)
      × ((step : PlanStep) → In step session.composition_plan.steps → IsOffered session.offers step)

In-map_inv :
    {A B : Type 0} (f : A → B) (b : B) (xs : List A)
    → In b (map f xs)
    → (a : A) × In a xs × (b ≡ f a)
In-map_inv f b [] h = absurd h
In-map_inv f b (x ∷ xs) (inl e) = (x, inl refl, e)
In-map_inv f b (x ∷ xs) (inr h) = let (a, m, e) = In-map_inv f b xs h in (a, inr m, e)

compose_offers-IsOffered :
    (offers : List NegotiationRecord) (step : PlanStep)
    → In step (compose_offers offers).0
    → IsOffered offers step
unfolding compose_offers
compose_offers-IsOffered offers step m = elim (Bool-cases (is_empty (keep was_accepted offers))) [
  | inl e ↦ absurd (rw e at m)
  | inr e ↦
      let (r, n, same) = In-map_inv step_of_offer step (keep was_accepted offers) (rw e at m) in
      let (there, agreed) = In-keep was_accepted r offers n in (r, there, agreed, same)
]

open-phase : (s : SessionState) → is_closed s.phase ≡ false → s.phase ≢ awaiting_approval
open-phase s h e = false≢true (sym h ∙ ap is_closed e)

-- Ordering invents no step.
abbrev pub OrdersWithin : {W : Type 0} → Engine W → Type 0
OrdersWithin engine =
    (steps : List PlanStep) (decomposition : Fields) (ordered : List PlanStep)
    → engine.order_steps steps decomposition ≡ some ordered
    → (s : PlanStep) → In s ordered
    → In s steps

module _ {W : Type 0} (engine : Engine W) (within : OrdersWithin engine) where
  -- The session's accepted offers passed the gate, and its plan consists of such.
  pub record IsSound (session : SessionState) : Type 0 where
    pub all_gated : AllGated engine session session.offers
    pub is_planned : IsPlanned session

  propose_ordered-IsSound :
      (s : SessionState) (world : W) (viable : Bool) (result : Option (List PlanStep))
      → engine.order_steps (compose_offers s.offers).0 s.composition_plan.decomposition ≡ result
      → is_closed s.phase ≡ false
      → AllGated engine s s.offers
      → IsSound (propose_ordered engine s viable world result).session
  propose_ordered-IsSound s world viable none e o g = record {
    all_gated = g;
    is_planned = λ p. absurd (open-phase s o p);
  }
  propose_ordered-IsSound s world false (some ordered) e o g = record {
    all_gated = g;
    is_planned = λ p. absurd (open-phase s o p);
  }
  propose_ordered-IsSound s world true (some ordered) e o g = record {
    all_gated = g;
    is_planned = λ p. (
      refl,
      λ step m.
          compose_offers-IsOffered s.offers step
            (within (compose_offers s.offers).0 s.composition_plan.decomposition ordered e step m),
    );
  }

  propose_plan-IsSound :
      (s : SessionState) (world : W)
      → is_closed s.phase ≡ false
      → AllGated engine s s.offers
      → IsSound (propose_plan engine s world).session
  unfolding propose_plan
  propose_plan-IsSound s world o g =
      propose_ordered-IsSound s world (compose_offers s.offers).1 _ refl o g

  propose_from_accepted-IsSound :
      (s : SessionState) (world : W)
      → is_closed s.phase ≡ false
      → AllGated engine s s.offers
      → IsSound (propose_from_accepted engine s world).session
  unfolding propose_from_accepted
  propose_from_accepted-IsSound s world open_phase gated =
      elim (Bool-cases (any was_accepted s.offers)) [
        | inl e ↦ rw e (propose_plan-IsSound s world open_phase gated)
        | inr e ↦
            rw e
              (record { all_gated = gated; is_planned = λ p. absurd (open-phase s open_phase p) })
      ]

  fall_back-IsSound :
      (f : Option Fallback) (s : SessionState) (world : W)
      → is_closed s.phase ≡ false
      → AllGated engine s s.offers
      → IsSound (fall_back engine f s world).session
  fall_back-IsSound none s world o g = propose_from_accepted-IsSound s world o g
  fall_back-IsSound (some recursive_simplification) s world o g =
      propose_from_accepted-IsSound s world o g
  fall_back-IsSound (some solidification) s world o g = record {
    all_gated = g;
    is_planned = λ p. absurd (open-phase s o p);
  }

  settle-IsSound :
      (initial : List OfferStatus) (s : SessionState) (world : W)
      → is_closed s.phase ≡ false
      → AllGated engine s s.offers
      → IsSound (settle engine initial s world).session
  unfolding settle
  settle-IsSound initial s world o g =
      elim (Bool-cases (engine.converged (statuses s.offers) initial)) [
        | inl e ↦ rw e (propose_plan-IsSound s world o g)
        | inr e ↦ rw e (fall_back-IsSound _ (next_round s) world o g)
      ]

  try_converge-IsSound :
      (s : SessionState) (world : W) → IsSound s → IsSound (try_converge engine s world).session
  unfolding try_converge
  try_converge-IsSound s world h = elim (Bool-cases (is_closed s.phase)) [
    | inl e ↦ rw e h
    | inr o ↦ rw o (elim (Bool-cases (all_responded s)) [
      | inr e ↦ rw e h
      | inl e ↦ rw e (
          settle-IsSound (initial_statuses s)
            (with_judged engine (with_entropy s) (judge_offers engine s s.offers world)) _ o
            (judge_offers-AllGated engine s s.offers world h.all_gated))
    ])
  ]

  new_record-was_accepted :
      (agent_id : Text) (offer : OfferPayload) (verdict : IbacResult)
      → was_accepted (new_record engine agent_id offer verdict) ≡ false
  new_record-was_accepted agent_id offer verdict = elim (Bool-cases (is_allowed verdict)) [
    | inl e ↦ rw e refl
    | inr e ↦ rw e refl
  ]

  with_offer-IsSound :
      (s : SessionState) (r : NegotiationRecord) (decisions : List IbacResult)
      → was_accepted r ≡ false
      → IsSound s
      → IsSound (record s { ibac_decisions = decisions; offers = s.offers ++ r ∷ [] })
  with_offer-IsSound s r decisions fresh h = record {
    all_gated = λ q m a. elim (In-append_cases q s.offers (r ∷ []) m) [
      | inl old ↦ h.all_gated q old a
      | inr (inl same) ↦ absurd (false≢true (sym fresh ∙ ap was_accepted (sym same) ∙ a))
      | inr (inr nowhere) ↦ absurd nowhere
    ];
    is_planned = λ p.
        let (viable, offered) = h.is_planned p in
        (
          viable,
          λ step m.
              let (q, n, a, e) = offered step m in (q, In-append_left q s.offers (r ∷ []) n, a, e),
        );
  }

  pub handle_offer-IsSound :
      (agent_id : Text) (offer : OfferPayload) (manifest : Option IntentManifest) (s : SessionState)
      (world : W)
      → IsSound s
      → IsSound (handle_offer engine agent_id offer manifest s world).session
  unfolding handle_offer
  handle_offer-IsSound agent_id offer manifest s world h =
      let judged = offer_verdict engine agent_id offer manifest s world in
      try_converge-IsSound (with_offer engine agent_id offer s judged.0) judged.1 (
        with_offer-IsSound s (new_record engine agent_id offer judged.0)
          (s.ibac_decisions ++ judged.0 ∷ []) (new_record-was_accepted agent_id offer judged.0) h)
