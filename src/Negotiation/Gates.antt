-- ===== src/Negotiation/Gates.antt =====
-- No offer is accepted, and no plan proposed, past the gates: agentic_bus/coordinator/runtime.py.
use mathlib.Core.Bool.{false≢true}
use agentic_bus.Common.{List, [], ◌∷◌, true, Bool-cases, In, ◌≡◌, inl, inr, refl, sym, ap, ◌∙◌}
use agentic_bus.Ibac.Types.{negotiation_acceptance, IbacResult, is_allowed}
use agentic_bus.Sessions.{NegotiationRecord, SessionState}
use agentic_bus.Supervisor.Types.{intent_text_of}
use agentic_bus.Negotiation.Plans.{was_accepted}
use agentic_bus.Negotiation.Convergence.{
  Engine, offer_request, is_pending, judged_record, judge_offers,
}

module _ {W : Type 0} (engine : Engine W) where
  -- In some world the engine allowed the acceptance of the offer.
  abbrev pub IsGated : SessionState → NegotiationRecord → Type 0
  IsGated session r =
      (world : W) × (is_allowed
          (engine.evaluate_with_llm
            (offer_request negotiation_acceptance session r.agent_id r.offer) world).0
        ≡ true)

  abbrev pub AllGated : SessionState → List NegotiationRecord → Type 0
  AllGated session rs =
      (r : NegotiationRecord) → In r rs → was_accepted r ≡ true → IsGated session r

  -- The requester and the intent's text are the same.
  abbrev pub SameRequest : SessionState → SessionState → Type 0
  SameRequest s t = (s.requester_id ≡ t.requester_id) × (intent_text_of s ≡ intent_text_of t)

  pub IsGated-SameRequest :
      (s t : SessionState) (r : NegotiationRecord) → SameRequest s t → IsGated s r → IsGated t r
  IsGated-SameRequest s t r (e, d) (world, allowed) = (world, rw (sym e, sym d) allowed)

  IsGated-judged_record :
      (session : SessionState) (r q : NegotiationRecord) (world : W) (verdict : IbacResult)
      → (engine.evaluate_with_llm
          (offer_request negotiation_acceptance session r.agent_id r.offer)
          world).0
        ≡ verdict
      → q ≡ judged_record engine r verdict
      → was_accepted q ≡ true
      → IsGated session q
  IsGated-judged_record session r q world verdict e same a =
      elim (Bool-cases (is_allowed verdict)) [
        | inl allowed ↦ rw (rw allowed at same) (world, rw e allowed)
        | inr refused ↦ absurd (false≢true (sym (ap was_accepted (rw refused at same)) ∙ a))
      ]

  pub judge_offers-AllGated :
      (session : SessionState) (rs : List NegotiationRecord) (world : W)
      → AllGated session rs
      → AllGated session (judge_offers engine session rs world).offers
  unfolding judge_offers
  judge_offers-AllGated session [] world h q m a = absurd m
  judge_offers-AllGated session (r ∷ rs) world h q m a = elim (Bool-cases (is_pending r.status)) [
    | inr settled ↦ elim (rw settled at m) [
      | inl same ↦ h q (inl same) a
      | inr later ↦ judge_offers-AllGated session rs world (λ p n. h p (inr n)) q later a
    ]
    | inl open_status ↦
        let (verdict, world') =
          engine.evaluate_with_llm (offer_request negotiation_acceptance session r.agent_id r.offer)
            world in
        elim (rw open_status at m) [
          | inl same ↦ IsGated-judged_record session r q world verdict refl same a
          | inr later ↦ judge_offers-AllGated session rs world' (λ p n. h p (inr n)) q later a
        ]
  ]
